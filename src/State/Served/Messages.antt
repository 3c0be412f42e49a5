-- ===== src/State/Served/Messages.antt =====
-- `handle_message` of src/state/mod.rs keeps the invariant of the state.
use ellidri.Prelude.{Option-cases, ℕ, ◌≡◌, sym, ap, ◌∙◌, inl, inr, true, false, some, List, arith}
use mathlib.Core.Path.{subst}
use ellidri.Message.{Message}
use ellidri.Request.{Request}
use ellidri.Client.{Client, Item, apply_request}
use ellidri.Client.Connection.{ConnectionState, registered, apply, is_registered}
use ellidri.Client.Connection.Registration.{is_quit}
use ellidri.State.{State, World, client_of}
use ellidri.State.Info.{Env}
use ellidri.State.Dispatch.{Outcome, advance, handle_message}
use ellidri.State.Served.{IsServed, replaced-IsServed}
use ellidri.State.Served.Lift.{advance-state, handle_message_brings}
use ellidri.State.Served.Requests.{run_request-IsServed}

registered_stays :
    (r : Request) (t : ConnectionState)
    → is_quit r ≡ false
    → apply registered r ≡ some t
    → is_registered t ≡ true
unfolding is_quit apply is_registered
registered_stays (Request.quit reason) t q h = ground arith
registered_stays _ t q h = ground arith

is_registered-registered : (s : ConnectionState) → is_registered s ≡ true → s ≡ registered
unfolding is_registered
is_registered-registered s h = ground arith

apply_request-keeps :
    (r : Request) (c d : Client)
    → is_quit r ≡ false
    → apply_request r c ≡ some d
    → (d.nick ≡ c.nick) × (is_registered c.state ≡ true → is_registered d.state ≡ true)
unfolding apply_request
apply_request-keeps r c d q h = elim (Option-cases (apply c.state r)) [
  | inl e ↦ ground (arith, e)
  | inr (t, e) ↦
      let made : record c { state = t } ≡ d = ground (arith, e) in
      (
        ap (λ x. x.nick) (sym made),
        λ reg.
            let was = is_registered-registered c.state reg in
            ap (λ x. is_registered x.state) (sym made)
            ∙ registered_stays r t q (ap (λ s. apply s r) (sym was) ∙ e),
      )
]

advance-IsServed :
    (env : Env) (id : ℕ) (r : Request) (w v : World)
    → is_quit r ≡ false
    → IsServed w.state
    → advance env id r w ≡ some v
    → IsServed v.state
unfolding advance
advance-IsServed env id r w v q served h = elim (Option-cases (client_of id w.state)) [
  | inl at ↦ ground (arith, at)
  | inr (c, at) ↦ elim (Option-cases (apply_request r c)) [
    | inl e ↦ ground (arith, at, e)
    | inr (d, e) ↦
        let (named, reg) = apply_request-keeps r c d q e in
        subst IsServed (sym (advance-state env id r w v c d at e h))
          (replaced-IsServed w.state id c d at named reg served)
  ]
]

-- A message that is handled without a panic keeps the invariant of the state, whoever sends it and
-- whatever it says.
pub handle_message-IsServed :
    (env : Env) (id : ℕ) (m : Message) (s : State) (sent : List (ℕ × Item)) (out : Outcome)
    → IsServed s
    → handle_message env id m s sent ≡ some out
    → IsServed out.state
unfolding handle_message
handle_message-IsServed env id m s sent out served h = elim (Option-cases (client_of id s)) [
  | inl at ↦ let same : s ≡ out.state = ground (arith, at) in subst IsServed same served
  | inr (c, at) ↦
      handle_message_brings IsServed id m c s served
        (λ e r w q same new may f.
          run_request-IsServed e id r w c q (subst IsServed (sym same) served)
            (ap (client_of id) same ∙ at) may f)
        (λ e r w v q p f. advance-IsServed e id r w v q p f) env sent out at h
]
