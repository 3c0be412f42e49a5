-- ===== src/State/Served/Privilege.antt =====
-- A message makes an operator only with a name and a password of the configuration:
-- `handle_message` of src/state/mod.rs.
use ellidri.Prelude.{
  Option-cases, any, Text, str_eq, ℕ, ◌≡◌, refl, sym, ap, ◌∙◌, ◌⊎◌, inl, inr, Bool, true, false,
  ◌&&◌, some, List, arith,
}
use mathlib.Core.Path.{subst}
use ellidri.Errors
use ellidri.Message.{Message}
use ellidri.Request.{Request, points}
use ellidri.Request
use ellidri.Client.{Client, Item, can_issue_request, apply_request}
use ellidri.Client.Connection.{apply}
use ellidri.State.{State, World, client_of}
use ellidri.State.Info.{Env}
use ellidri.State.Account.{cmd_oper}
use ellidri.State.Dispatch.{run_request, Outcome, advance, handle_message}
use ellidri.State.Served.{IsServed}
use ellidri.State.Served.Clients.{cmd_oper-state}
use ellidri.State.Served.Lift.{advance-state, handle_message_brings}
use ellidri.State.Served.Operators.{
  OnlyOld, same_state, replaced-OnlyOld, is_oper, run_request-OnlyOld,
}

OnlyOld-trans : (s t u : State) → OnlyOld s t → OnlyOld t u → OnlyOld s u
OnlyOld-trans s t u p q = record {
  old = λ j d at op. let (c, was, old) = q.old j d at op in p.old j c was old;
}

same_operator :
    (r : Request) (c d : Client)
    → apply_request r c ≡ some d
    → d.operator ≡ true
    → c.operator ≡ true
unfolding apply_request
same_operator r c d h op = elim (Option-cases (apply c.state r)) [
  | inl e ↦ ground (arith, e)
  | inr (t, e) ↦
      let made : record c { state = t } ≡ d = ground (arith, e) in ap (λ x. x.operator) made ∙ op
]

advance-OnlyOld :
    (env : Env) (id : ℕ) (r : Request) (w v : World)
    → advance env id r w ≡ some v
    → OnlyOld w.state v.state
unfolding advance
advance-OnlyOld env id r w v h = elim (Option-cases (client_of id w.state)) [
  | inl at ↦ ground (arith, at)
  | inr (c, at) ↦ elim (Option-cases (apply_request r c)) [
    | inl e ↦ ground (arith, at, e)
    | inr (d, e) ↦
        subst (OnlyOld w.state) (sym (advance-state env id r w v c d at e h))
          (replaced-OnlyOld w.state id c d at (same_operator r c d e))
  ]
]

-- The request is OPER with a name and a password that the configuration has.
abbrev IsKnownOper : State → Request → Type 0
IsKnownOper s r =
    (name : Text) × (password : Text) × (r ≡ Request.oper name password)
    × (any (λ o. str_eq o.0 name && str_eq o.1 password) s.opers ≡ true)

oper_cases :
    (r : Request)
    → (is_oper r ≡ false) ⊎ ((name : Text) × (password : Text) × (r ≡ Request.oper name password))
oper_cases (Request.oper name password) = inr (name, password, refl)
oper_cases _ = inl refl

run_request-operators :
    (env : Env) (id : ℕ) (r : Request) (w : World) (c : Client) (q : World × Bool)
    → IsServed w.state
    → client_of id w.state ≡ some c
    → can_issue_request r c ≡ true
    → run_request env id r w ≡ some q
    → OnlyOld w.state q.0.state ⊎ IsKnownOper w.state r
unfolding run_request
run_request-operators env id r w c q served at may h = elim (oper_cases r) [
  | inl calm ↦ inl (run_request-OnlyOld env id r w c q served at may calm h)
  | inr (name, password, e) ↦
      let done : cmd_oper id name password w ≡ some q =
        ap (λ x. run_request env id x w) (sym e) ∙ h in
      elim (cmd_oper-state id name password w c q at done) [
        | inl same ↦ inl (same_state w.state q.0.state same)
        | inr (known, there) ↦ inr (name, password, e, known)
      ]
]

-- Every operator was one before, or the message is a known OPER.
abbrev pub IsAllowed : Message → State → State → Type 0
IsAllowed m s t = OnlyOld s t ⊎ ((r : Request) × (Request.new m ≡ Errors.ok r) × IsKnownOper s r)

run_request-IsAllowed :
    (env : Env) (id : ℕ) (m : Message) (r : Request) (w : World) (c : Client) (q : World × Bool)
    (s : State)
    → IsServed s
    → client_of id s ≡ some c
    → w.state ≡ s
    → Request.new m ≡ Errors.ok r
    → can_issue_request r c ≡ true
    → run_request env id r w ≡ some q
    → IsAllowed m s q.0.state
run_request-IsAllowed env id m r w c q s served at same new may h =
    elim (run_request-operators env id r w c q (subst IsServed (sym same) served)
      (ap (client_of id) same ∙ at) may h) [
        | inl only ↦ inl (subst (λ x. OnlyOld x q.0.state) same only)
        | inr known ↦ inr (r, new, subst (λ x. IsKnownOper x r) same known)
      ]

-- After a message of anyone to a state where nicknames lead to their clients and members are registered,
-- every operator was one before, or the message is an OPER with a name and a password that the
-- configuration has.
pub handle_message-operators :
    (env : Env) (id : ℕ) (m : Message) (s : State) (sent : List (ℕ × Item)) (out : Outcome)
    → IsServed s
    → handle_message env id m s sent ≡ some out
    → IsAllowed m s out.state
unfolding handle_message
handle_message-operators env id m s sent out served h = elim (Option-cases (client_of id s)) [
  | inl at ↦ inl (same_state s out.state (ground (arith, at)))
  | inr (c, at) ↦
      handle_message_brings (λ t. IsAllowed m s t) id m c s (inl (same_state s s refl))
        (λ e r w q same new may f. run_request-IsAllowed e id m r w c q s served at same new may f)
        (λ e r w v q p f. elim p [
          | inl only ↦ inl (OnlyOld-trans s w.state v.state only (advance-OnlyOld e id r w v f))
          | inr known ↦ inr known
        ])
        env sent out at h
]
