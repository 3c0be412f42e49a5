-- ===== src/State/Served/Lift.antt =====
-- What holds of the state after `handle_message` of src/state/mod.rs: it is enough that the handlers
-- and the step of the connection bring it about.
use ellidri.Prelude.{
  ltb, ◌==◌, Bool-cases, Option-cases, Text, len, contains_key, contains_key-delete,
  contains_key-get, ℕ, ◌-◌, ◌*◌, ◌^◌, min, ◌≡◌, refl, sym, ap, ◌∙◌, ◌⊎◌, inl, inr, Bool, true,
  false, some, List, arith,
}
use mathlib.Core.Path.{subst}
use ellidri.Errors
use ellidri.Message.{Message}
use ellidri.Request.{Request, points}
use ellidri.Request
use ellidri.Buffers.{new_reply}
use ellidri.Client.{Client, Item, can_issue_request, apply_request}
use ellidri.Client.Connection.Registration.{is_quit}
use ellidri.State.{State, World, client_of, remove_client}
use ellidri.State.Info.{Env, send_welcome}
use ellidri.State.Session.{cmd_quit}
use ellidri.State.Owners.{remove_client-state, without}
use ellidri.State.Served.{replaced}
use ellidri.State.Served.Talking.{some-same}
use ellidri.State.Dispatch.{
  run_request, Outcome, finish, advance, after_handler, serve_request, handle_from, handle_message,
  label_of,
}

pub result_cases :
    {A : Type 0} (x : Errors.Result A)
    → ((a : A) × (x ≡ Errors.ok a))
      ⊎ (((e : Errors.Error) × (x ≡ Errors.err e)) ⊎ (x ≡ Errors.unreachable))
result_cases (Errors.ok a) = inl (a, refl)
result_cases (Errors.err e) = inr (inl (e, refl))
result_cases Errors.unreachable = inr (inr refl)

not_quit : (r : Request) → (is_quit r ≡ true → true ≡ false) → is_quit r ≡ false
not_quit r h = elim (Bool-cases (is_quit r)) [ inl e ↦ ground (arith, h e) | inr e ↦ e ]

pub advance-state :
    (env : Env) (id : ℕ) (r : Request) (w v : World) (c d : Client)
    → client_of id w.state ≡ some c
    → apply_request r c ≡ some d
    → advance env id r w ≡ some v
    → v.state ≡ replaced id d w.state
unfolding advance
advance-state env id r w v c d at e h =
    elim (Option-cases (send_welcome env id (replaced id d w.state) w.rb)) [
      | inl f ↦ ground (arith, at, e, f)
      | inr (rb, f) ↦ ground (arith, at, e, f)
    ]

pub finish-state :
    (id : ℕ) (is_operator : Bool) (used : ℕ) (w : World) (out : Outcome)
    → finish id is_operator used w ≡ some out
    → out.state ≡ w.state
unfolding finish
finish-state id is_operator used w out h = ground arith

removed_gone :
    (id : ℕ) (m o : Text) (w : World)
    → contains_key ◌==◌ id (remove_client id m o w).state.clients ≡ false
unfolding without
removed_gone id m o w = elim (remove_client-state id m o w) [
  | inl (e, same) ↦
      ap (λ s. contains_key ◌==◌ id s.clients) same ∙ contains_key-get ◌==◌ id w.state.clients e
  | inr (c, e, same) ↦
      ap (λ s. contains_key ◌==◌ id s.clients) same ∙ contains_key-delete ◌==◌ id w.state.clients
]

-- Who quits is no client any more.
quit_gone :
    (env : Env) (id : ℕ) (r : Request) (w : World) (q : World × Bool)
    → is_quit r ≡ true
    → run_request env id r w ≡ some q
    → contains_key ◌==◌ id q.0.state.clients ≡ false
unfolding is_quit run_request cmd_quit
quit_gone env id (Request.quit reason) w q t h =
    subst (λ p. contains_key ◌==◌ id p.0.state.clients ≡ false) (some-same h)
      (removed_gone id _ _ w)
quit_gone env id _ w q t h = ground (arith, t)

-- A property `P` of the state that the handlers bring about, and the step of the connection keeps.
module _ (P : State → Type 0) (id : ℕ) (m : Message) (c : Client) (s : State) (kept : P s)
    (ran : (env : Env) (r : Request) (w : World) (q : World × Bool)
      → w.state ≡ s
      → Request.new m ≡ Errors.ok r
      → can_issue_request r c ≡ true
      → run_request env id r w ≡ some q
      → P q.0.state)
    (advanced : (env : Env) (r : Request) (w v : World)
      → is_quit r ≡ false
      → P w.state
      → advance env id r w ≡ some v
      → P v.state) where
  after_handler_brings :
      (env : Env) (is_operator : Bool) (r : Request) (q : World × Bool) (out : Outcome)
      → (is_quit r ≡ true → contains_key ◌==◌ id q.0.state.clients ≡ false)
      → P q.0.state
      → after_handler env id is_operator r q ≡ some out
      → P out.state
  unfolding after_handler
  after_handler_brings env is_operator r (w, ok) out gone p h =
      elim (Bool-cases (contains_key ◌==◌ id w.state.clients)) [
        | inr left ↦ let same : w.state ≡ out.state = ground (arith, left) in subst P same p
        | inl here ↦ elim (Bool-cases ok) [
          | inr failed ↦
              let used = min (points r * 2) (2 ^ 32 - 1) in
              let same = finish-state id is_operator used w out (ground (arith, here, failed)) in
              subst P (sym same) p
          | inl fine ↦ elim (Option-cases (advance env id r w)) [
            | inl e ↦ ground (arith, here, fine, e)
            | inr (v, e) ↦
                let same =
                  finish-state id is_operator (points r) v out (ground (arith, here, fine, e)) in
                let q = not_quit r (λ t. ground (arith, gone t, here)) in
                subst P (sym same) (advanced env r w v q p e)
          ]
        ]
      ]

  serve_request_brings :
      (env : Env) (r : Request) (w : World) (out : Outcome)
      → w.state ≡ s
      → Request.new m ≡ Errors.ok r
      → serve_request env id c r w ≡ some out
      → P out.state
  unfolding serve_request
  serve_request_brings env r w out same e h = elim (Bool-cases (can_issue_request r c)) [
    | inr refusal ↦
        let ends : w.state ≡ out.state = ground (arith, refusal) in subst P (sym same ∙ ends) kept
    | inl may ↦ elim (Option-cases (run_request env id r w)) [
      | inl f ↦ ground (arith, may, f)
      | inr (q, f) ↦
          after_handler_brings env c.operator r q out (λ t. quit_gone env id r w q t f)
            (ran env r w q same e may f) (ground (arith, may, f))
    ]
  ]

  handle_from_brings :
      (env : Env) (sent : List (ℕ × Item)) (out : Outcome)
      → handle_from env id m c s sent ≡ some out
      → P out.state
  unfolding handle_from
  handle_from_brings env sent out h = elim (Bool-cases (ltb 4094 (len m.tags))) [
    | inl long ↦ let same : s ≡ out.state = ground (arith, long) in subst P same kept
    | inr short ↦ elim (result_cases (Request.new m)) [
      | inl (r, e) ↦
          serve_request_brings (record env { client_tags = m.tags }) r
            (record { state = s; rb = new_reply c.domain c.nick (label_of m); sent = sent }) out
            refl e (ground (arith, short, e))
      | inr (inl (x, e)) ↦ let same : s ≡ out.state = ground (arith, short, e) in subst P same kept
      | inr (inr e) ↦ ground (arith, short, e)
    ]
  ]

  -- What `P` says holds of the state that the message leaves.
  pub handle_message_brings :
      (env : Env) (sent : List (ℕ × Item)) (out : Outcome)
      → client_of id s ≡ some c
      → handle_message env id m s sent ≡ some out
      → P out.state
  unfolding handle_message
  handle_message_brings env sent out at h = handle_from_brings env sent out (ground (arith, at))
