-- ===== src/State/Dispatch/Cost.antt =====
-- What `handle_message` of src/state/mod.rs charges a connection.
use ellidri.Prelude.{
  ltb, ◌==◌, Bool-cases, Option-cases, len, contains_key, ℕ, ◌-◌, ◌*◌, ◌^◌, ◌≤◌, min, ◌≡◌, ◌⊎◌, inl,
  inr, Bool, true, false, some, List, arith,
}
use ellidri.Request.{Request, points}
use ellidri.Request
use ellidri.State.{State, World, client_of, Item, Client}
use ellidri.Buffers.{new_reply}
use ellidri.State.Served.Lift.{result_cases}
use ellidri.State.Dispatch.{
  Outcome, finish, after_handler, handle_message, handle_from, serve_request, Env, Message, advance,
  can_issue_request, run_request, label_of,
}

points_bound : (r : Request) → (1 ≤ points r) × (points r ≤ 24)
unfolding points
points_bound r = ground arith

-- What is charged to a connection whose client is still there.
abbrev IsFair : ℕ → Type 0
IsFair n = (1 ≤ n) × (n ≤ 48)

finish-IsFair :
    (id : ℕ) (is_operator : Bool) (used : ℕ) (w : World) (out : Outcome)
    → IsFair used
    → finish id is_operator used w ≡ some out
    → IsFair out.cost × (is_operator ≡ true → out.cost ≡ 1)
unfolding finish
finish-IsFair id is_operator used w out fair h = ground arith

after_handler-IsFair :
    (env : Env) (id : ℕ) (is_operator : Bool) (r : Request) (q : World × Bool) (out : Outcome)
    → after_handler env id is_operator r q ≡ some out
    → contains_key ◌==◌ id q.0.state.clients ≡ true
    → IsFair out.cost × (is_operator ≡ true → out.cost ≡ 1)
unfolding after_handler
after_handler-IsFair env id is_operator r (w, ok) out h here =
    let few = points_bound r in
    elim (Bool-cases ok) [
      | inr failed ↦
          finish-IsFair id is_operator (min (points r * 2) (2 ^ 32 - 1)) w out (ground (arith, few))
            (ground (arith, here, failed))
      | inl fine ↦ elim (Option-cases (advance env id r w)) [
        | inl e ↦ ground (arith, here, fine, e)
        | inr (v, e) ↦
            finish-IsFair id is_operator (points r) v out (ground (arith, few))
              (ground (arith, here, fine, e))
      ]
    ]

-- The client was removed by its own request, and the connection is charged so much that it is closed.
abbrev pub closing : ℕ
closing = 999999

-- The client is gone and the cost closes the connection, or the cost is between 1 and 48, and at most 6
-- for an operator.
abbrev IsCharged : ℕ → Client → Outcome → Type 0
IsCharged id c out =
    ((out.cost ≡ closing) × (contains_key ◌==◌ id out.state.clients ≡ false))
    ⊎ (IsFair out.cost × (c.operator ≡ true → out.cost ≤ 6))

after_handler-IsCharged :
    (env : Env) (id : ℕ) (c : Client) (r : Request) (q : World × Bool) (out : Outcome)
    → after_handler env id c.operator r q ≡ some out
    → IsCharged id c out
unfolding after_handler
after_handler-IsCharged env id c r q out h =
    elim (Bool-cases (contains_key ◌==◌ id q.0.state.clients)) [
      | inr gone ↦ inl (ground (arith, gone), ground (arith, gone))
      | inl here ↦
          let (fair, cheap) = after_handler-IsFair env id c.operator r q out h here in
          inr (fair, λ op. ground (arith, cheap op))
    ]

serve_request-IsCharged :
    (env : Env) (id : ℕ) (c : Client) (r : Request) (w : World) (out : Outcome)
    → serve_request env id c r w ≡ some out
    → IsCharged id c out
unfolding serve_request
serve_request-IsCharged env id c r w out h = elim (Bool-cases (can_issue_request r c)) [
  | inr not_now ↦
      let two : 2 ≡ out.cost = ground (arith, not_now) in
      inr (ground (arith, two), λ op. ground (arith, two))
  | inl may ↦ elim (Option-cases (run_request env id r w)) [
    | inl e ↦ ground (arith, may, e)
    | inr (q, e) ↦ after_handler-IsCharged env id c r q out (ground (arith, may, e))
  ]
]

handle_from-IsCharged :
    (env : Env) (id : ℕ) (m : Message) (c : Client) (s : State) (sent : List (ℕ × Item))
    (out : Outcome)
    → handle_from env id m c s sent ≡ some out
    → IsCharged id c out
unfolding handle_from
handle_from-IsCharged env id m c s sent out h = elim (Bool-cases (ltb 4094 (len m.tags))) [
  | inl long ↦
      let three : 3 ≡ out.cost = ground (arith, long) in
      inr (ground (arith, three), λ op. ground (arith, three))
  | inr short ↦ elim (result_cases (Request.new m)) [
    | inl (r, e) ↦
        serve_request-IsCharged (record env { client_tags = m.tags }) id c r
          (record { state = s; rb = new_reply c.domain c.nick (label_of m); sent = sent }) out
          (ground (arith, short, e))
    | inr (inl (x, e)) ↦
        let six : 6 ≡ out.cost = ground (arith, short, e) in
        inr (ground (arith, six), λ op. ground (arith, six))
    | inr (inr e) ↦ ground (arith, short, e)
  ]
]

-- What a message of a connected client costs is between 1 and 48, and at most 6 where the client is an
-- operator, or it closes the connection, and then the client is gone from the state.
pub handle_message-IsCharged :
    (env : Env) (id : ℕ) (m : Message) (s : State) (sent : List (ℕ × Item)) (c : Client)
    (out : Outcome)
    → client_of id s ≡ some c
    → handle_message env id m s sent ≡ some out
    → IsCharged id c out
unfolding handle_message
handle_message-IsCharged env id m s sent c out at h =
    handle_from-IsCharged env id m c s sent out (ground (arith, at))
