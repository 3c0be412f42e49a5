-- ===== src/State/Served/Early.antt =====
-- What a connection can do before it is registered: `handle_message` of src/state/mod.rs.
use ellidri.Prelude.{
  ◌==◌, Option-cases, Text, get-put, get-delete, ==-IsSame, ℕ, ◌≡◌, refl, sym, ap, ◌∙◌, inl, inr,
  Bool, true, false, Option, some, List, arith,
}
use mathlib.Core.Path.{subst}
use ellidri.Request.{Request}
use ellidri.Message.{Message}
use ellidri.Client.{Client, Item, can_issue_request, apply_request}
use ellidri.Client
use ellidri.Client.Connection.{apply, is_registered}
use ellidri.State.{State, World, client_of, remove_client}
use ellidri.State.Info.{Env}
use ellidri.State.Session.{cmd_nick, cmd_nick_of, cmd_user, cmd_quit}
use ellidri.State.Owners.{cmd_nick_of-state, remove_client-state, without}
use ellidri.State.Dispatch.{run_request, Outcome, advance, handle_message}
use ellidri.State.Served.{replaced}
use ellidri.State.Served.Clients.{
  IsEdited, cmd_pass-IsEdited, cmd_cap_ls-IsEdited, cmd_cap_req-IsEdited,
}
use ellidri.State.Served.Profile.{cmd_user-state, introduce-IsEdited}
use ellidri.State.Served.Lift.{advance-state, handle_message_brings}
use ellidri.State.Served.Requests.{run_reader}
use ellidri.State.Served.Talking.{some-same}

-- The requests of a connection that is not registered.
abbrev is_early : Request → Bool
is_early (Request.cap_ls _) = true
is_early (Request.cap_req _) = true
is_early (Request.authenticate _) = true
is_early Request.cap_end = true
is_early (Request.pass _) = true
is_early (Request.ping _) = true
is_early (Request.nick _) = true
is_early (Request.user _ _) = true
is_early (Request.quit _) = true
is_early _ = false

early_only :
    (r : Request) (c : Client)
    → can_issue_request r c ≡ true
    → is_registered c.state ≡ false
    → is_early r ≡ true
unfolding can_issue_request apply is_registered
early_only r c may unreg = ground arith

-- The channels and the other clients are as they were.
pub record IsPrivate (id : ℕ) (s t : State) : Type 0 where
  pub same_channels : t.channels ≡ s.channels
  pub others : (j : ℕ) → (id == j) ≡ false → client_of j t ≡ client_of j s

same_state : (id : ℕ) (s t : State) → t ≡ s → IsPrivate id s t
same_state id s t e = record {
  same_channels = ap (λ x. x.channels) e;
  others = λ j apart. ap (λ x. client_of j x) e;
}

replaced-IsPrivate : (id : ℕ) (d : Client) (s : State) → IsPrivate id s (replaced id d s)
replaced-IsPrivate id d s = record {
  same_channels = refl;
  others = λ j apart. ground (arith, get-put ==-IsSame id j d s.clients);
}

IsPrivate-trans : (id : ℕ) (s t u : State) → IsPrivate id s t → IsPrivate id t u → IsPrivate id s u
IsPrivate-trans id s t u p q = record {
  same_channels = q.same_channels ∙ p.same_channels;
  others = λ j apart. q.others j apart ∙ p.others j apart;
}

edited : (id : ℕ) (c : Client) (s t : State) → IsEdited id c s t → IsPrivate id s t
edited id c s t (inl e) = same_state id s t e
edited id c s t (inr (d, e, like)) = subst (IsPrivate id s) (sym e) (replaced-IsPrivate id d s)

same_registration : (c d : Client) → some c ≡ some d → is_registered c.state ≡ is_registered d.state
same_registration c d h = ap (λ x. is_registered x.state) (some-same h)

removed :
    (id : ℕ) (m o : Text) (w : World) (c : Client)
    → client_of id w.state ≡ some c
    → is_registered c.state ≡ false
    → IsPrivate id w.state (remove_client id m o w).state
unfolding without
removed id m o w c at unreg = elim (remove_client-state id m o w) [
  | inl (e, same) ↦ same_state id w.state (remove_client id m o w).state same
  | inr (d, e, same) ↦
      let outside = same_registration d c (sym e ∙ at) ∙ unreg in
      record {
        same_channels = ground (arith, ap (λ s. s.channels) same, outside);
        others = λ j apart.
            ap (λ s. client_of j s) same
            ∙ ground (arith, get-delete ==-IsSame id j w.state.clients);
      }
]

nick_private :
    (id : ℕ) (nick : Text) (w : World) (c : Client) (r : World × Bool)
    → client_of id w.state ≡ some c
    → cmd_nick id nick w ≡ some r
    → IsPrivate id w.state r.0.state
unfolding cmd_nick
nick_private id nick w c r at h =
    let ends : cmd_nick_of id nick c w ≡ r = ground (arith, at) in
    subst (λ q. IsPrivate id w.state q.0.state) ends
      (elim (cmd_nick_of-state id nick c w)
        as (λ _. IsPrivate id w.state (cmd_nick_of id nick c w).0.state) [
          | inl e ↦ same_state id w.state (cmd_nick_of id nick c w).0.state e
          | inr e ↦ subst (IsPrivate id w.state) (sym e) (record {
            same_channels = refl;
            others = λ j apart.
                ground (arith, get-put ==-IsSame id j (Client.set_nick nick c) w.state.clients);
          })
        ])

user_private :
    (id : ℕ) (username realname : Text) (w : World) (c : Client) (r : World × Bool)
    → client_of id w.state ≡ some c
    → is_registered c.state ≡ false
    → cmd_user id username realname w ≡ some r
    → IsPrivate id w.state r.0.state
user_private id username realname w c r at unreg h =
    elim (cmd_user-state id username realname w c r at h) [
      | inl (rb, e) ↦
          subst (λ v. IsPrivate id w.state v.state) (sym e)
            (removed id _ _ (record w { rb = rb }) c at unreg)
      | inr e ↦ edited id c w.state r.0.state (introduce-IsEdited id username realname w c r e)
    ]

quit_private :
    (id : ℕ) (reason : Option Text) (w : World) (c : Client) (r : World × Bool)
    → client_of id w.state ≡ some c
    → is_registered c.state ≡ false
    → some (cmd_quit id reason w) ≡ some r
    → IsPrivate id w.state r.0.state
unfolding cmd_quit
quit_private id reason w c r at unreg h =
    subst (λ q. IsPrivate id w.state q.0.state) (some-same h) (removed id _ _ w c at unreg)

run_request-IsPrivate :
    (env : Env) (id : ℕ) (r : Request) (w : World) (c : Client) (q : World × Bool)
    → client_of id w.state ≡ some c
    → is_early r ≡ true
    → is_registered c.state ≡ false
    → run_request env id r w ≡ some q
    → IsPrivate id w.state q.0.state
unfolding run_request
run_request-IsPrivate env id (Request.cap_ls version) w c q at early unreg h =
    edited id c w.state q.0.state (cmd_cap_ls-IsEdited id version w c q at h)
run_request-IsPrivate env id (Request.cap_req diff) w c q at early unreg h =
    edited id c w.state q.0.state (cmd_cap_req-IsEdited id diff w c q at h)
run_request-IsPrivate env id (Request.pass password) w c q at early unreg h =
    edited id c w.state q.0.state (cmd_pass-IsEdited id password w c q at h)
run_request-IsPrivate env id (Request.nick nick) w c q at early unreg h =
    nick_private id nick w c q at h
run_request-IsPrivate env id (Request.user username realname) w c q at early unreg h =
    user_private id username realname w c q at unreg h
run_request-IsPrivate env id (Request.quit reason) w c q at early unreg h =
    quit_private id reason w c q at unreg h
run_request-IsPrivate env id (Request.authenticate p) w c q at early unreg h = ground arith
run_request-IsPrivate env id Request.cap_end w c q at early unreg h =
    same_state id w.state q.0.state (run_reader env id Request.cap_end w q refl h).0
run_request-IsPrivate env id (Request.ping p) w c q at early unreg h =
    same_state id w.state q.0.state (run_reader env id (Request.ping p) w q refl h).0
run_request-IsPrivate env id _ w c q at early unreg h = ground (arith, early)

advance-IsPrivate :
    (env : Env) (id : ℕ) (r : Request) (w v : World)
    → advance env id r w ≡ some v
    → IsPrivate id w.state v.state
unfolding advance
advance-IsPrivate env id r w v h = elim (Option-cases (client_of id w.state)) [
  | inl at ↦ ground (arith, at)
  | inr (c, at) ↦ elim (Option-cases (apply_request r c)) [
    | inl e ↦ ground (arith, at, e)
    | inr (d, e) ↦
        subst (IsPrivate id w.state) (sym (advance-state env id r w v c d at e h))
          (replaced-IsPrivate id d w.state)
  ]
]

-- A message of a connection that is not registered, whatever it says, changes no channel and no other
-- client.
pub handle_message-IsPrivate :
    (env : Env) (id : ℕ) (m : Message) (s : State) (sent : List (ℕ × Item)) (c : Client)
    (out : Outcome)
    → client_of id s ≡ some c
    → is_registered c.state ≡ false
    → handle_message env id m s sent ≡ some out
    → IsPrivate id s out.state
handle_message-IsPrivate env id m s sent c out at unreg h =
    handle_message_brings (IsPrivate id s) id m c s (same_state id s s refl)
      (λ e r w q same new may f.
        subst (λ x. IsPrivate id x q.0.state) same
          (run_request-IsPrivate e id r w c q (ap (client_of id) same ∙ at)
            (early_only r c may unreg) unreg f))
      (λ e r w v q p f. IsPrivate-trans id s w.state v.state p (advance-IsPrivate e id r w v f)) env
      sent out at h
