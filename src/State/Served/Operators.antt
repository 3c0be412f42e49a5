-- ===== src/State/Served/Operators.antt =====
-- Who is an operator: no request but OPER makes one, over all handlers of src/state/v1.rs and
-- src/state/v3.rs.
use ellidri.Prelude.{
  ◌==◌, ==_iff, Bool-cases, Option-cases, Text, get-put, get-delete, ==-IsSame, get, keys, ℕ, ◌≡◌,
  refl, sym, ap, ◌∙◌, inl, inr, Bool, true, false, Option, some, List, arith,
}
use mathlib.Core.Path.{subst}
use ellidri.Request.{Request}
use ellidri.Names.{channel_list, nickname_list, join_list}
use ellidri.Client.{Client, can_issue_request}
use ellidri.Client
use ellidri.Client.Connection.{is_registered}
use ellidri.State.{State, World, client_of, remove_client}
use ellidri.State.Info.{Env}
use ellidri.State.Session.{cmd_nick, cmd_nick_of, cmd_user, cmd_quit}
use ellidri.State.Owners.{cmd_nick_of-state, remove_client-state, without}
use ellidri.State.Parting.{cmd_part-IsParted}
use ellidri.State.Rooms.{cmd_part}
use ellidri.State.Account.{cmd_kill}
use ellidri.State.Entry.{join_each, cmd_join, part_channels, cmd_part_all}
use ellidri.State.Dispatch.{run_request}
use ellidri.State.Served.{IsServed, replaced}
use ellidri.State.Served.Clients.{
  IsEdited, touch-IsEdited, cmd_pass-IsEdited, cmd_cap_list-IsEdited, cmd_cap_ls-IsEdited,
  cmd_cap_req-IsEdited, cmd_setname-IsEdited,
}
use ellidri.State.Served.Profile.{
  cmd_user-state, introduce-IsEdited, cmd_away-IsEdited, cmd_mode_user_set-IsEdited,
}
use ellidri.State.Served.Rooms.{IsRoomChange, cmd_topic_set-IsRoomChange}
use ellidri.State.Served.Guests.{cmd_kick-IsRoomChange, cmd_invite-IsRoomChange}
use ellidri.State.Served.Modes.{cmd_mode_channel_set-IsRoomChange}
use ellidri.State.Served.Join.{join_each-IsServed, cmd_join-cases}
use ellidri.State.Served.Leaving.{cmd_kill-cases}
use ellidri.State.Served.Requests.{run_reader, cmd_rehash-state}
use ellidri.State.Served.Talking.{
  some-same, cmd_message_channel-IsEdited, cmd_message_user-IsEdited, join-registered,
}

-- Every operator of the state `t` was a client of `s`, and an operator there.
pub record OnlyOld (s t : State) : Type 0 where
  pub old :
      (j : ℕ) (d : Client)
      → client_of j t ≡ some d
      → d.operator ≡ true
      → (c : Client) × (client_of j s ≡ some c) × (c.operator ≡ true)

same_clients : (s t : State) → t.clients ≡ s.clients → OnlyOld s t
same_clients s t e = record { old = λ j d at op. (d, ap (get ◌==◌ j) (sym e) ∙ at, op) }

pub same_state : (s t : State) → t ≡ s → OnlyOld s t
same_state s t e = same_clients s t (ap (λ x. x.clients) e)

pub replaced-OnlyOld :
    (s : State) (id : ℕ) (c d : Client)
    → client_of id s ≡ some c
    → (d.operator ≡ true → c.operator ≡ true)
    → OnlyOld s (replaced id d s)
replaced-OnlyOld s id c d at keeps = record {
  old = λ j e found op. elim (Bool-cases (id == j)) [
    | inl i ↦
        let one = ap (λ k. client_of k s) ((==_iff id j).0 i) in
        let made : d ≡ e = ground (arith, get-put ==-IsSame id j d s.clients, i, found) in
        (c, sym one ∙ at, keeps (ap (λ x. x.operator) made ∙ op))
    | inr i ↦ (e, ground (arith, get-put ==-IsSame id j d s.clients), op)
  ];
}

edited :
    (id : ℕ) (c : Client) (s t : State) → client_of id s ≡ some c → IsEdited id c s t → OnlyOld s t
edited id c s t at (inl e) = same_state s t e
edited id c s t at (inr (d, e, (named, same, op))) =
    subst (OnlyOld s) (sym e) (replaced-OnlyOld s id c d at op)

moved : (name : Text) (s t : State) → IsRoomChange name s t → OnlyOld s t
moved name s t (inl e) = same_state s t e
moved name s t (inr (c, d, at, e, fewer)) = same_clients s t (ap (λ x. x.clients) e)

pub removed : (id : ℕ) (m o : Text) (w : World) → OnlyOld w.state (remove_client id m o w).state
unfolding without
removed id m o w = elim (remove_client-state id m o w) [
  | inl (e, same) ↦ same_state w.state (remove_client id m o w).state same
  | inr (c, e, same) ↦ record {
    old = λ j d at op. (
      d,
      ground (
        arith,
        get-delete ==-IsSame id j w.state.clients,
        sym (ap (λ s. client_of j s) same) ∙ at,
      ),
      op,
    );
  }
]

kill_old :
    (id : ℕ) (who reason : Text) (w : World) (r : World × Bool)
    → cmd_kill id who reason w ≡ some r
    → OnlyOld w.state r.0.state
kill_old id who reason w r h = elim (cmd_kill-cases id who reason w r h) [
  | inl same ↦ same_state w.state r.0.state same
  | inr (k, gone) ↦ subst (λ v. OnlyOld w.state v.state) (sym gone) (removed k _ _ w)
]

quit_old :
    (id : ℕ) (reason : Option Text) (w : World) (r : World × Bool)
    → some (cmd_quit id reason w) ≡ some r
    → OnlyOld w.state r.0.state
unfolding cmd_quit
quit_old id reason w r h = subst (λ q. OnlyOld w.state q.0.state) (some-same h) (removed id _ _ w)

user_old :
    (id : ℕ) (username realname : Text) (w : World) (c : Client) (r : World × Bool)
    → client_of id w.state ≡ some c
    → cmd_user id username realname w ≡ some r
    → OnlyOld w.state r.0.state
user_old id username realname w c r at h = elim (cmd_user-state id username realname w c r at h) [
  | inl (rb, e) ↦
      subst (λ v. OnlyOld w.state v.state) (sym e) (removed id _ _ (record w { rb = rb }))
  | inr e ↦ edited id c w.state r.0.state at (introduce-IsEdited id username realname w c r e)
]

nick_old :
    (id : ℕ) (nick : Text) (w : World) (c : Client) (r : World × Bool)
    → client_of id w.state ≡ some c
    → cmd_nick id nick w ≡ some r
    → OnlyOld w.state r.0.state
unfolding cmd_nick Client.set_nick Client.update_full_name
nick_old id nick w c r at h =
    let ends : cmd_nick_of id nick c w ≡ r = ground (arith, at) in
    subst (λ q. OnlyOld w.state q.0.state) ends
      (elim (cmd_nick_of-state id nick c w)
        as (λ _. OnlyOld w.state (cmd_nick_of id nick c w).0.state) [
          | inl e ↦ same_state w.state (cmd_nick_of id nick c w).0.state e
          | inr e ↦ subst (OnlyOld w.state) (sym e) (record {
            old = (replaced-OnlyOld w.state id c (Client.set_nick nick c) at (λ o. o)).old;
          })
        ])

join_old :
    (now id : ℕ) (list : List (Text × Option Text)) (w : World) (c : Client) (r : World × Bool)
    → IsServed w.state
    → client_of id w.state ≡ some c
    → is_registered c.state ≡ true
    → cmd_join now id list w ≡ some r
    → OnlyOld w.state r.0.state
unfolding cmd_join
join_old now id list w c r served at reg h = elim (Option-cases (join_each id c list (w, false))) [
  | inl e ↦ ground (arith, at, e)
  | inr (q, e) ↦
      let (kept, same) = join_each-IsServed id c list (w, false) q served (c, at, reg) e in
      elim (cmd_join-cases now id list w c q r at e h) [
        | inl ends ↦ same_clients w.state r.0.state (ap (λ v. v.state.clients) ends ∙ same)
        | inr touched ↦
            let there = ap (get ◌==◌ id) same ∙ at in
            let touching =
              edited id c q.0.state r.0.state there
                (touch-IsEdited now id q.0 c r.0 there touched) in
            record {
              old = λ j d found op.
                  let (b, was, old) = touching.old j d found op in
                  (b, ap (get ◌==◌ j) (sym same) ∙ was, old);
            }
      ]
]

part_old :
    (id : ℕ) (from : List Text) (reason : Option Text) (w : World) (c : Client) (r : World × Bool)
    → IsServed w.state
    → client_of id w.state ≡ some c
    → cmd_part id from reason w ≡ some r
    → OnlyOld w.state r.0.state
part_old id from reason w c r served at h =
    let (q, ends, parted, gone, joined) = cmd_part-IsParted id from reason w c served.joined at in
    subst (λ p. OnlyOld w.state p.0.state) (some-same (sym ends ∙ h))
      (same_clients w.state q.0.state parted.same_clients)

part_all_clients :
    (id : ℕ) (w : World) (c : Client) (r : World × Bool)
    → client_of id w.state ≡ some c
    → cmd_part_all id w ≡ some r
    → r.0.state.clients ≡ w.state.clients
unfolding cmd_part_all
part_all_clients id w c r at h =
    elim (Option-cases (part_channels id c w.state.clients w.state.channels w.rb w.sent)) [
      | inl e ↦ ground (arith, at, e)
      | inr (q, e) ↦ ground (arith, at, e)
    ]

abbrev pub is_oper : Request → Bool
is_oper (Request.oper _ _) = true
is_oper _ = false

-- Whatever a connected client requests but OPER, every operator afterwards was one before.
pub run_request-OnlyOld :
    (env : Env) (id : ℕ) (req : Request) (w : World) (c : Client) (r : World × Bool)
    → IsServed w.state
    → client_of id w.state ≡ some c
    → can_issue_request req c ≡ true
    → is_oper req ≡ false
    → run_request env id req w ≡ some r
    → OnlyOld w.state r.0.state
unfolding run_request
run_request-OnlyOld env id (Request.kill who reason) w c r served at may calm h =
    kill_old id who reason w r h
run_request-OnlyOld env id (Request.oper name password) w c r served at may calm h =
    ground (arith, calm)
run_request-OnlyOld env id (Request.topic_set name topic) w c r served at may calm h =
    moved name w.state r.0.state (cmd_topic_set-IsRoomChange env.now id name topic w c r at h)
run_request-OnlyOld env id (Request.cap_ls version) w c r served at may calm h =
    edited id c w.state r.0.state at (cmd_cap_ls-IsEdited id version w c r at h)
run_request-OnlyOld env id Request.cap_list w c r served at may calm h =
    edited id c w.state r.0.state at (cmd_cap_list-IsEdited id w c r at h)
run_request-OnlyOld env id (Request.cap_req diff) w c r served at may calm h =
    edited id c w.state r.0.state at (cmd_cap_req-IsEdited id diff w c r at h)
run_request-OnlyOld env id (Request.pass password) w c r served at may calm h =
    edited id c w.state r.0.state at (cmd_pass-IsEdited id password w c r at h)
run_request-OnlyOld env id (Request.quit reason) w c r served at may calm h =
    quit_old id reason w r h
run_request-OnlyOld env id (Request.user username realname) w c r served at may calm h =
    user_old id username realname w c r at h
run_request-OnlyOld env id (Request.away reason) w c r served at may calm h =
    edited id c w.state r.0.state at (cmd_away-IsEdited id reason w c r at h)
run_request-OnlyOld env id (Request.mode_user_set a) w c r served at may calm h =
    edited id c w.state r.0.state at (cmd_mode_user_set-IsEdited id a.target a.modes w c r at h)
run_request-OnlyOld env id Request.rehash w c r served at may calm h =
    elim (cmd_rehash-state id w r h) [
      | inl e ↦ same_state w.state r.0.state e
      | inr e ↦ same_clients w.state r.0.state (ap (λ s. s.clients) e)
    ]
run_request-OnlyOld env id (Request.nick nick) w c r served at may calm h =
    nick_old id nick w c r at h
run_request-OnlyOld env id (Request.setname realname) w c r served at may calm h =
    edited id c w.state r.0.state at (cmd_setname-IsEdited id realname w c r at h)
run_request-OnlyOld env id (Request.invite who to) w c r served at may calm h =
    moved to w.state r.0.state (cmd_invite-IsRoomChange id who to w r h)
run_request-OnlyOld env id (Request.join names keys) w c r served at may calm h =
    join_old env.now id (join_list names keys) w c r served at (join-registered names keys c may) h
run_request-OnlyOld env id (Request.kick a) w c r served at may calm h =
    moved a.from w.state r.0.state
      (cmd_kick-IsRoomChange id a.from (nickname_list a.who) a.reason w r h)
run_request-OnlyOld env id (Request.message_channel a) w c r served at may calm h =
    edited id c w.state r.0.state at (cmd_message_channel-IsEdited env id a w c r at h)
run_request-OnlyOld env id (Request.message_user a) w c r served at may calm h =
    edited id c w.state r.0.state at (cmd_message_user-IsEdited env id a w c r at h)
run_request-OnlyOld env id (Request.mode_channel_set a) w c r served at may calm h =
    moved a.target w.state r.0.state
      (cmd_mode_channel_set-IsRoomChange id a.target a.modes a.mode_params w c r at h)
run_request-OnlyOld env id (Request.part names reason) w c r served at may calm h =
    part_old id (channel_list names) reason w c r served at h
run_request-OnlyOld env id Request.part_all w c r served at may calm h =
    same_clients w.state r.0.state (part_all_clients id w c r at h)
run_request-OnlyOld env id req w c r served at may calm h =
    same_state w.state r.0.state (run_reader env id req w r refl h).0
