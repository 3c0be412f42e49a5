-- ===== src/State/Served/Requests.antt =====
-- `handle_message` of src/state/mod.rs keeps the invariant of the state, whatever the request.
use ellidri.Prelude.{
  Option-cases, Bool-cases, ◌⊎◌, inl, inr, keys, ℕ, ◌≡◌, refl, sym, ◌∙◌, Bool, true, false, Option,
  none, some, arith,
}
use mathlib.Core.Path.{subst}
use ellidri.Request.{Request}
use ellidri.Buffers.{ReplyBuffer}
use ellidri.Names.{channel_list, nickname_list, join_list}
use ellidri.Client.{Client, can_issue_request}
use ellidri.State.{World, client_of}
use ellidri.State.Info.{Env, cmd_rehash}
use ellidri.State.Dispatch.{reading, telling, run_request}
use ellidri.State.Served.{IsServed}
use ellidri.State.Served.Clients.{
  IsEdited-IsServed, cmd_oper-IsServed, cmd_pass-IsEdited, cmd_cap_list-IsEdited,
  cmd_cap_ls-IsEdited, cmd_cap_req-IsEdited, cmd_setname-IsEdited,
}
use ellidri.State.Served.Profile.{cmd_away-IsEdited, cmd_mode_user_set-IsEdited, cmd_user-IsServed}
use ellidri.State.Served.Rooms.{IsRoomChange-IsServed, cmd_topic_set-IsRoomChange}
use ellidri.State.Served.Guests.{cmd_kick-IsRoomChange, cmd_invite-IsRoomChange}
use ellidri.State.Served.Modes.{cmd_mode_channel_set-IsRoomChange}
use ellidri.State.Served.Join.{cmd_join-IsServed}
use ellidri.State.Served.Leaving.{cmd_part_all-IsServed, cmd_kill-IsServed}
use ellidri.State.Served.Talking.{
  some-same, cmd_message_channel-IsEdited, cmd_message_user-IsEdited, cmd_nick-IsServed,
  cmd_quit-IsServed, cmd_part-IsServed, join-registered,
}

-- The requests that only ask, and those whose handlers do nothing or panic.
abbrev pub is_reader : Request → Bool
is_reader Request.admin = true
is_reader Request.info = true
is_reader Request.lusers = true
is_reader Request.motd = true
is_reader Request.time = true
is_reader Request.version = true
is_reader (Request.who_channel _) = true
is_reader (Request.who_mask _) = true
is_reader (Request.who_user _) = true
is_reader (Request.who_all _) = true
is_reader (Request.whois _) = true
is_reader (Request.list _) = true
is_reader Request.list_all = true
is_reader (Request.names _) = true
is_reader Request.names_all = true
is_reader (Request.topic_get _) = true
is_reader (Request.authenticate _) = true
is_reader Request.cap_end = true
is_reader (Request.ping _) = true
is_reader (Request.pong _) = true
is_reader (Request.mode_user_get _) = true
is_reader (Request.message_all _) = true
is_reader (Request.mode_channel_get _) = true
is_reader _ = false

-- The state and what was sent are as they were.
abbrev pub IsUntouched : World → World → Type 0
IsUntouched w v = (v.state ≡ w.state) × (v.sent ≡ w.sent)

reading_same :
    (w : World) (o : Option (ReplyBuffer × Bool)) (r : World × Bool)
    → reading w o ≡ some r
    → IsUntouched w r.0
reading_same w none r h = ground arith
reading_same w (some (rb, ok)) r h = ground arith

telling_same :
    (w : World) (rb : ReplyBuffer) (r : World × Bool) → telling w rb ≡ some r → IsUntouched w r.0
telling_same w rb r h = ground arith

-- A request that only asks changes nothing of the state, and nothing is sent to anyone else.
pub run_reader :
    (env : Env) (id : ℕ) (req : Request) (w : World) (r : World × Bool)
    → is_reader req ≡ true
    → run_request env id req w ≡ some r
    → IsUntouched w r.0
unfolding run_request
run_reader env id Request.admin w r c h = telling_same w _ r h
run_reader env id Request.info w r c h = telling_same w _ r h
run_reader env id Request.lusers w r c h = telling_same w _ r h
run_reader env id Request.motd w r c h = telling_same w _ r h
run_reader env id Request.time w r c h = telling_same w _ r h
run_reader env id Request.version w r c h = telling_same w _ r h
run_reader env id (Request.who_channel a) w r c h = reading_same w _ r h
run_reader env id (Request.who_mask a) w r c h = reading_same w _ r h
run_reader env id (Request.who_user a) w r c h = reading_same w _ r h
run_reader env id (Request.who_all filter) w r c h = reading_same w _ r h
run_reader env id (Request.whois nick) w r c h = reading_same w _ r h
run_reader env id (Request.list targets) w r c h = reading_same w _ r h
run_reader env id Request.list_all w r c h = reading_same w _ r h
run_reader env id (Request.names targets) w r c h = reading_same w _ r h
run_reader env id Request.names_all w r c h = telling_same w _ r h
run_reader env id (Request.topic_get name) w r c h = reading_same w _ r h
run_reader env id (Request.authenticate payload) w r c h = ground arith
run_reader env id Request.cap_end w r c h = ground arith
run_reader env id (Request.ping payload) w r c h = telling_same w _ r h
run_reader env id (Request.pong payload) w r c h = ground arith
run_reader env id (Request.mode_user_get nick) w r c h = reading_same w _ r h
run_reader env id (Request.message_all a) w r c h = ground arith
run_reader env id (Request.mode_channel_get name) w r c h = reading_same w _ r h
run_reader env id _ w r c h = ground (arith, c)

-- REHASH changes nothing but that a reload is asked for.
pub cmd_rehash-state :
    (id : ℕ) (w : World) (r : World × Bool)
    → cmd_rehash id w ≡ some r
    → (r.0.state ≡ w.state) ⊎ (r.0.state ≡ record w.state { reload_asked = true })
unfolding cmd_rehash
cmd_rehash-state id w r h = elim (Option-cases (client_of id w.state)) [
  | inl e ↦ ground (arith, e)
  | inr (c, e) ↦ elim (Bool-cases c.operator) [
    | inl o ↦ inr (ground (arith, e, o))
    | inr o ↦ inl (ground (arith, e, o))
  ]
]

cmd_rehash-IsServed :
    (id : ℕ) (w : World) (r : World × Bool)
    → IsServed w.state
    → cmd_rehash id w ≡ some r
    → IsServed r.0.state
cmd_rehash-IsServed id w r served h = elim (cmd_rehash-state id w r h) [
  | inl e ↦ subst IsServed (sym e) served
  | inr e ↦ subst IsServed (sym e) (record { owned = served.owned; joined = served.joined })
]

-- A request that a connected client may issue keeps the invariant of the state.
pub run_request-IsServed :
    (env : Env) (id : ℕ) (req : Request) (w : World) (c : Client) (r : World × Bool)
    → IsServed w.state
    → client_of id w.state ≡ some c
    → can_issue_request req c ≡ true
    → run_request env id req w ≡ some r
    → IsServed r.0.state
unfolding run_request
run_request-IsServed env id (Request.kill who reason) w c r served at may h =
    cmd_kill-IsServed id who reason w r served h
run_request-IsServed env id Request.rehash w c r served at may h =
    cmd_rehash-IsServed id w r served h
run_request-IsServed env id (Request.oper name password) w c r served at may h =
    cmd_oper-IsServed id name password w c r at h served
run_request-IsServed env id (Request.topic_set name topic) w c r served at may h =
    IsRoomChange-IsServed name w.state r.0.state
      (cmd_topic_set-IsRoomChange env.now id name topic w c r at h) served
run_request-IsServed env id (Request.cap_ls version) w c r served at may h =
    IsEdited-IsServed id c w.state r.0.state at (cmd_cap_ls-IsEdited id version w c r at h) served
run_request-IsServed env id Request.cap_list w c r served at may h =
    IsEdited-IsServed id c w.state r.0.state at (cmd_cap_list-IsEdited id w c r at h) served
run_request-IsServed env id (Request.cap_req diff) w c r served at may h =
    IsEdited-IsServed id c w.state r.0.state at (cmd_cap_req-IsEdited id diff w c r at h) served
run_request-IsServed env id (Request.pass password) w c r served at may h =
    IsEdited-IsServed id c w.state r.0.state at (cmd_pass-IsEdited id password w c r at h) served
run_request-IsServed env id (Request.quit reason) w c r served at may h =
    subst (λ q. IsServed q.0.state) (some-same h) (cmd_quit-IsServed id reason w served)
run_request-IsServed env id (Request.user username realname) w c r served at may h =
    cmd_user-IsServed id username realname w c r at h served
run_request-IsServed env id (Request.away reason) w c r served at may h =
    IsEdited-IsServed id c w.state r.0.state at (cmd_away-IsEdited id reason w c r at h) served
run_request-IsServed env id (Request.mode_user_set a) w c r served at may h =
    IsEdited-IsServed id c w.state r.0.state at
      (cmd_mode_user_set-IsEdited id a.target a.modes w c r at h) served
run_request-IsServed env id (Request.nick nick) w c r served at may h =
    cmd_nick-IsServed id nick w c r served at h
run_request-IsServed env id (Request.setname realname) w c r served at may h =
    IsEdited-IsServed id c w.state r.0.state at (cmd_setname-IsEdited id realname w c r at h) served
run_request-IsServed env id (Request.invite who to) w c r served at may h =
    IsRoomChange-IsServed to w.state r.0.state (cmd_invite-IsRoomChange id who to w r h) served
run_request-IsServed env id (Request.join names keys) w c r served at may h =
    cmd_join-IsServed env.now id (join_list names keys) w r served
      (c, at, join-registered names keys c may) h
run_request-IsServed env id (Request.kick a) w c r served at may h =
    IsRoomChange-IsServed a.from w.state r.0.state
      (cmd_kick-IsRoomChange id a.from (nickname_list a.who) a.reason w r h) served
run_request-IsServed env id (Request.message_channel a) w c r served at may h =
    IsEdited-IsServed id c w.state r.0.state at (cmd_message_channel-IsEdited env id a w c r at h)
      served
run_request-IsServed env id (Request.message_user a) w c r served at may h =
    IsEdited-IsServed id c w.state r.0.state at (cmd_message_user-IsEdited env id a w c r at h)
      served
run_request-IsServed env id (Request.mode_channel_set a) w c r served at may h =
    IsRoomChange-IsServed a.target w.state r.0.state
      (cmd_mode_channel_set-IsRoomChange id a.target a.modes a.mode_params w c r at h) served
run_request-IsServed env id (Request.part names reason) w c r served at may h =
    cmd_part-IsServed id (channel_list names) reason w c r served at h
run_request-IsServed env id Request.part_all w c r served at may h =
    let (q, ends, same, moved, kept) = cmd_part_all-IsServed id w c served at in
    subst (λ q. IsServed q.0.state) (some-same (sym ends ∙ h)) kept
run_request-IsServed env id req w c r served at may h =
    subst IsServed (sym (run_reader env id req w r refl h).0) served
