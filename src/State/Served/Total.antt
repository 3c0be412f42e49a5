-- ===== src/State/Served/Total.antt =====
-- Which requests are served without a panic where the state has its invariant: src/state/mod.rs.
use ellidri.Prelude.{Text, ℕ, ◌≡◌, refl, ap, Bool, true, Option, none, some, [], arith}
use ellidri.Mask.Match.Search.{IsAscii}
use ellidri.Request.{Request}
use ellidri.Names.{channel_list, join_list, nickname_list}
use ellidri.Client.{Client}
use ellidri.Client.Connection.{is_registered}
use ellidri.State.Served.Entering.{cmd_join-returns}
use ellidri.Buffers.{ReplyBuffer, is_some}
use ellidri.State.{World, client_of}
use ellidri.State.Info.{Env}
use ellidri.State.Session.{cmd_nick, cmd_pass}
use ellidri.State.Account.{
  cmd_oper, cmd_mode_user_set, cmd_cap_list, cmd_cap_ls, cmd_cap_req, cmd_setname,
}
use ellidri.State.Parting.{cmd_part-IsParted}
use ellidri.State.Info.{cmd_rehash}
use ellidri.State.Dispatch.{reading, run_request}
use ellidri.State.Served.{IsServed}
use ellidri.State.Served.Answers.{
  cmd_names-returns, cmd_list-returns, cmd_topic_get-returns, cmd_mode_get-returns,
  cmd_who_channel-returns, cmd_who_user-returns, cmd_whois-returns,
}
use ellidri.State.Served.Completes.{
  cmd_kill-returns, cmd_message_channel-returns, cmd_message_user-returns, cmd_invite-returns,
  cmd_away-returns, cmd_user-returns, cmd_topic_set-returns,
}
use ellidri.Mode.{channel_query}
use ellidri.State.Served.Moding.{HaveAsciiKeys, cmd_mode_channel_set-returns}
use ellidri.State.Served.Kicks.{cmd_kick-returns}
use ellidri.State.Served.Leaving.{cmd_part_all-IsServed}

-- The text of an optional parameter is ASCII.
abbrev pub IsAsciiIn : Option Text → Type 0
IsAsciiIn o = (t : Text) → o ≡ some t → IsAscii t

-- The requests but AUTHENTICATE and a message to everyone, which are `todo!`, and WHO of everyone or
-- with a mask; the texts that they cut or match with a mask are ASCII, and who joins is registered.
abbrev pub IsPlain : Client → Request → Type 0
IsPlain c (Request.authenticate _) = ⊥
IsPlain c (Request.message_all _) = ⊥
IsPlain c (Request.who_mask _) = ⊥
IsPlain c (Request.who_all _) = ⊥
IsPlain c (Request.join _ _) = (is_registered c.state ≡ true) × IsAscii c.nick × IsAscii c.full_name
IsPlain c (Request.mode_channel_set a) = HaveAsciiKeys (channel_query a.modes a.mode_params)
IsPlain c (Request.topic_set name topic) = IsAscii topic
IsPlain c (Request.away reason) = IsAsciiIn reason
IsPlain c (Request.kick a) = IsAsciiIn a.reason
IsPlain c (Request.user username realname) = IsAscii username × IsAscii realname
IsPlain c _ = Unit

reading_returns :
    (w : World) (o : Option (ReplyBuffer × Bool)) → is_some o ≡ true → is_some (reading w o) ≡ true
reading_returns w none h = h
reading_returns w (some (rb, ok)) h = refl

-- Where nicknames lead to their clients and the members of channels are registered clients, a request of
-- a connected client is served without a panic: any but AUTHENTICATE, a message to everyone, and WHO
-- of everyone or with a mask, if the texts that are cut or matched with a mask are ASCII, and who joins
-- is registered.
pub run_request_total :
    (env : Env) (id : ℕ) (r : Request) (w : World) (c : Client)
    → IsServed w.state
    → client_of id w.state ≡ some c
    → IsPlain c r
    → is_some (run_request env id r w) ≡ true
unfolding run_request cmd_oper cmd_pass cmd_cap_list cmd_cap_ls cmd_cap_req cmd_setname
    cmd_mode_user_set cmd_nick cmd_rehash
run_request_total env id (Request.who_channel a) w c served at plain =
    reading_returns w _ (cmd_who_channel-returns id a w.state w.rb c served at)
run_request_total env id (Request.who_user a) w c served at plain =
    reading_returns w _ (cmd_who_user-returns id a w.state w.rb c served at)
run_request_total env id (Request.whois nick) w c served at plain =
    reading_returns w _ (cmd_whois-returns env nick w.state w.rb served)
run_request_total env id Request.rehash w c served at plain = ground (arith, at)
run_request_total env id (Request.list targets) w c served at plain =
    reading_returns w _ (cmd_list-returns id (channel_list targets) w.state w.rb c at).0
run_request_total env id Request.list_all w c served at plain =
    reading_returns w _ (cmd_list-returns id [] w.state w.rb c at).1
run_request_total env id (Request.names targets) w c served at plain =
    reading_returns w _ (cmd_names-returns id (channel_list targets) w.state w.rb c served at)
run_request_total env id (Request.topic_get name) w c served at plain =
    reading_returns w _ (cmd_topic_get-returns id name w.state w.rb)
run_request_total env id (Request.mode_user_get nick) w c served at plain =
    reading_returns w _ (cmd_mode_get-returns id nick w.state w.rb c at).1
run_request_total env id (Request.mode_channel_get name) w c served at plain =
    reading_returns w _ (cmd_mode_get-returns id name w.state w.rb c at).0
run_request_total env id (Request.topic_set name topic) w c served at plain =
    cmd_topic_set-returns env.now id name topic w c served at plain
run_request_total env id (Request.kill who reason) w c served at plain =
    cmd_kill-returns id who reason w c served at
run_request_total env id (Request.user username realname) w c served at (a, b) =
    cmd_user-returns id username realname w c at a b
run_request_total env id (Request.away reason) w c served at plain =
    cmd_away-returns id reason w c at plain
run_request_total env id (Request.invite who to) w c served at plain =
    cmd_invite-returns id who to w c served at
run_request_total env id (Request.kick a) w c served at plain =
    cmd_kick-returns id a.from (nickname_list a.who) a.reason w c served at plain
run_request_total env id (Request.message_channel a) w c served at plain =
    cmd_message_channel-returns env id a w c at
run_request_total env id (Request.message_user a) w c served at plain =
    cmd_message_user-returns env id a w c served at
run_request_total env id (Request.part names reason) w c served at plain =
    ap is_some (cmd_part-IsParted id (channel_list names) reason w c served.joined at).1
run_request_total env id Request.part_all w c served at plain =
    ap is_some (cmd_part_all-IsServed id w c served at).1
run_request_total env id (Request.join names ks) w c served at (reg, a, b) =
    cmd_join-returns env.now id (join_list names ks) w c served at reg a b
run_request_total env id (Request.mode_channel_set a) w c served at plain =
    cmd_mode_channel_set-returns id a.target a.modes a.mode_params w c served at plain
run_request_total env id _ w c served at plain = ground (arith, at)
