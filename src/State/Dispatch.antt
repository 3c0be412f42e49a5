-- ===== src/State/Dispatch.antt =====
-- `handle_message` of src/state/mod.rs: from a message to the handler of its request, and what is
-- sent back. A result of `none` is a panic.
pub mod Cost
use ellidri.Prelude.{
  ltb, leb, ◌==◌, if◌then◌else◌, is_empty, find, Text, text, len, str_eq, contains_key, put, keys,
  ℕ, ◌-◌, ◌*◌, ◌^◌, min, Bool, true, false, not, ◌&&◌, Option, none, some, List, [],
}
use ellidri.Command
use ellidri.Command.{Command, as_str}
use ellidri.Errors
use ellidri.Errors.{Error}
use ellidri.Message.{Message, Tag, tags, param as message_param}
use ellidri.Names.{channel_list, nickname_list, join_list}
use ellidri.Request
use ellidri.Request.{Request, Talk, points}
use ellidri.Client.{Client, Item, apply_request, can_issue_request}
use ellidri.Client.Connection.{is_registered}
use ellidri.Buffers.{ReplyBuffer, new_reply, param, trailing_param, lr_end}
use ellidri.State.{State, World, client_of, send}
use ellidri.State.Info.{
  Env, line, line_about, cmd_admin, cmd_info, cmd_lusers, cmd_motd, cmd_ping, cmd_rehash, cmd_time,
  cmd_version, send_welcome,
}
use ellidri.State.Lists.{
  cmd_list, cmd_list_all, cmd_names, cmd_names_all, cmd_topic_get, cmd_mode_channel_get,
  cmd_mode_user_get,
}
use ellidri.State.Who.{cmd_who_all, cmd_who_channel, cmd_who_mask, cmd_who_user, cmd_whois}
use ellidri.State.Session.{cmd_nick, cmd_user, cmd_pass, cmd_quit}
use ellidri.State.Rooms.{cmd_part, cmd_topic_set}
use ellidri.State.Guests.{cmd_kick, cmd_invite}
use ellidri.State.Account.{
  cmd_away, cmd_kill, cmd_oper, cmd_mode_user_set, cmd_cap_list, cmd_cap_ls, cmd_cap_req,
  cmd_setname, reply_command,
}
use ellidri.State.Entry.{cmd_join, cmd_part_all}
use ellidri.State.Moding.{cmd_mode_channel_set}
use ellidri.State.Talk.{cmd_message_channel, cmd_message_user}

-- A handler that only reads the state, and what it wrote.
abbrev pub reading : World → Option (ReplyBuffer × Bool) → Option (World × Bool)
reading w none = none
reading w (some (rb, ok)) = some (record w { rb = rb }, ok)

abbrev pub telling : World → ReplyBuffer → Option (World × Bool)
telling w rb = some (record w { rb = rb }, true)

-- The `match` of `handle_message` on the request. AUTHENTICATE and a message to everyone are `todo!`.
unfoldable pub run_request : Env → ℕ → Request → World → Option (World × Bool)
run_request env id Request.admin w = telling w (cmd_admin w.state w.rb)
run_request env id Request.info w = telling w (cmd_info env w.rb)
run_request env id Request.lusers w = telling w (cmd_lusers id w.state w.rb)
run_request env id Request.motd w = telling w (cmd_motd w.state w.rb)
run_request env id Request.time w = telling w (cmd_time env w.state w.rb)
run_request env id Request.version w = telling w (cmd_version env w.state w.rb)
run_request env id (Request.who_channel a) w = reading w (cmd_who_channel id a w.state w.rb)
run_request env id (Request.who_mask a) w = reading w (cmd_who_mask id a w.state w.rb)
run_request env id (Request.who_user a) w = reading w (cmd_who_user id a w.state w.rb)
run_request env id (Request.who_all filter) w = reading w (cmd_who_all id filter w.state w.rb)
run_request env id (Request.whois nick) w = reading w (cmd_whois env nick w.state w.rb)
run_request env id (Request.kill who reason) w = cmd_kill id who reason w
run_request env id (Request.oper name password) w = cmd_oper id name password w
run_request env id Request.rehash w = cmd_rehash id w
run_request env id (Request.list targets) w =
    reading w (cmd_list id (channel_list targets) w.state w.rb)
run_request env id Request.list_all w = reading w (cmd_list_all id w.state w.rb)
run_request env id (Request.names targets) w =
    reading w (cmd_names id (channel_list targets) w.state w.rb)
run_request env id Request.names_all w = telling w (cmd_names_all w.rb)
run_request env id (Request.topic_get name) w = reading w (cmd_topic_get id name w.state w.rb)
run_request env id (Request.topic_set name topic) w = cmd_topic_set env.now id name topic w
run_request env id (Request.authenticate payload) w = none
run_request env id (Request.cap_ls version) w = cmd_cap_ls id version w
run_request env id Request.cap_list w = cmd_cap_list id w
run_request env id (Request.cap_req diff) w = cmd_cap_req id diff w
run_request env id Request.cap_end w = some (w, true)
run_request env id (Request.pass password) w = cmd_pass id password w
run_request env id (Request.ping payload) w = telling w (cmd_ping payload w.rb)
run_request env id (Request.pong payload) w = some (w, true)
run_request env id (Request.quit reason) w = some (cmd_quit id reason w)
run_request env id (Request.user username realname) w = cmd_user id username realname w
run_request env id (Request.away reason) w = cmd_away id reason w
run_request env id (Request.mode_user_get nick) w =
    reading w (cmd_mode_user_get id nick w.state w.rb)
run_request env id (Request.mode_user_set a) w = cmd_mode_user_set id a.target a.modes w
run_request env id (Request.nick nick) w = cmd_nick id nick w
run_request env id (Request.setname realname) w = cmd_setname id realname w
run_request env id (Request.invite who to) w = cmd_invite id who to w
run_request env id (Request.join names keys) w = cmd_join env.now id (join_list names keys) w
run_request env id (Request.kick a) w = cmd_kick id a.from (nickname_list a.who) a.reason w
run_request env id (Request.message_all a) w = none
run_request env id (Request.message_channel a) w = cmd_message_channel env id a w
run_request env id (Request.message_user a) w = cmd_message_user env id a w
run_request env id (Request.mode_channel_get name) w =
    reading w (cmd_mode_channel_get id name w.state w.rb)
run_request env id (Request.mode_channel_set a) w =
    cmd_mode_channel_set id a.target a.modes a.mode_params w
run_request env id (Request.part names reason) w = cmd_part id (channel_list names) reason w
run_request env id Request.part_all w = cmd_part_all id w

-- The label of a message: the value of its first tag of that name, if it is not too long.
unfoldable pub label_of : Message → Text
label_of m = elim (find (λ (t : Tag). str_eq t.key (text "label")) (tags m.tags)) [
  | none ↦ []
  | some t ↦ elim t.value [ none ↦ [] | some value ↦ if leb (len value) 64 then value else [] ]
]

-- The replies to a request that lacks a parameter.
need_more_params_reply : Command → ℕ → ReplyBuffer → ReplyBuffer
need_more_params_reply command n rb =
    let told = text "You are not telling me everything, are you?" in
    let short = line_about (text "461") (as_str command) told rb in
    let no_recipient = line (text "411") told rb in
    let no_text = line (text "412") told rb in
    elim command [
      | Command.nick ↦ line (text "431") told rb
      | Command.whois ↦ line (text "431") told rb
      | Command.privmsg ↦ if n == 0 then no_recipient else if n == 1 then no_text else short
      | Command.notice ↦ if n == 0 then no_recipient else if n == 1 then no_text else short
      | Command.tagmsg ↦ if n == 0 then no_recipient else short
      | _ ↦ short
    ]

-- The replies to the errors of `Request::new`.
unfoldable pub error_reply : Client → Message → Error → ReplyBuffer → ReplyBuffer
unfolding need_more_params_reply
error_reply c m (Error.erroneous_nickname name) rb =
    line_about (text "432") name (text "Meh, this is obviously a bad nickname...") rb
error_reply c m Error.invalid_cap rb =
    reply_command Command.cap (λ b. trailing_param (message_param m 2) (param (text "NAK") b)) rb
error_reply c m (Error.invalid_cap_cmd cmd) rb =
    line_about (text "410") cmd (text "Hnn... What did you just say?") rb
error_reply c m (Error.no_such_channel name) rb =
    line_about (text "403") name (text "I can't find this channel...") rb
error_reply c m (Error.no_such_nick name) rb =
    line_about (text "401") name (text "I can't find this senpai...") rb
error_reply c m (Error.need_more_params command n) rb = need_more_params_reply command n rb
error_reply c m (Error.unknown_command word) rb =
    if is_registered c.state
    then line_about (text "421") word (text "Hnn... What did you just say?") rb
    else line (text "451") (text "You must register first!") rb

-- What a connection is charged, the state, and what was sent.
pub record Outcome : Type 0 where
  pub cost : ℕ
  pub state : State
  pub sent : List (ℕ × Item)

unfoldable pub send_reply : ℕ → Client → ReplyBuffer → List (ℕ × Item) → List (ℕ × Item)
send_reply id c rb sent = send id c (record { start = 0; buf = rb.buf }) sent

-- The end of `handle_message`: the reply is closed and sent.
unfoldable pub finish : ℕ → Bool → ℕ → World → Option Outcome
finish id is_operator used w = elim (lr_end w.rb) [
  | none ↦ none
  | some rb ↦
      let cost = if is_operator then 1 else used in
      if is_empty rb.buf
      then some (record { cost = cost; state = w.state; sent = w.sent })
      else elim (client_of id w.state) [
        | none ↦ none
        | some c ↦ some (record { cost = cost; state = w.state; sent = send_reply id c rb w.sent })
      ]
]

-- `apply_request` on the client in the state, after a handler that returned `Ok`.
unfoldable pub advance : Env → ℕ → Request → World → Option World
advance env id r w = elim (client_of id w.state) [
  | none ↦ none
  | some c ↦ elim (apply_request r c) [
    | none ↦ none
    | some d ↦
        let s = record w.state { clients = put ◌==◌ id d w.state.clients } in
        if is_registered d.state && not (is_registered c.state)
        then elim (send_welcome env id s w.rb) [
          | none ↦ none
          | some rb ↦ some (record w { state = s; rb = rb })
        ]
        else some (record w { state = s })
  ]
]

-- From the handler's result on.
unfoldable pub after_handler : Env → ℕ → Bool → Request → World × Bool → Option Outcome
after_handler env id is_operator r (w, ok) =
    if not (contains_key ◌==◌ id w.state.clients)
    then some (record { cost = 999999; state = w.state; sent = w.sent })
    else elim ok [
      | true ↦ elim (advance env id r w) [
        | none ↦ none
        | some v ↦ finish id is_operator (points r) v
      ]
      | false ↦ finish id is_operator (min (points r * 2) (2 ^ 32 - 1)) w
    ]

-- A request that the client may issue, or not.
unfoldable pub serve_request : Env → ℕ → Client → Request → World → Option Outcome
serve_request env id c r w =
    if can_issue_request r c
    then elim (run_request env id r w) [
      | none ↦ none
      | some out ↦ after_handler env id c.operator r out
    ]
    else (let rb =
          if is_registered c.state
          then line (text "462") (text "You can't re-register, dummy!") w.rb
          else line (text "451") (text "You must register first!") w.rb in
        some (record { cost = 2; state = w.state; sent = send_reply id c rb w.sent }))

-- `handle_message` for a client of the state.
unfoldable pub handle_from : Env → ℕ → Message → Client → State → List (ℕ × Item) → Option Outcome
handle_from env id m c s sent =
    let rb = new_reply c.domain c.nick (label_of m) in
    if ltb 4094 (len m.tags)
    then some (record { cost = 3; state = s; sent = sent })
    else elim (Request.new m) [
      | Errors.ok r ↦
          let said = record env { client_tags = m.tags } in
          serve_request said id c r (record { state = s; rb = rb; sent = sent })
      | Errors.err e ↦
          some (record { cost = 6; state = s; sent = send_reply id c (error_reply c m e rb) sent })
      | Errors.unreachable ↦ none
    ]

unfoldable pub handle_message : Env → ℕ → Message → State → List (ℕ × Item) → Option Outcome
handle_message env id m s sent = elim (client_of id s) [
  | none ↦ some (record { cost = 999999; state = s; sent = sent })
  | some c ↦ handle_from env id m c s sent
]
