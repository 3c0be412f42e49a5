-- ===== src/Request.antt =====
-- Requests: src/data/req.rs, with the SASL payloads of src/data/auth.rs. A validated name is its
-- text; a list of names is kept as the raw text, as `List` keeps it.
pub mod Laws
use ellidri.Errors.{
  Result, ok, err, unreachable, ◌>>=◌, invalid_cap, invalid_cap_cmd, need_more_params,
  unknown_command, erroneous_nickname,
}
use ellidri.Command.{Command, reply}
use ellidri.Message.{Message, ParsedCommand, param, has_enough_params}
use ellidri.Cap
use ellidri.Cap.{Version, version_from}
use ellidri.Names.{mask_try_from, nickname_try_from, channel_name_try_from}
use ellidri.Prelude.{
  ◌==◌, if◌then◌else◌, is_empty, ltb, take, drop, any, Text, text, str_eq, ℕ, Bool, true, false,
  ◌||◌, Option, none, some, List, [], ◌∷◌,
}

-- `WhoFilter::from`: the flag `operator`.
unfoldable pub who_filter : Text → Bool
who_filter s = any (λ c. c == b'o') s

pub data Mechanism : Type 0 where
  plain external : Mechanism

pub data Payload : Type 0 where
  abort : Payload
  mechanism : Mechanism → Payload
  chunk : Text → Payload

-- `Payload::from`
unfoldable pub payload_from : Text → Payload
payload_from s =
    if str_eq s (text "*")
    then abort
    else if str_eq s (text "+")
    then chunk []
    else if str_eq s (text "PLAIN")
    then mechanism plain
    else if str_eq s (text "EXTERNAL")
    then mechanism external
    else chunk s

pub record Who : Type 0 where
  pub mask : Text
  pub operator : Bool

pub record Kick : Type 0 where
  pub who : Text
  pub from : Text
  pub reason : Option Text

-- `MessageAll`, `MessageChannel` and `MessageUser`; the first has no target.
pub record Talk : Type 0 where
  pub feedback : Bool
  pub command : Command
  pub to : Text
  pub content : Option Text

pub record ModeChange : Type 0 where
  pub target : Text
  pub modes : Text
  pub mode_params : List Text

pub data Request : Type 0 where
  admin info lusers motd time version : Request
  who_channel who_mask who_user : Who → Request
  who_all : Bool → Request
  whois : Text → Request
  kill oper : Text → Text → Request
  rehash : Request
  list names : Text → Request
  list_all names_all : Request
  topic_get : Text → Request
  topic_set : Text → Text → Request
  authenticate : Payload → Request
  cap_ls : Version → Request
  cap_list cap_end : Request
  cap_req : Cap.Diff → Request
  pass ping pong : Text → Request
  quit : Option Text → Request
  user : Text → Text → Request
  away : Option Text → Request
  mode_user_get : Text → Request
  mode_user_set : ModeChange → Request
  nick setname : Text → Request
  invite : Text → Text → Request
  join : Text → Text → Request
  kick : Kick → Request
  message_all message_channel message_user : Talk → Request
  mode_channel_get : Text → Request
  mode_channel_set : ModeChange → Request
  part : Text → Option Text → Request
  part_all : Request

-- A parameter that counts as absent when it is empty.
abbrev pub unless_empty : Text → Option Text
unless_empty [] = none
unless_empty (c ∷ s) = some (c ∷ s)

who_request : Text → Bool → Result Request
who_request mask filter =
    if is_empty mask || str_eq mask (text "*")
    then ok (who_all filter)
    else elim (channel_name_try_from mask) [
      | ok m ↦ ok (who_channel (record { mask = m; operator = filter }))
      | _ ↦ elim (nickname_try_from mask) [
        | ok m ↦ ok (who_user (record { mask = m; operator = filter }))
        | _ ↦ do m ← mask_try_from mask; ok (who_mask (record { mask = m; operator = filter }))
      ]
    ]

topic_request : Message → Result Request
topic_request m = do
  channel ← channel_name_try_from (param m 0)
  ok (if m.num_params == 1 then topic_get channel else topic_set channel (param m 1))

cap_request : Message → Result Request
cap_request m =
    if str_eq (param m 0) (text "LS")
    then ok (cap_ls (version_from (param m 1)))
    else if str_eq (param m 0) (text "LIST")
    then ok cap_list
    else if str_eq (param m 0) (text "REQ")
    then elim (Cap.try_from (param m 1)) [ none ↦ err invalid_cap | some d ↦ ok (cap_req d) ]
    else if str_eq (param m 0) (text "END")
    then ok cap_end
    else err (invalid_cap_cmd (param m 0))

-- `&msg.params[2..n]`: a slice that begins behind its end panics.
params_from_two : Message → Result (List Text)
params_from_two m =
    if ltb m.num_params 2 then unreachable else ok (drop 2 (take m.num_params m.params))

mode_request : Message → Result Request
unfolding params_from_two
mode_request m = elim (channel_name_try_from (param m 0)) [
  | ok channel ↦ if m.num_params == 1 then ok (mode_channel_get channel) else do
    params ← params_from_two m
    ok (mode_channel_set (record { target = channel; modes = param m 1; mode_params = params }))
  | _ ↦ do
    nickname ← nickname_try_from (param m 0)
    ok (
        if m.num_params == 1
        then mode_user_get nickname
        else mode_user_set (record { target = nickname; modes = param m 1; mode_params = [] }))
]

nick_request : Message → Result Request
nick_request m = elim (nickname_try_from (param m 0)) [
  | ok nickname ↦ ok (nick nickname)
  | _ ↦ err (erroneous_nickname (param m 0))
]

invite_request : Message → Result Request
invite_request m = do
  who ← nickname_try_from (param m 0)
  to ← channel_name_try_from (param m 1)
  ok (invite who to)

kick_request : Message → Result Request
kick_request m = do
  from ← channel_name_try_from (param m 0)
  ok (kick (record { who = param m 1; from = from; reason = unless_empty (param m 2) }))

-- The `match` that gives `feedback`, with its `unreachable!`.
feedback_request : Command → Result Bool
feedback_request Command.notice = ok false
feedback_request Command.privmsg = ok true
feedback_request Command.tagmsg = ok true
feedback_request _ = unreachable

text_request : Command → Message → Result (Option Text)
text_request command m =
    if is_empty (param m 1) then err (need_more_params command 1) else ok (some (param m 1))

-- The `match` that gives `content`, with its `unreachable!`.
content_request : Command → Message → Result (Option Text)
unfolding text_request
content_request Command.privmsg m = text_request Command.privmsg m
content_request Command.notice m = text_request Command.notice m
content_request Command.tagmsg m = ok none
content_request _ m = unreachable

-- PRIVMSG, NOTICE and TAGMSG, once the content is known.
talk_to : Command → Bool → Option Text → Message → Result Request
talk_to command feedback content m =
    if str_eq (param m 0) (text "*")
    then ok (message_all (talk []))
    else elim (channel_name_try_from (param m 0)) [
      | ok to ↦ ok (message_channel (talk to))
      | _ ↦ do to ← nickname_try_from (param m 0); ok (message_user (talk to))
    ]
  where
    talk : Text → Talk
    talk to = record { feedback = feedback; command = command; to = to; content = content }

-- The arm of the three commands.
talk_request : Command → Message → Result Request
unfolding feedback_request content_request talk_to
talk_request command m = do
  feedback ← feedback_request command
  content ← content_request command m
  talk_to command feedback content m

-- The `match` of `Request::new` on the command.
unfoldable pub from_command : Command → Message → Result Request
unfolding who_request topic_request cap_request mode_request nick_request invite_request
    kick_request talk_request
from_command Command.admin m = ok admin
from_command Command.info m = ok info
from_command Command.lusers m = ok lusers
from_command Command.motd m = ok motd
from_command Command.time m = ok time
from_command Command.version m = ok version
from_command Command.who m = who_request (param m 0) (who_filter (param m 1))
from_command Command.whois m = do mask ← nickname_try_from (param m 0); ok (whois mask)
from_command Command.kill m = do who ← nickname_try_from (param m 0); ok (kill who (param m 1))
from_command Command.oper m = ok (oper (param m 0) (param m 1))
from_command Command.rehash m = ok rehash
from_command Command.list m = ok (if is_empty (param m 0) then list_all else list (param m 0))
from_command Command.names m = ok (if is_empty (param m 0) then names_all else names (param m 0))
from_command Command.topic m = topic_request m
from_command Command.authenticate m = ok (authenticate (payload_from (param m 0)))
from_command Command.cap m = cap_request m
from_command Command.pass m = ok (pass (param m 0))
from_command Command.ping m = ok (ping (param m 0))
from_command Command.pong m = ok (pong (param m 0))
from_command Command.quit m = ok (quit (unless_empty (param m 0)))
from_command Command.user m = ok (user (param m 0) (param m 3))
from_command Command.away m = ok (away (unless_empty (param m 0)))
from_command Command.mode m = mode_request m
from_command Command.nick m = nick_request m
from_command Command.setname m = ok (setname (param m 0))
from_command Command.invite m = invite_request m
from_command Command.join m =
    ok (if str_eq (param m 0) (text "0") then part_all else join (param m 0) (param m 1))
from_command Command.kick m = kick_request m
from_command Command.privmsg m = talk_request Command.privmsg m
from_command Command.notice m = talk_request Command.notice m
from_command Command.tagmsg m = talk_request Command.tagmsg m
from_command Command.part m = ok (part (param m 0) (unless_empty (param m 1)))
from_command (reply s) m = unreachable

-- `Request::new`
unfoldable pub new : Message → Result Request
unfolding from_command has_enough_params
new m = elim m.command [
  | ParsedCommand.unknown word ↦ err (unknown_command word)
  | ParsedCommand.known c ↦
      if has_enough_params m then from_command c m else err (need_more_params c m.num_params)
]

-- `Request::points`
unfoldable pub points : Request → ℕ
points admin = 2
points info = 3
points lusers = 3
points motd = 3
points time = 2
points version = 2
points (who_channel w) = 5
points (who_mask w) = 10
points (who_user w) = 4
points (who_all f) = 8
points (whois n) = 4
points (kill n r) = 16
points (oper n p) = 16
points rehash = 16
points (list t) = 4
points list_all = 8
points (names t) = 4
points names_all = 2
points (topic_get c) = 4
points (topic_set c t) = 7
points (authenticate p) = 16
points (cap_ls v) = 1
points cap_list = 1
points (cap_req d) = 1
points cap_end = 1
points (pass p) = 2
points (ping p) = 2
points (pong p) = 2
points (quit r) = 2
points (user u r) = 2
points (away r) = 8
points (mode_user_get n) = 4
points (mode_user_set a) = 7
points (nick n) = 8
points (setname r) = 8
points (invite w c) = 10
points (join n k) = 8
points (kick a) = 6
points (message_all a) = 24
points (message_channel a) = 8
points (message_user a) = 8
points (mode_channel_get c) = 4
points (mode_channel_set a) = 7
points (part c r) = 6
points part_all = 12
