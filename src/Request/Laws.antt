-- ===== src/Request/Laws.antt =====
-- A message that was parsed never reaches the `unreachable!` of `Request::new`: src/data/req.rs with
-- ellidri-tokens/src/message.rs.
use ellidri.Prelude.{
  if◌then◌else◌, Text, trim_start, leb, ◌==◌, ◌≡◌, refl, Bool, true, false, Option, none, some,
  arith,
}
use ellidri.Errors.{Result, ok, err, unreachable, ◌>>=◌, unknown_command, need_more_params}
use ellidri.Names.{mask_try_from, nickname_try_from, channel_name_try_from}
use ellidri.Command
use ellidri.Command.{Command, reply, required_params}
use ellidri.Command.Laws.{IsNamed, parse_iff}
use ellidri.Message.{
  Message, ParsedCommand, param, parse, parse_tags, parse_prefix, parse_word, parse_command,
  has_enough_params,
}
use mathlib.Core.Path.{subst}
use ellidri.Request.{
  who_filter, who_request, topic_request, cap_request, mode_request, nick_request, invite_request,
  kick_request, talk_to, talk_request, params_from_two, from_command, new,
}

-- The result is a value or an error.
abbrev pub is_reached {ℓ} : {A : Type ℓ} → Result A → Bool
is_reached (ok a) = true
is_reached (err e) = true
is_reached unreachable = false

bind_reached :
    {A B : Type 0} (r : Result A) (f : A → Result B)
    → is_reached r ≡ true
    → ((a : A) → is_reached (f a) ≡ true)
    → is_reached (r >>= f) ≡ true
bind_reached (ok a) f h k = k a
bind_reached (err e) f h k = refl
bind_reached unreachable f h k = h

mask_reached : (s : Text) → is_reached (mask_try_from s) ≡ true
unfolding mask_try_from
mask_reached s = ground arith

nickname_reached : (s : Text) → is_reached (nickname_try_from s) ≡ true
unfolding nickname_try_from
nickname_reached s = ground arith

channel_reached : (s : Text) → is_reached (channel_name_try_from s) ≡ true
unfolding channel_name_try_from
channel_reached s = ground arith

who_reached : (s : Text) (b : Bool) → is_reached (who_request s b) ≡ true
unfolding who_request
who_reached s b = ground (arith, mask_reached s)

topic_reached : (m : Message) → is_reached (topic_request m) ≡ true
unfolding topic_request
topic_reached m = bind_reached _ _ (channel_reached (param m 0)) (λ c. refl)

cap_reached : (m : Message) → is_reached (cap_request m) ≡ true
unfolding cap_request
cap_reached m = ground arith

-- A message with a parameter other than one has two, so that the slice of the others is in bounds.
params_reached :
    (m : Message)
    → leb 1 m.num_params ≡ true
    → (m.num_params == 1) ≡ false
    → is_reached (params_from_two m) ≡ true
unfolding params_from_two
params_reached m h k = ground arith

mode_reached : (m : Message) → leb 1 m.num_params ≡ true → is_reached (mode_request m) ≡ true
unfolding mode_request
mode_reached m h = ground (arith, nickname_reached (param m 0), params_reached m h)

nick_reached : (m : Message) → is_reached (nick_request m) ≡ true
unfolding nick_request
nick_reached m = ground arith

invite_reached : (m : Message) → is_reached (invite_request m) ≡ true
unfolding invite_request
invite_reached m =
    bind_reached _ _ (nickname_reached (param m 0))
      (λ w. bind_reached _ _ (channel_reached (param m 1)) (λ c. refl))

kick_reached : (m : Message) → is_reached (kick_request m) ≡ true
unfolding kick_request
kick_reached m = bind_reached _ _ (channel_reached (param m 0)) (λ c. refl)

talk_reached :
    (c : Command) (b : Bool) (content : Option Text) (m : Message)
    → is_reached (talk_to c b content m) ≡ true
unfolding talk_to
talk_reached c b content m = ground (arith, nickname_reached (param m 0))

-- The commands of the arm for messages.
abbrev is_talk : Command → Bool
is_talk Command.privmsg = true
is_talk Command.notice = true
is_talk Command.tagmsg = true
is_talk _ = false

talk_request_reached :
    (c : Command) (m : Message) → is_talk c ≡ true → is_reached (talk_request c m) ≡ true
unfolding talk_request
talk_request_reached Command.privmsg m h =
    ground (arith, talk_reached Command.privmsg true (some (param m 1)) m)
talk_request_reached Command.notice m h =
    ground (arith, talk_reached Command.notice false (some (param m 1)) m)
talk_request_reached Command.tagmsg m h = talk_reached Command.tagmsg true none m
talk_request_reached _ m h = cc

mode_enough :
    (m : Message)
    → leb (required_params Command.mode) m.num_params ≡ true
    → leb 1 m.num_params ≡ true
unfolding required_params
mode_enough m h = h

from_command_reached :
    (c : Command) (m : Message)
    → IsNamed c
    → leb (required_params c) m.num_params ≡ true
    → is_reached (from_command c m) ≡ true
unfolding from_command
from_command_reached Command.who m h n = who_reached (param m 0) (who_filter (param m 1))
from_command_reached Command.whois m h n =
    bind_reached _ _ (nickname_reached (param m 0)) (λ c. refl)
from_command_reached Command.kill m h n =
    bind_reached _ _ (nickname_reached (param m 0)) (λ c. refl)
from_command_reached Command.topic m h n = topic_reached m
from_command_reached Command.cap m h n = cap_reached m
from_command_reached Command.mode m h n = mode_reached m (mode_enough m n)
from_command_reached Command.nick m h n = nick_reached m
from_command_reached Command.invite m h n = invite_reached m
from_command_reached Command.kick m h n = kick_reached m
from_command_reached Command.privmsg m h n = talk_request_reached Command.privmsg m refl
from_command_reached Command.notice m h n = talk_request_reached Command.notice m refl
from_command_reached Command.tagmsg m h n = talk_request_reached Command.tagmsg m refl
from_command_reached (reply s) m h n = absurd h
from_command_reached _ m h n = refl

-- The command of a message is one of the table, or unknown.
abbrev IsKnown : ParsedCommand → Type 0
IsKnown (ParsedCommand.known c) = IsNamed c
IsKnown (ParsedCommand.unknown word) = Unit

parsed_word :
    (word : Text) (o : Option Command)
    → Command.parse word ≡ o
    → IsKnown (elim o [ none ↦ ParsedCommand.unknown word | some c ↦ ParsedCommand.known c ])
parsed_word word none e = _
parsed_word word (some c) e = ((parse_iff word c).0 e).0

parse_command-IsKnown : (s : Text) → IsKnown (parse_command s).0
unfolding parse_command
parse_command-IsKnown s = parsed_word (parse_word s).0 (Command.parse (parse_word s).0) refl

kept :
    (b d : Bool) (r m : Message) → (if b then none else if d then none else some r) ≡ some m → r ≡ m
kept b d r m h = ground (arith, h)

parse-IsKnown : (s : Text) (m : Message) → parse s ≡ some m → IsKnown m.command
unfolding parse
parse-IsKnown s m h =
    subst (λ x. IsKnown x.command) (kept _ _ _ m h)
      (parse_command-IsKnown (parse_prefix (parse_tags (trim_start s)).1).1)

enough_reached :
    (c : Command) (enough : Bool) (m : Message)
    → IsNamed c
    → leb (required_params c) m.num_params ≡ enough
    → is_reached (if enough then from_command c m else err (need_more_params c m.num_params)) ≡ true
enough_reached c true m known h = from_command_reached c m known h
enough_reached c false m known h = refl

has_enough-required :
    (m : Message) (c : Command)
    → m.command ≡ ParsedCommand.known c
    → leb (required_params c) m.num_params ≡ has_enough_params m
unfolding has_enough_params
has_enough-required m c e = rw e refl

request_reached :
    (pc : ParsedCommand) (enough : Bool) (m : Message)
    → IsKnown pc
    → ((c : Command) → pc ≡ ParsedCommand.known c → leb (required_params c) m.num_params ≡ enough)
    → is_reached (elim pc [
      | ParsedCommand.unknown word ↦ err (unknown_command word)
      | ParsedCommand.known c ↦
          if enough then from_command c m else err (need_more_params c m.num_params)
    ])
      ≡ true
request_reached (ParsedCommand.unknown word) enough m known h = refl
request_reached (ParsedCommand.known c) enough m known h =
    enough_reached c enough m known (h c refl)

-- The request of every text that is parsed to a message is a value or an error: `Request::new` does
-- not panic.
pub new-parse : (s : Text) (m : Message) → parse s ≡ some m → is_reached (new m) ≡ true
unfolding new
new-parse s m h =
    request_reached m.command (has_enough_params m) m (parse-IsKnown s m h) (has_enough-required m)
