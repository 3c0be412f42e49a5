-- ===== src/Command.antt =====
-- The commands of the protocol: ellidri-tokens/src/command.rs. The macro's table is written out.
pub mod Laws
use ellidri.Prelude.{
  ltb, leb, ◌==◌, if◌then◌else◌, ==_iff, ==_self, Bool-cases, Option-cases, &&-true, length,
  is_empty, get_or, take, drop, any, all, keep, find, length-append, any-append, all-append, Text,
  text, len_utf8, len, str_eq, slice_from, slice_to, split, split_once, is_whitespace, trim_start,
  trim_end, trim, starts_with, str_eq_iff, str_eq_self, ℕ, zero, suc, ◌+◌, ◌-◌, ◌*◌, ◌/◌, ◌%◌, ◌^◌,
  ◌≤◌, ◌<◌, min, String, ◌≡◌, refl, sym, ap, ap₂, ◌∙◌, ◌≢◌, ◌↔◌, ◌⊎◌, inl, inr, Bool, true, false,
  not, ◌&&◌, ◌||◌, Option, none, some, List, [], ◌∷◌, ◌++◌, map, append-nil, append_assoc, arith,
}
use ellidri.Unicase.{to_ascii_lowercase}

pub data Command : Type 0 where
  admin authenticate away cap info invite join kick kill list : Command
  lusers mode motd names nick notice oper part pass ping : Command
  pong privmsg quit rehash setname tagmsg time topic user version : Command
  who whois : Command
  reply : Text → Command

-- `Command::as_str`
unfoldable pub as_str : Command → Text
as_str admin = text "ADMIN"
as_str authenticate = text "AUTHENTICATE"
as_str away = text "AWAY"
as_str cap = text "CAP"
as_str info = text "INFO"
as_str invite = text "INVITE"
as_str join = text "JOIN"
as_str kick = text "KICK"
as_str kill = text "KILL"
as_str list = text "LIST"
as_str lusers = text "LUSERS"
as_str mode = text "MODE"
as_str motd = text "MOTD"
as_str names = text "NAMES"
as_str nick = text "NICK"
as_str notice = text "NOTICE"
as_str oper = text "OPER"
as_str part = text "PART"
as_str pass = text "PASS"
as_str ping = text "PING"
as_str pong = text "PONG"
as_str privmsg = text "PRIVMSG"
as_str quit = text "QUIT"
as_str rehash = text "REHASH"
as_str setname = text "SETNAME"
as_str tagmsg = text "TAGMSG"
as_str time = text "TIME"
as_str topic = text "TOPIC"
as_str user = text "USER"
as_str version = text "VERSION"
as_str who = text "WHO"
as_str whois = text "WHOIS"
as_str (reply s) = s

-- `Command::required_params`
unfoldable pub required_params : Command → ℕ
required_params admin = 0
required_params authenticate = 1
required_params away = 0
required_params cap = 1
required_params info = 0
required_params invite = 2
required_params join = 1
required_params kick = 2
required_params kill = 2
required_params list = 0
required_params lusers = 0
required_params mode = 1
required_params motd = 0
required_params names = 0
required_params nick = 1
required_params notice = 2
required_params oper = 2
required_params part = 1
required_params pass = 1
required_params ping = 1
required_params pong = 1
required_params privmsg = 2
required_params quit = 0
required_params rehash = 0
required_params setname = 1
required_params tagmsg = 1
required_params time = 0
required_params topic = 1
required_params user = 4
required_params version = 0
required_params who = 0
required_params whois = 1
required_params (reply s) = 0

-- `str::eq_ignore_ascii_case`
unfoldable pub eq_ignore_ascii_case : Text → Text → Bool
eq_ignore_ascii_case [] [] = true
eq_ignore_ascii_case (a ∷ s) (b ∷ t) =
    to_ascii_lowercase a == to_ascii_lowercase b && eq_ignore_ascii_case s t
eq_ignore_ascii_case _ _ = false

-- The commands in the order in which `parse` tries them.
unfoldable pub all_commands : List Command
all_commands =
    admin ∷ authenticate ∷ away ∷ cap ∷ info ∷ invite ∷ join ∷ kick ∷ kill ∷ list ∷ lusers ∷ mode
    ∷ motd ∷ names ∷ nick ∷ notice ∷ oper ∷ part ∷ pass ∷ ping ∷ pong ∷ privmsg ∷ quit ∷ rehash
    ∷ setname ∷ tagmsg ∷ time ∷ topic ∷ user ∷ version ∷ who ∷ whois ∷ []

unfoldable pub parse_in : List Command → Text → Option Command
parse_in [] s = none
parse_in (c ∷ cs) s = if eq_ignore_ascii_case s (as_str c) then some c else parse_in cs s

-- `Command::parse`
unfoldable pub parse : Text → Option Command
unfolding parse_in all_commands as_str eq_ignore_ascii_case
parse s = parse_in all_commands s
