-- ===== src/Cap.antt =====
-- Capabilities: src/data/cap.rs. The macro makes a field of each capability in `Diff` and in
-- `Capabilities`; here each of the two is a function of the capability.
use mathlib.Core.Bool.{decide}
use ellidri.Prelude.{
  ◌==◌, if◌then◌else◌, is_empty, Text, text, str_eq, is_whitespace, Bool, true, false, ◌&&◌, ◌||◌,
  Option, none, some, List, [], ◌∷◌, ◌++◌, map,
}
use ellidri.Command.{Command}

pub data Version : Type 0 where
  v300 v302 : Version

unfoldable pub version_from : Text → Version
version_from s = if str_eq s (text "302") then v302 else v300

-- `derive(PartialOrd)`
unfoldable pub version_lt : Version → Version → Bool
version_lt v300 v302 = true
version_lt v300 v300 = false
version_lt v302 v = false

pub data Cap : Type 0 where
  account_notify account_tag away_notify batch cap_notify : Cap
  echo_message extended_join invite_notify labeled_response message_tags : Cap
  multi_prefix server_time setname userhost_in_names sasl : Cap

pub Cap-discrete : Discrete Cap
Cap-discrete = hlevel

unfoldable pub cap_name : Cap → Text
cap_name account_notify = text "account-notify"
cap_name account_tag = text "account-tag"
cap_name away_notify = text "away-notify"
cap_name batch = text "batch"
cap_name cap_notify = text "cap-notify"
cap_name echo_message = text "echo-message"
cap_name extended_join = text "extended-join"
cap_name invite_notify = text "invite-notify"
cap_name labeled_response = text "labeled-response"
cap_name message_tags = text "message-tags"
cap_name multi_prefix = text "multi-prefix"
cap_name server_time = text "server-time"
cap_name setname = text "setname"
cap_name userhost_in_names = text "userhost-in-names"
cap_name sasl = text "sasl"

-- The capabilities before the bar of the macro's table, and all of them.
unfoldable pub common_caps : List Cap
common_caps =
    account_notify ∷ account_tag ∷ away_notify ∷ batch ∷ cap_notify ∷ echo_message ∷ extended_join
    ∷ invite_notify ∷ labeled_response ∷ message_tags ∷ multi_prefix ∷ server_time ∷ setname
    ∷ userhost_in_names ∷ []

unfoldable pub all_caps : List Cap
unfolding common_caps
all_caps = common_caps ++ sasl ∷ []

abbrev pub Diff : Type 0
Diff = Cap → Option Bool

abbrev pub Capabilities : Type 0
Capabilities = Cap → Bool

-- The text without its last character.
abbrev pub pop : Text → Text
pop [] = []
pop (c ∷ []) = []
pop (c ∷ d ∷ s) = c ∷ pop (d ∷ s)

each_name : List Cap → Text
each_name [] = []
each_name (c ∷ cs) = cap_name c ++ b' ' ∷ each_name cs

unfoldable pub ls_common : Text
unfolding each_name common_caps cap_name
ls_common = pop (each_name common_caps)

-- `str::split_whitespace`: the word that is being read, and the text that is left.
words_from : Text → Text → List Text
words_from word [] = if is_empty word then [] else word ∷ []
words_from word (c ∷ s) =
    let ended = words_from [] s in
    let longer = words_from (word ++ c ∷ []) s in
    if is_whitespace c then (if is_empty word then ended else word ∷ ended) else longer

unfoldable pub split_whitespace : Text → List Text
unfolding words_from
split_whitespace s = words_from [] s

-- The closure of `query`.
unfoldable pub query_item : Text → Text × Bool
query_item [] = ([], true)
query_item (c ∷ word) = if c == b'-' then (word, false) else (c ∷ word, true)

unfoldable pub query : Text → List (Text × Bool)
unfolding split_whitespace query_item
query buf = map query_item (split_whitespace buf)

-- The arms of the `match` on the name.
unfoldable pub cap_named : List Cap → Text → Option Cap
cap_named [] s = none
cap_named (c ∷ cs) s = if str_eq s (cap_name c) then some c else cap_named cs s

unfoldable pub set_change : Cap → Bool → Diff → Diff
set_change c enable d = λ e. if decide (Cap-discrete e c) then some enable else d e

-- The loop of `try_from`; `none` is `Err(Error::InvalidCap)`.
unfoldable pub read_changes : List (Text × Bool) → Diff → Option Diff
unfolding set_change
read_changes [] d = some d
read_changes ((name, enable) ∷ rest) d = elim (cap_named all_caps name) [
  | none ↦ none
  | some c ↦ read_changes rest (set_change c enable d)
]

unfoldable pub no_change : Diff
no_change c = none

unfoldable pub try_from : Text → Option Diff
unfolding read_changes query no_change
try_from s = read_changes (query s) no_change

-- One capability of `Diff::write`.
change_text : Cap → Option Bool → Text
change_text c none = []
change_text c (some enable) = (if enable then [] else b'-' ∷ []) ++ cap_name c ++ b' ' ∷ []

each_change : Diff → List Cap → Text
each_change d [] = []
each_change d (c ∷ cs) = change_text c (d c) ++ each_change d cs

-- `Diff::write`, to an empty text.
unfoldable pub write_diff : Diff → Text
unfolding each_change change_text
write_diff d = pop (each_change d all_caps)

each_enabled : Capabilities → List Cap → Text
each_enabled caps [] = []
each_enabled caps (c ∷ cs) =
    (if caps c then cap_name c ++ b' ' ∷ [] else []) ++ each_enabled caps cs

-- `Capabilities::write`, to an empty text.
unfoldable pub write_enabled : Capabilities → Text
unfolding each_enabled
write_enabled caps = pop (each_enabled caps all_caps)

unfoldable pub update : Capabilities → Diff → Capabilities
update caps d = λ c. elim (d c) [ none ↦ caps c | some change ↦ change ]

unfoldable pub has_labeled_response : Capabilities → Bool
has_labeled_response caps = caps batch && caps labeled_response

unfoldable pub has_message_tags : Capabilities → Bool
has_message_tags caps = caps message_tags || caps server_time

unfoldable pub is_capable_of : Capabilities → Command → Bool
is_capable_of caps Command.authenticate = caps sasl
is_capable_of caps Command.setname = caps setname
is_capable_of caps Command.tagmsg = caps message_tags
is_capable_of caps _ = true
