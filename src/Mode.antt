-- ===== src/Mode.antt =====
-- MODE queries: ellidri-tokens/src/mode.rs. An iterator is the list of its items.
pub mod Laws
use ellidri.Prelude.{
  ℕ, Bool, true, false, not, Option, none, some, List, [], ◌∷◌, map, Text, text, ◌==◌,
  if◌then◌else◌, is_empty, any, all, keep, ◌&&◌,
}

-- `SimpleQuery::next`, over all its calls: each mode letter with the sign in force.
unfoldable pub simple_query : Bool → Text → List (Bool × ℕ)
simple_query value [] = []
simple_query value (c ∷ s) =
    let plus = simple_query true s in
    let minus = simple_query false s in
    let letter = (value, c) ∷ simple_query value s in
    if c == b'+' then plus else if c == b'-' then minus else letter

pub data Error : Type 0 where
  unknown : ℕ → Bool → Error
  missing_param : ℕ → Bool → Error
  unchangeable : ℕ → Bool → Error

pub data Result (A : Type 0) : Type 0 where
  ok : A → Result A
  err : Error → Result A

pub data UserChange : Type 0 where
  invisible : Bool → UserChange
  de_operator : UserChange

unfoldable pub user_modes : Text
user_modes = text "aio"

unfoldable pub user_value : UserChange → Bool
user_value (invisible v) = v
user_value de_operator = false

unfoldable pub user_symbol : UserChange → ℕ
user_symbol (invisible v) = b'i'
user_symbol de_operator = b'o'

-- The closure of `user_query`.
unfoldable pub user_item : Bool × ℕ → Result UserChange
unfolding user_modes
user_item (value, mode) =
    if mode == b'i'
    then ok (invisible value)
    else if mode == b'o' && not value
    then ok de_operator
    else if any (λ c. c == mode) user_modes
    then err (unchangeable mode value)
    else err (unknown mode value)

unfoldable pub user_query : Text → List (Result UserChange)
unfolding simple_query user_item
user_query modes = map user_item (simple_query true modes)

pub data ChannelChange : Type 0 where
  invite_only moderated no_priv_msg_from_outside secret topic_restricted : Bool → ChannelChange
  key : Bool → Text → ChannelChange
  user_limit : Option Text → ChannelChange
  get_bans get_exceptions get_invitations : ChannelChange
  change_ban change_exception change_invitation : Bool → Text → ChannelChange
  change_operator change_halfop change_voice : Bool → Text → ChannelChange

-- `ChannelChange::value`
unfoldable pub value : ChannelChange → Bool
value (invite_only v) = v
value (moderated v) = v
value (no_priv_msg_from_outside v) = v
value (secret v) = v
value (topic_restricted v) = v
value (key v p) = v
value (change_ban v p) = v
value (change_exception v p) = v
value (change_invitation v p) = v
value (change_operator v p) = v
value (change_halfop v p) = v
value (change_voice v p) = v
value (user_limit none) = false
value (user_limit (some p)) = true
value get_bans = false
value get_exceptions = false
value get_invitations = false

-- `ChannelChange::symbol`
unfoldable pub symbol : ChannelChange → ℕ
symbol (invite_only v) = b'i'
symbol (moderated v) = b'm'
symbol (no_priv_msg_from_outside v) = b'n'
symbol (secret v) = b's'
symbol (topic_restricted v) = b't'
symbol (key v p) = b'k'
symbol (user_limit l) = b'l'
symbol (change_ban v p) = b'b'
symbol get_bans = b'b'
symbol (change_exception v p) = b'e'
symbol get_exceptions = b'e'
symbol (change_invitation v p) = b'I'
symbol get_invitations = b'I'
symbol (change_operator v p) = b'o'
symbol (change_halfop v p) = b'h'
symbol (change_voice v p) = b'v'

-- `ChannelChange::param`
unfoldable pub param : ChannelChange → Option Text
param (key v p) = some p
param (change_ban v p) = some p
param (change_exception v p) = some p
param (change_invitation v p) = some p
param (change_operator v p) = some p
param (change_halfop v p) = some p
param (change_voice v p) = some p
param (user_limit l) = l
param (invite_only v) = none
param (moderated v) = none
param (no_priv_msg_from_outside v) = none
param (secret v) = none
param (topic_restricted v) = none
param get_bans = none
param get_exceptions = none
param get_invitations = none

-- The closure of `channel_query`, with the parameters that are left: `params.next()` takes the
-- first, and is called only by the modes that may have one.
abbrev pub Item : Type 0
Item = Result ChannelChange × List Text

-- A mode that takes a parameter when there is one.
optional : List Text → (Text → ChannelChange) → Result ChannelChange → Item
optional [] take absent = (absent, [])
optional (p ∷ ps) take absent = (ok (take p), ps)

unfoldable pub channel_item : Bool → ℕ → List Text → Item
unfolding optional
channel_item v mode ps =
    if mode == b'i'
    then (ok (invite_only v), ps)
    else if mode == b'm'
    then (ok (moderated v), ps)
    else if mode == b'n'
    then (ok (no_priv_msg_from_outside v), ps)
    else if mode == b's'
    then (ok (secret v), ps)
    else if mode == b't'
    then (ok (topic_restricted v), ps)
    else if mode == b'k'
    then optional ps (key v)
        (if not v then ok (key false (text "*")) else err (missing_param b'k' v))
    else if mode == b'l'
    then (if v
        then optional ps (λ p. user_limit (some p)) (err (missing_param b'l' v))
        else (ok (user_limit none), ps))
    else if mode == b'b'
    then optional ps (change_ban v) (ok get_bans)
    else if mode == b'e'
    then optional ps (change_exception v) (ok get_exceptions)
    else if mode == b'I'
    then optional ps (change_invitation v) (ok get_invitations)
    else if mode == b'o'
    then optional ps (change_operator v) (err (missing_param b'o' v))
    else if mode == b'h'
    then optional ps (change_halfop v) (err (missing_param b'h' v))
    else if mode == b'v'
    then optional ps (change_voice v) (err (missing_param b'v' v))
    else (err (unknown mode v), ps)

-- The `map` of `channel_query` over the letters, which threads the parameters.
unfoldable pub channel_items : List (Bool × ℕ) → List Text → List (Result ChannelChange)
unfolding channel_item
channel_items [] ps = []
channel_items ((v, mode) ∷ rest) ps =
    let (item, left) = channel_item v mode ps in item ∷ channel_items rest left

unfoldable pub channel_query : Text → List Text → List (Result ChannelChange)
unfolding simple_query channel_items
channel_query modes params =
    channel_items (simple_query true modes) (keep (λ p. not (is_empty p)) params)

unfoldable pub simple_channel_query : Text → List (Result ChannelChange)
unfolding channel_query
simple_channel_query modes = channel_query modes []

abbrev pub is_ok : Result ChannelChange → Bool
is_ok (ok c) = true
is_ok (err e) = false

unfoldable pub is_channel_mode_string : Text → Bool
unfolding simple_channel_query
is_channel_mode_string s = all is_ok (simple_channel_query s)
