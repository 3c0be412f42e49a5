-- ===== src/Mode/Laws.antt =====
-- What the items of a MODE query of ellidri-tokens/src/mode.rs are.
use ellidri.Mode.{
  ChannelChange, Result, ok, err, unknown, missing_param, unchangeable, channel_item, key, value,
  symbol, get_bans, get_exceptions, get_invitations, user_item, user_value, user_symbol, UserChange,
  param,
}
use ellidri.Prelude.{
  Text, text, ℕ, ◌≡◌, ◌⊎◌, Bool, true, false, Option, none, some, List, [], ◌∷◌, arith,
}

abbrev pub is_list_query : ChannelChange → Bool
is_list_query get_bans = true
is_list_query get_exceptions = true
is_list_query get_invitations = true
is_list_query _ = false

abbrev pub given : Option Text → List Text → List Text
given none ps = ps
given (some p) ps = p ∷ ps

-- What an item keeps of its letter, its sign and the parameters.
abbrev pub Faithful : Bool → ℕ → List Text → Result ChannelChange × List Text → Type 0
Faithful v mode ps (ok c, left) =
    (symbol c ≡ mode)
    × (is_list_query c ≡ false → value c ≡ v)
    × ((ps ≡ given (param c) left) ⊎ ((ps ≡ []) × (left ≡ []) × (c ≡ key false (text "*"))))
Faithful v mode ps (err (unknown m w), left) = (m ≡ mode) × (w ≡ v) × (left ≡ ps)
Faithful v mode ps (err (missing_param m w), left) = (m ≡ mode) × (w ≡ v) × (ps ≡ []) × (left ≡ [])
Faithful v mode ps (err (unchangeable m w), left) = ⊥

-- Each item of a channel query is about its own letter and, but for the query of a list, which has
-- none, its own sign; it takes exactly its own parameter off the list, save a `-k` without
-- parameters, which makes up its own, and lacks a parameter only when none is left.
pub channel_item-Faithful :
    (v : Bool) (mode : ℕ) (ps : List Text) → Faithful v mode ps (channel_item v mode ps)
unfolding channel_item value symbol param
channel_item-Faithful true mode [] = ground arith
channel_item-Faithful false mode [] = ground arith
channel_item-Faithful true mode (p ∷ ps) = ground arith
channel_item-Faithful false mode (p ∷ ps) = ground arith

-- What an item of a user query keeps of its letter and sign.
abbrev pub UserFaithful : Bool → ℕ → Result UserChange → Type 0
UserFaithful v mode (ok c) = (user_symbol c ≡ mode) × (user_value c ≡ v)
UserFaithful v mode (err (unknown m w)) = (m ≡ mode) × (w ≡ v)
UserFaithful v mode (err (unchangeable m w)) =
    (w ≡ v) × ((mode ≡ b'a') ⊎ ((mode ≡ b'o') × (v ≡ true))) × (m ≡ mode)
UserFaithful v mode (err (missing_param m w)) = ⊥

-- An item of a user query is a change with its own letter and sign, or an error about them; no query
-- makes its client an operator or sets it away.
pub user_item-UserFaithful : (v : Bool) (mode : ℕ) → UserFaithful v mode (user_item (v, mode))
unfolding user_item user_value user_symbol
user_item-UserFaithful true mode = ground arith
user_item-UserFaithful false mode = ground arith
