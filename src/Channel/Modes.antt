-- ===== src/Channel/Modes.antt =====
-- Mode changes of a channel: `apply_mode_change` and `Channel::new` of src/channel.rs.
pub mod Laws
pub mod Rights
pub mod Defaults
use ellidri.Mode
use ellidri.Mode.{ChannelChange, Result, simple_channel_query}
use ellidri.Mask.Set
use ellidri.Mask.Set.{MaskSet}
use ellidri.Channel
use ellidri.Channel.{Channel, blank}
use ellidri.Channel.Members.{MemberModes}
use ellidri.Prelude.{
  ltb, leb, ◌==◌, if◌then◌else◌, ==_iff, ==_self, Bool-cases, Option-cases, &&-true, length,
  is_empty, get_or, take, drop, any, all, keep, find, length-append, any-append, all-append, Text,
  text, len_utf8, len, str_eq, slice_from, slice_to, split, split_once, is_whitespace, trim_start,
  trim_end, trim, starts_with, str_eq_iff, str_eq_self, get, contains_key, put, delete, keys,
  contains, add, discard, ℕ, zero, suc, ◌+◌, ◌-◌, ◌*◌, ◌/◌, ◌%◌, ◌^◌, ◌≤◌, ◌<◌, min, String, ◌≡◌,
  refl, sym, ap, ap₂, ◌∙◌, ◌≢◌, ◌↔◌, ◌⊎◌, inl, inr, Bool, true, false, not, ◌&&◌, ◌||◌, Option,
  none, some, List, [], ◌∷◌, ◌++◌, map, append-nil, append_assoc, arith,
}

-- `Ok(applied)`, the two errors, and the panics of slicing a key and of a member that is no client.
pub data Applied : Type 0 where
  done : Bool → Applied
  key_set user_not_in_channel panic : Applied

abbrev usize_max : ℕ
usize_max = 0xffff_ffff_ffff_ffff

abbrev is_digit : ℕ → Bool
is_digit c = leb b'0' c && leb c b'9'

digits : ℕ → Text → ℕ
digits acc [] = acc
digits acc (c ∷ s) = digits (acc * 10 + (c - b'0')) s

abbrev after_plus : Text → Text
after_plus [] = []
after_plus (c ∷ s) = if c == b'+' then s else c ∷ s

-- `str::parse::<usize>`
unfoldable pub parse_usize : Text → Option ℕ
unfolding digits
parse_usize s =
    let ds = after_plus s in
    if not (is_empty ds) && all is_digit ds && leb (digits 0 ds) usize_max
    then some (digits 0 ds)
    else none

abbrev pub differ : Bool → Bool → Bool
differ a b = if a then not b else b

-- How the loop over the members ends.
pub data Found : Type 0 where
  absent dangling : Found
  changed : Bool → List (ℕ × MemberModes) → Found

abbrev pub later : ℕ × MemberModes → Found → Found
later e absent = absent
later e dangling = dangling
later e (changed applied ms) = changed applied (e ∷ ms)

-- The loop of `ChangeOperator`, `ChangeHalfop` and `ChangeVoice`: `flag` reads the mode, `write`
-- sets it. `nick_of` is `none` for an identifier that is no client.
unfoldable pub change_member :
    (ℕ → Option Text)
    → (MemberModes → Bool)
    → (MemberModes → MemberModes)
    → Bool
    → Text
    → List (ℕ × MemberModes)
    → Found
change_member nick_of flag write value param [] = absent
change_member nick_of flag write value param ((id, m) ∷ rest) =
    let on = later (id, m) (change_member nick_of flag write value param rest) in
    elim (nick_of id) [
      | none ↦ dangling
      | some nick ↦
          if str_eq nick param then changed (differ (flag m) value) ((id, write m) ∷ rest) else on
    ]

abbrev pub finish : Channel → Found → Channel × Applied
finish c absent = (c, user_not_in_channel)
finish c dangling = (c, panic)
finish c (changed applied ms) = (record c { members = ms }, done applied)

set_key : ℕ → Text → Channel → Channel × Applied
set_key keylen key c = elim c.key [
  | some old ↦ (c, key_set)
  | none ↦ elim (slice_to key (min (len key) keylen)) [
    | none ↦ (c, panic)
    | some k ↦ (record c { key = some k }, done true)
  ]
]

set_limit : Option ℕ → Channel → Channel × Applied
set_limit none c = (c, done false)
set_limit (some limit) c = (
  record c { user_limit = some limit },
  done (elim c.user_limit [ none ↦ true | some old ↦ not (old == limit) ]),
)

abbrev is_some {ℓ} : {A : Type ℓ} → Option A → Bool
is_some none = false
is_some (some a) = true

abbrev edit_mask : Bool → Text → MaskSet → MaskSet × Bool
edit_mask value param set = if value then Set.insert param set else Set.remove param set

-- `Channel::apply_mode_change`
unfoldable pub apply_mode_change :
    (ℕ → Option Text) → ℕ → ChannelChange → Channel → Channel × Applied
unfolding set_key set_limit
apply_mode_change nick_of keylen (Mode.invite_only v) c =
    (record c { invite_only = v }, done (differ c.invite_only v))
apply_mode_change nick_of keylen (Mode.moderated v) c =
    (record c { moderated = v }, done (differ c.moderated v))
apply_mode_change nick_of keylen (Mode.no_priv_msg_from_outside v) c =
    (record c { no_msg_from_outside = v }, done (differ c.no_msg_from_outside v))
apply_mode_change nick_of keylen (Mode.secret v) c =
    (record c { secret = v }, done (differ c.secret v))
apply_mode_change nick_of keylen (Mode.topic_restricted v) c =
    (record c { topic_restricted = v }, done (differ c.topic_restricted v))
apply_mode_change nick_of keylen (Mode.key v key) c =
    if v then set_key keylen key c else (record c { key = none }, done (is_some c.key))
apply_mode_change nick_of keylen (Mode.user_limit (some s)) c = set_limit (parse_usize s) c
apply_mode_change nick_of keylen (Mode.user_limit none) c =
    (record c { user_limit = none }, done (is_some c.user_limit))
apply_mode_change nick_of keylen (Mode.change_ban v p) c =
    let (set, applied) = edit_mask v p c.ban_mask in (record c { ban_mask = set }, done applied)
apply_mode_change nick_of keylen (Mode.change_exception v p) c =
    let (set, applied) = edit_mask v p c.exception_mask in
    (record c { exception_mask = set }, done applied)
apply_mode_change nick_of keylen (Mode.change_invitation v p) c =
    let (set, applied) = edit_mask v p c.invex_mask in (record c { invex_mask = set }, done applied)
apply_mode_change nick_of keylen (Mode.change_operator v p) c =
    finish c
      (change_member nick_of (λ m. m.operator) (λ m. record m { operator = v }) v p c.members)
apply_mode_change nick_of keylen (Mode.change_halfop v p) c =
    finish c (change_member nick_of (λ m. m.halfop) (λ m. record m { halfop = v }) v p c.members)
apply_mode_change nick_of keylen (Mode.change_voice v p) c =
    finish c (change_member nick_of (λ m. m.voice) (λ m. record m { voice = v }) v p c.members)
apply_mode_change nick_of keylen Mode.get_bans c = (c, done false)
apply_mode_change nick_of keylen Mode.get_exceptions c = (c, done false)
apply_mode_change nick_of keylen Mode.get_invitations c = (c, done false)

-- The loop of `Channel::new`; `none` is the panic of `unwrap`.
unfoldable pub apply_defaults : List (Result ChannelChange) → Channel → Option Channel
unfolding apply_mode_change
apply_defaults [] c = some c
apply_defaults (Mode.err e ∷ rest) c = apply_defaults rest c
apply_defaults (Mode.ok change ∷ rest) c =
    let (c', r) = apply_mode_change (λ id. some []) usize_max change c in
    elim r [ done b ↦ apply_defaults rest c' | _ ↦ none ]

-- `Channel::new`
unfoldable pub new : Text → Option Channel
unfolding apply_defaults simple_channel_query
new modes = apply_defaults (simple_channel_query modes) blank
