-- ===== src/Channel.antt =====
-- Channels and the modes of their members: src/channel.rs. Matching against a mask set may panic, so
-- the tests that do are verdicts.
pub mod Members
pub mod Laws
pub mod Modes
pub mod Notice
use ellidri.Mask.Match.{Verdict, answer, panicked, out_of_fuel}
use ellidri.Mask.Set.{MaskSet, empty, is_match}
use ellidri.Channel.Members.{MemberModes, no_modes, has_voice, is_at_least_halfop}
use ellidri.Prelude.{
  ltb, leb, ◌==◌, if◌then◌else◌, ==_iff, ==_self, Bool-cases, Option-cases, &&-true, length,
  is_empty, get_or, take, drop, any, all, keep, find, length-append, any-append, all-append, Text,
  text, len_utf8, len, str_eq, slice_from, slice_to, split, split_once, is_whitespace, trim_start,
  trim_end, trim, starts_with, str_eq_iff, str_eq_self, get, contains_key, put, delete, keys,
  contains, add, discard, ℕ, zero, suc, ◌+◌, ◌-◌, ◌*◌, ◌/◌, ◌%◌, ◌^◌, ◌≤◌, ◌<◌, min, String, ◌≡◌,
  refl, sym, ap, ap₂, ◌∙◌, ◌≢◌, ◌↔◌, ◌⊎◌, inl, inr, Bool, true, false, not, ◌&&◌, ◌||◌, Option,
  none, some, List, [], ◌∷◌, ◌++◌, map, append-nil, append_assoc, arith,
}

pub record Topic : Type 0 where
  pub content : Text
  pub who : Text
  pub time : ℕ

pub record Channel : Type 0 where
  pub members : List (ℕ × MemberModes)
  pub invites : List ℕ
  pub topic : Option Topic
  pub user_limit : Option ℕ
  pub key : Option Text
  pub ban_mask : MaskSet
  pub exception_mask : MaskSet
  pub invex_mask : MaskSet
  pub invite_only : Bool
  pub moderated : Bool
  pub no_msg_from_outside : Bool
  pub secret : Bool
  pub topic_restricted : Bool

-- The channel with which `Channel::new` begins.
abbrev pub blank : Channel
blank = record {
  members = [];
  invites = [];
  topic = none;
  user_limit = none;
  key = none;
  ban_mask = empty;
  exception_mask = empty;
  invex_mask = empty;
  invite_only = false;
  moderated = false;
  no_msg_from_outside = false;
  secret = false;
  topic_restricted = false;
}

abbrev pub operator_modes : MemberModes
operator_modes = record {
  founder = false;
  protected = false;
  operator = true;
  halfop = false;
  voice = false;
}

unfoldable pub add_member : ℕ → Channel → Channel
add_member id c =
    let modes = if is_empty c.members then operator_modes else no_modes in
    record c { members = put ◌==◌ id modes c.members; invites = discard ◌==◌ id c.invites }

-- `&&` and `||` on verdicts: the right side is asked only where the left does not decide.
abbrev pub both : Verdict → Verdict → Verdict
both (answer b) w = if b then w else answer false
both panicked w = panicked
both out_of_fuel w = out_of_fuel

abbrev pub either : Verdict → Verdict → Verdict
either (answer b) w = if b then answer true else w
either panicked w = panicked
either out_of_fuel w = out_of_fuel

abbrev pub negate : Verdict → Verdict
negate (answer b) = answer (not b)
negate panicked = panicked
negate out_of_fuel = out_of_fuel

unfoldable pub is_banned : Text → Channel → Verdict
is_banned nick c =
    both (is_match c.ban_mask nick)
      (both (negate (is_match c.exception_mask nick)) (negate (is_match c.invex_mask nick)))

unfoldable pub is_invited : ℕ → Text → Channel → Verdict
is_invited id nick c =
    either (answer (not c.invite_only || contains ◌==◌ id c.invites)) (is_match c.invex_mask nick)

unfoldable pub can_talk : ℕ → Channel → Bool
unfolding has_voice
can_talk id c =
    if c.moderated
    then elim (get ◌==◌ id c.members) [ none ↦ false | some m ↦ has_voice m ]
    else not c.no_msg_from_outside || contains_key ◌==◌ id c.members

unfoldable pub can_invite : ℕ → Channel → Bool
unfolding is_at_least_halfop
can_invite id c = elim (get ◌==◌ id c.members) [
  | none ↦ false
  | some m ↦ if c.invite_only then is_at_least_halfop m else true
]

abbrev letter_if : Bool → ℕ → Text
letter_if true c = c ∷ []
letter_if false c = []

abbrev letter_if_some {ℓ} : {A : Type ℓ} → Option A → ℕ → Text
letter_if_some none c = []
letter_if_some (some a) c = c ∷ []

-- The letters that `Channel::modes` writes.
unfoldable pub mode_letters : Channel → Text
mode_letters c =
    b'+' ∷ letter_if c.invite_only b'i'
    ++ letter_if c.moderated b'm'
    ++ letter_if c.no_msg_from_outside b'n'
    ++ letter_if c.secret b's'
    ++ letter_if c.topic_restricted b't'
    ++ letter_if_some c.user_limit b'l'
    ++ letter_if_some c.key b'k'

unfoldable pub symbol : Channel → Text
symbol c = if c.secret then text "@" else text "="
