-- ===== src/Channel/Notice.antt =====
-- The MODE message that tells a channel's members what was applied: the variables `applied_modes`,
-- `applied_modeparams` and `last_applied_value` of `cmd_mode_channel_set` in src/state/v1.rs.
pub mod Laws
use ellidri.Mode
use ellidri.Mode.{ChannelChange, value}
use ellidri.Channel.Modes.{differ}
use ellidri.Prelude.{
  ltb, leb, ◌==◌, if◌then◌else◌, ==_iff, ==_self, Bool-cases, Option-cases, &&-true, length,
  is_empty, get_or, take, drop, any, all, keep, find, length-append, any-append, all-append, Text,
  text, len_utf8, len, str_eq, slice_from, slice_to, split, split_once, is_whitespace, trim_start,
  trim_end, trim, starts_with, str_eq_iff, str_eq_self, get, contains_key, put, delete, keys,
  contains, add, discard, ℕ, zero, suc, ◌+◌, ◌-◌, ◌*◌, ◌/◌, ◌%◌, ◌^◌, ◌≤◌, ◌<◌, min, String, ◌≡◌,
  refl, sym, ap, ap₂, ◌∙◌, ◌≢◌, ◌↔◌, ◌⊎◌, inl, inr, Bool, true, false, not, ◌&&◌, ◌||◌, Option,
  none, some, List, [], ◌∷◌, ◌++◌, map, append-nil, append_assoc, arith,
}

pub record Notice : Type 0 where
  pub applied_modes : Text
  pub applied_modeparams : List Text
  pub last_applied_value : Bool

abbrev pub start : Notice
start = record { applied_modes = []; applied_modeparams = []; last_applied_value = true }

abbrev pub sign : Bool → ℕ
sign true = b'+'
sign false = b'-'

abbrev pub param_list : Option Text → List Text
param_list none = []
param_list (some p) = p ∷ []

-- What the loop does for a change that was applied.
unfoldable pub note : Notice → ChannelChange → Notice
note n change =
    let v = value change in
    let new_sign = differ n.last_applied_value v || is_empty n.applied_modes in
    let signed = if new_sign then n.applied_modes ++ sign v ∷ [] else n.applied_modes in
    record {
      applied_modes = signed ++ Mode.symbol change ∷ [];
      applied_modeparams = n.applied_modeparams ++ param_list (Mode.param change);
      last_applied_value = if new_sign then v else n.last_applied_value;
    }

unfoldable pub note_all : Notice → List ChannelChange → Notice
unfolding note
note_all n [] = n
note_all n (change ∷ rest) = note_all (note n change) rest
