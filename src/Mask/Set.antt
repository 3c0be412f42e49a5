-- ===== src/Mask/Set.antt =====
-- `MaskSet` of src/util.rs: masks in one text, joined by commas. The positions that `remove` takes
-- from pointers are those of a part of the text, so they are counted in characters here.
pub mod Laws
use ellidri.Prelude.{
  ltb, leb, ◌==◌, if◌then◌else◌, ==_iff, ==_self, Bool-cases, Option-cases, &&-true, length,
  is_empty, get_or, take, drop, any, all, keep, find, length-append, any-append, all-append, Text,
  text, len_utf8, len, str_eq, slice_from, slice_to, split, split_once, is_whitespace, trim_start,
  trim_end, trim, starts_with, str_eq_iff, str_eq_self, ℕ, zero, suc, ◌+◌, ◌-◌, ◌*◌, ◌/◌, ◌%◌, ◌^◌,
  ◌≤◌, ◌<◌, min, String, ◌≡◌, refl, sym, ap, ap₂, ◌∙◌, ◌≢◌, ◌↔◌, ◌⊎◌, inl, inr, Bool, true, false,
  not, ◌&&◌, ◌||◌, Option, none, some, List, [], ◌∷◌, ◌++◌, map, append-nil, append_assoc, arith,
}
use ellidri.Mask.Match.{Verdict, answer, match_mask, panicked, out_of_fuel}

pub record MaskSet : Type 0 where
  pub raw : Text

abbrev pub empty : MaskSet
empty = record { raw = [] }

unfoldable pub masks : MaskSet → List Text
masks set = split b',' set.raw

-- `any` of the iterator: it stops at the first mask that matches.
any_match : List Text → Text → Verdict
any_match [] s = answer false
any_match (mask ∷ rest) s =
    let later = any_match rest s in
    elim (match_mask mask s) [
      | answer b ↦ if b then answer true else later
      | panicked ↦ panicked
      | out_of_fuel ↦ out_of_fuel
    ]

unfoldable pub is_match : MaskSet → Text → Verdict
unfolding masks any_match
is_match set s = any_match (masks set) s

unfoldable pub insert : Text → MaskSet → MaskSet × Bool
unfolding masks
insert mask set =
    if any (λ m. str_eq m mask) (masks set)
    then (set, false)
    else (record { raw = (if is_empty set.raw then [] else set.raw ++ b',' ∷ []) ++ mask }, true)

-- Where the first part that is the mask begins.
position : Text → List Text → ℕ → Option ℕ
position mask [] at_char = none
position mask (part ∷ rest) at_char =
    if str_eq part mask then some at_char else position mask rest (at_char + length part + 1)

-- `replace_range(start..end, "")`
abbrev pub remove_range : ℕ → ℕ → Text → Text
remove_range start stop s = take start s ++ drop stop s

unfoldable pub remove : Text → MaskSet → MaskSet × Bool
unfolding masks position
remove mask set = elim (position mask (masks set) 0) [
  | none ↦ (set, false)
  | some start ↦
      let stop = start + length mask in
      let stop' = if ltb stop (length set.raw) then stop + 1 else stop in
      (record { raw = remove_range start stop' set.raw }, true)
]
