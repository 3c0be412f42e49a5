-- ===== src/Prelude/Strings.antt =====
-- A Rust `str` as the list of its characters, each a code point, with its length in UTF-8 bytes.
-- Byte ranges are cut as Rust cuts them: a bound inside a character is a panic, here `none`.
use Prim.Native.Nat.{ℕ, zero, suc, ◌+◌, ◌-◌}
use Prim.Native.Char.{code}
use Prim.Native.String.{String}
use mathlib.Core.Path.{◌≡◌, refl}
use mathlib.Core.Logic.{◌↔◌}
use mathlib.Core.Bool.{Bool, true, false, ◌&&◌, ◌||◌}
use mathlib.Core.Option.{Option, none, some}
use mathlib.Core.List.{List, [], ◌∷◌}
use native.Mathlib.Omega.{arith}
use ellidri.Prelude.Tests.{ltb, leb, ◌==◌, if◌then◌else◌}
use ellidri.Prelude.Lists.{is_empty}

abbrev pub Text : Type 0
Text = List ℕ

abbrev pub text : String → Text
text String.[] = []
text (String.◌∷◌ c s) = code c ∷ text s

-- `char::len_utf8`
abbrev pub len_utf8 : ℕ → ℕ
len_utf8 c = if ltb c 128 then 1 else if ltb c 2048 then 2 else if ltb c 65536 then 3 else 4

-- `str::len`
abbrev pub len : Text → ℕ
len [] = 0
len (c ∷ s) = len_utf8 c + len s

abbrev pub str_eq : Text → Text → Bool
str_eq [] [] = true
str_eq (a ∷ s) (b ∷ t) = a == b && str_eq s t
str_eq _ _ = false

-- `&s[n..]`
abbrev pub slice_from : Text → ℕ → Option Text
slice_from s zero = some s
slice_from [] (suc n) = none
slice_from (c ∷ s) (suc n) =
    if leb (len_utf8 c) (suc n) then slice_from s (suc n - len_utf8 c) else none

-- `&s[..n]`
abbrev pub slice_to : Text → ℕ → Option Text
slice_to s zero = some []
slice_to [] (suc n) = none
slice_to (c ∷ s) (suc n) =
    let rest = slice_to s (suc n - len_utf8 c) in
    if leb (len_utf8 c) (suc n) then elim rest [ none ↦ none | some r ↦ some (c ∷ r) ] else none

abbrev cons_first : ℕ → List Text → List Text
cons_first c [] = (c ∷ []) ∷ []
cons_first c (w ∷ ws) = (c ∷ w) ∷ ws

-- `s.split(sep)`: one more part than there are separators.
abbrev pub split : ℕ → Text → List Text
split sep [] = [] ∷ []
split sep (c ∷ s) = let rest = split sep s in if c == sep then [] ∷ rest else cons_first c rest

-- `s.splitn(2, sep)`: the text before the first separator, and what follows it if there is one.
abbrev pub split_once : ℕ → Text → Text × Option Text
split_once sep [] = ([], none)
split_once sep (c ∷ s) =
    let rest = split_once sep s in if c == sep then ([], some s) else (c ∷ rest.0, rest.1)

-- `char::is_whitespace`: the Unicode property White_Space.
abbrev pub is_whitespace : ℕ → Bool
is_whitespace c =
    (leb 9 c && leb c 13)
    || c == 0x20
    || c == 0x85
    || c == 0xa0
    || c == 0x1680
    || (leb 0x2000 c && leb c 0x200a)
    || c == 0x2028
    || c == 0x2029
    || c == 0x202f
    || c == 0x205f
    || c == 0x3000

abbrev pub trim_start : Text → Text
trim_start [] = []
trim_start (c ∷ s) = let rest = trim_start s in if is_whitespace c then rest else c ∷ s

abbrev pub trim_end : Text → Text
trim_end [] = []
trim_end (c ∷ s) =
    let rest = trim_end s in if is_whitespace c && is_empty rest then [] else c ∷ rest

abbrev pub trim : Text → Text
trim s = trim_end (trim_start s)

-- `s.starts_with(c)` for a character
abbrev pub starts_with : Text → ℕ → Bool
starts_with [] c = false
starts_with (a ∷ s) c = a == c

pub str_eq_iff : (s t : Text) → (str_eq s t ≡ true) ↔ (s ≡ t)
str_eq_iff [] [] = (λ _. refl, λ _. refl)
str_eq_iff [] (b ∷ t) = (λ h. cc, λ h. cc)
str_eq_iff (a ∷ s) [] = (λ h. cc, λ h. cc)
str_eq_iff (a ∷ s) (b ∷ t) = ground (arith, str_eq_iff s t)

pub str_eq_self : (s : Text) → str_eq s s ≡ true
str_eq_self s = (str_eq_iff s s).1 refl
