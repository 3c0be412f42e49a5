-- ===== src/Prelude/Lookup.antt =====
-- Lookups in a map that was changed, for a test that is an equivalence.
use mathlib.Core.Path.{◌≡◌, refl}
use mathlib.Core.Bool.{Bool, true, false}
use mathlib.Core.Option.{none, some}
use mathlib.Core.List.{List, [], ◌∷◌}
use native.Mathlib.Omega.{arith}
use ellidri.Prelude.Tests.{if◌then◌else◌, ◌==◌}
use ellidri.Prelude.Lists.{is_empty}
use ellidri.Prelude.Maps.{get, put, delete, contains_key}

pub record IsSame {ℓ} {K : Type ℓ} (same : K → K → Bool) : Type ℓ where
  pub same_refl : (a : K) → same a a ≡ true
  pub same_sym : (a b : K) → same a b ≡ true → same b a ≡ true
  pub same_trans : (a b c : K) → same a b ≡ true → same b c ≡ true → same a c ≡ true

-- A lookup of the key that was put finds the new value, one of another key what it found before.
pub get-put {ℓ κ} :
    {K : Type ℓ} {V : Type κ} {same : K → K → Bool}
    → IsSame same
    → (k n : K) (v : V) (m : List (K × V))
    → get same n (put same k v m) ≡ (if same k n then some v else get same n m)
get-put e k n v [] = refl
get-put e k n v ((j, w) ∷ m) = ground (
  arith,
  get-put e k n v m,
  e.same_sym j k,
  e.same_sym k n,
  e.same_trans j k n,
  e.same_trans k j n,
  e.same_sym n k,
  e.same_trans j n k,
  e.same_sym k j,
)

-- A key that was deleted is not found; the others are found as before.
pub get-delete {ℓ κ} :
    {K : Type ℓ} {V : Type κ} {same : K → K → Bool}
    → IsSame same
    → (k n : K) (m : List (K × V))
    → get same n (delete same k m) ≡ (if same k n then none else get same n m)
get-delete e k n [] = ground arith
get-delete e k n ((j, w) ∷ m) = ground (
  arith,
  get-delete e k n m,
  e.same_sym j k,
  e.same_trans k j n,
  e.same_sym k n,
  e.same_trans j n k,
  e.same_sym n k,
)

pub ==-IsSame : IsSame ◌==◌
==-IsSame = record {
  same_refl = λ a. ground arith;
  same_sym = λ a b h. ground arith;
  same_trans = λ a b c h k. ground arith;
}

-- What is found after a deletion was there, under another key.
pub get-delete-some {ℓ κ} :
    {K : Type ℓ} {V : Type κ} {same : K → K → Bool}
    → IsSame same
    → (k n : K) (m : List (K × V)) (v : V) → get same n (delete same k m) ≡ some v
    → (same k n ≡ false) × (get same n m ≡ some v)
get-delete-some e k n m v h = ground (arith, get-delete e k n m)

pub contains_key-delete_iff {ℓ κ} :
    {K : Type ℓ} {V : Type κ} {same : K → K → Bool}
    → IsSame same
    → (k n : K) (m : List (K × V))
    → contains_key same n (delete same k m) ≡ (if same k n then false else contains_key same n m)
contains_key-delete_iff e k n [] = ground arith
contains_key-delete_iff e k n ((j, w) ∷ m) = ground (
  arith,
  contains_key-delete_iff e k n m,
  e.same_sym j k,
  e.same_trans k j n,
  e.same_sym k n,
  e.same_trans j n k,
  e.same_sym n k,
)

pub empty_has_none {ℓ κ} :
    {K : Type ℓ} {V : Type κ} (same : K → K → Bool) (n : K) (m : List (K × V))
    → is_empty m ≡ true
    → contains_key same n m ≡ false
empty_has_none same n [] h = refl
empty_has_none same n (e ∷ m) h = ground arith

-- Keys that are the same find the same.
pub get-same {ℓ κ} :
    {K : Type ℓ} {V : Type κ} {same : K → K → Bool}
    → IsSame same
    → (k n : K) (m : List (K × V)) → same k n ≡ true
    → get same n m ≡ get same k m
get-same e k n [] h = refl
get-same e k n ((j, w) ∷ m) h =
    ground (arith, get-same e k n m h, e.same_trans j k n, e.same_trans j n k, e.same_sym k n)
