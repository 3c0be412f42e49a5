-- ===== src/Prelude/Maps.antt =====
-- Hash maps and sets as lists of their entries. The order of the list stands for the order in which
-- the map is iterated; a new key goes last. Keys are compared by a Boolean test.
use mathlib.Core.Path.{◌≡◌, refl}
use mathlib.Core.Bool.{Bool, true, false, ◌||◌}
use mathlib.Core.Option.{Option, none, some}
use mathlib.Core.List.{List, [], ◌∷◌, ◌++◌}
use native.Mathlib.Omega.{arith}
use ellidri.Prelude.Tests.{if◌then◌else◌}

module _ {ℓ κ} {K : Type ℓ} {V : Type κ} (same : K → K → Bool) where
  abbrev pub get : K → List (K × V) → Option V
  get k [] = none
  get k ((j, v) ∷ m) = if same j k then some v else get k m

  abbrev pub contains_key : K → List (K × V) → Bool
  contains_key k [] = false
  contains_key k ((j, v) ∷ m) = same j k || contains_key k m

  -- `insert`: the old key stays, with the new value.
  abbrev pub put : K → V → List (K × V) → List (K × V)
  put k v [] = (k, v) ∷ []
  put k v ((j, w) ∷ m) = let rest = put k v m in if same j k then (j, v) ∷ m else (j, w) ∷ rest

  abbrev pub delete : K → List (K × V) → List (K × V)
  delete k [] = []
  delete k ((j, v) ∷ m) = let rest = delete k m in if same j k then rest else (j, v) ∷ rest

abbrev pub keys {ℓ κ} : {K : Type ℓ} {V : Type κ} → List (K × V) → List K
keys [] = []
keys ((k, v) ∷ m) = k ∷ keys m

module _ {ℓ} {K : Type ℓ} (same : K → K → Bool) where
  abbrev pub contains : K → List K → Bool
  contains k [] = false
  contains k (j ∷ ks) = same j k || contains k ks

  abbrev pub add : K → List K → List K
  add k ks = if contains k ks then ks else ks ++ k ∷ []

  abbrev pub discard : K → List K → List K
  discard k [] = []
  discard k (j ∷ ks) = let rest = discard k ks in if same j k then rest else j ∷ rest

module _ {ℓ κ} {K : Type ℓ} {V : Type κ} (same : K → K → Bool) where
  pub put_new :
      (k : K) (v : V) (m : List (K × V))
      → contains_key same k m ≡ false
      → put same k v m ≡ m ++ (k, v) ∷ []
  put_new k v [] h = refl
  put_new k v ((j, w) ∷ m) h = ground (arith, put_new k v m)

  pub contains_key-put :
      (k : K) (v : V) (m : List (K × V))
      → same k k ≡ true
      → contains_key same k (put same k v m) ≡ true
  contains_key-put k v [] h = rw h refl
  contains_key-put k v ((j, w) ∷ m) h = ground (arith, contains_key-put k v m h)

  pub contains_key-delete :
      (k : K) (m : List (K × V)) → contains_key same k (delete same k m) ≡ false
  contains_key-delete k [] = refl
  contains_key-delete k ((j, v) ∷ m) = ground (arith, contains_key-delete k m)

  pub contains_key-get :
      (k : K) (m : List (K × V)) → get same k m ≡ none → contains_key same k m ≡ false
  contains_key-get k [] h = refl
  contains_key-get k ((j, v) ∷ m) h = ground (arith, contains_key-get k m)

pub contains-discard {ℓ} :
    {K : Type ℓ} (same : K → K → Bool) (k : K) (ks : List K)
    → contains same k (discard same k ks) ≡ false
contains-discard same k [] = refl
contains-discard same k (j ∷ ks) = ground (arith, contains-discard same k ks)

pub get_absent {ℓ κ} :
    {K : Type ℓ} {V : Type κ} (same : K → K → Bool) (k : K) (m : List (K × V))
    → contains_key same k m ≡ false
    → get same k m ≡ none
get_absent same k [] h = refl
get_absent same k ((j, v) ∷ m) h = ground (arith, get_absent same k m)
