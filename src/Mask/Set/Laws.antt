-- ===== src/Mask/Set/Laws.antt =====
-- What `insert`, `remove` and `is_match` of `MaskSet` (src/util.rs) do to the masks.
use ellidri.Prelude.{
  ltb, ◌==◌, Bool-cases, length, take, drop, any, length-append, Text, str_eq, split, str_eq_self,
  ℕ, suc, ◌+◌, ◌≡◌, refl, ap, ◌∙◌, ◌≢◌, inl, inr, true, false, some, List, [], ◌∷◌, ◌++◌,
  append-nil, append_assoc, arith,
}
use ellidri.Mask.Match.{answer}
use ellidri.Mask.Glob.{glob}
use ellidri.Mask.Match.Decides.{match_mask-glob}
use ellidri.Mask.Match.Search.{IsAscii}
use ellidri.Mask.Set.{MaskSet, masks, any_match, is_match, insert, remove, position, remove_range}

abbrev pub NoComma : Text → Type 0
NoComma [] = Unit
NoComma (c ∷ s) = (c ≢ b',') × NoComma s

any_match-glob :
    (ms : List Text) (s : Text) → IsAscii s → any_match ms s ≡ answer (any (λ m. glob m s) ms)
unfolding any_match
any_match-glob [] s a = refl
any_match-glob (m ∷ ms) s a = ground (arith, match_mask-glob m s a, any_match-glob ms s a)

-- An ASCII text is in a mask set exactly when one of the masks matches it.
pub is_match-glob :
    (set : MaskSet) (s : Text)
    → IsAscii s
    → is_match set s ≡ answer (any (λ m. glob m s) (masks set))
unfolding is_match
is_match-glob set s a = any_match-glob (masks set) s a

split-NoComma : (m : Text) → NoComma m → split b',' m ≡ m ∷ []
split-NoComma [] n = refl
split-NoComma (c ∷ m) n = ground (arith, split-NoComma m n.1)

pub split-ne-nil : (sep : ℕ) (s : Text) → (w : Text) × (ws : List Text) × (split sep s ≡ w ∷ ws)
split-ne-nil sep [] = ([], [], refl)
split-ne-nil sep (c ∷ s) =
    let (w, ws, e) = split-ne-nil sep s in
    elim (Bool-cases (c == sep)) [
      | inl h ↦ ([], split sep s, rw h refl)
      | inr h ↦ (c ∷ w, ws, rw h (rw e refl))
    ]

split-append : (s m : Text) → NoComma m → split b',' (s ++ b',' ∷ m) ≡ split b',' s ++ m ∷ []
split-append [] m n = rw (split-NoComma m n)
split-append (c ∷ s) m n =
    let (w, ws, e) = split-ne-nil b',' s in
    elim (Bool-cases (c == b',')) [
      | inl h ↦ rw h (rw (split-append s m n) refl)
      | inr h ↦ rw h (rw (split-append s m n, e) refl)
    ]

insert_new :
    (mask : Text) (set : MaskSet)
    → set.raw ≢ []
    → any (λ m. str_eq m mask) (masks set) ≡ false
    → insert mask set ≡ (record { raw = set.raw ++ b',' ∷ mask }, true)
unfolding insert masks
insert_new mask set e new = rw new (ground (arith, append_assoc set.raw (b',' ∷ []) mask))

-- A new mask without a comma comes behind the masks of a set that is not empty.
pub masks-insert :
    (mask : Text) (set : MaskSet)
    → NoComma mask
    → set.raw ≢ []
    → any (λ m. str_eq m mask) (masks set) ≡ false
    → (masks (insert mask set).0 ≡ masks set ++ mask ∷ []) × ((insert mask set).1 ≡ true)
unfolding masks
masks-insert mask set n e new = rw (insert_new mask set e new) (split-append set.raw mask n, refl)

-- The characters of the parts, each with the comma behind it.
total : List Text → ℕ
total [] = 0
total (p ∷ ps) = length p + 1 + total ps

total-split : (s : Text) → total (split b',' s) ≡ length s + 1
unfolding total
total-split [] = refl
total-split (c ∷ s) = let (w, ws, e) = split-ne-nil b',' s in ground (arith, total-split s, e)

position-append :
    (mask : Text) (ps : List Text) (k : ℕ)
    → any (λ m. str_eq m mask) ps ≡ false
    → position mask (ps ++ mask ∷ []) k ≡ some (k + total ps)
unfolding position total
position-append mask [] k h = ground (arith, str_eq_self mask)
position-append mask (p ∷ ps) k h = ground (arith, position-append mask ps (k + length p + 1))

take-append : (s t : Text) (c : ℕ) → take (suc (length s)) (s ++ c ∷ t) ≡ s ++ c ∷ []
take-append [] t c = refl
take-append (a ∷ s) t c = ap (λ r. a ∷ r) (take-append s t c)

drop-length : (s : Text) → drop (length s) s ≡ []
drop-length [] = refl
drop-length (a ∷ s) = drop-length s

not_before_end :
    (r mask : Text) → ltb (suc (length r) + length mask) (length (r ++ b',' ∷ mask)) ≡ false
not_before_end r mask = ground (arith, length-append r (b',' ∷ mask))

cut_last :
    (r mask : Text)
    → remove_range (suc (length r)) (suc (length r) + length mask) (r ++ b',' ∷ mask)
      ≡ r ++ b',' ∷ []
cut_last r mask =
    let e : suc (length r) + length mask ≡ length (r ++ b',' ∷ mask) =
      omega (arith, length-append r (b',' ∷ mask)) in
    rw (e, take-append r mask b',', drop-length (r ++ b',' ∷ mask)) (append-nil _)

remove_last :
    (mask r : Text)
    → NoComma mask
    → any (λ m. str_eq m mask) (split b',' r) ≡ false
    → remove mask (record { raw = r ++ b',' ∷ mask }) ≡ (record { raw = r ++ b',' ∷ [] }, true)
unfolding remove masks
remove_last mask r n new =
    let e : 0 + total (split b',' r) ≡ suc (length r) = omega (arith, total-split r) in
    let pos : position mask (split b',' (r ++ b',' ∷ mask)) 0 ≡ some (suc (length r)) =
      rw (split-append r mask n) (position-append mask (split b',' r) 0 new ∙ ap some e) in
    rw (pos, remove) (rw (not_before_end r mask) (rw (cut_last r mask) refl))

-- Where a mask without a comma, which is not in the set, is inserted into a set that is not empty and
-- then removed, its comma is left, so the set has the empty mask in its place.
pub remove-insert :
    (mask : Text) (set : MaskSet)
    → NoComma mask
    → set.raw ≢ []
    → any (λ m. str_eq m mask) (masks set) ≡ false
    → let (after, removed) = remove mask (insert mask set).0 in
      (masks after ≡ masks set ++ [] ∷ []) × (removed ≡ true)
unfolding masks
remove-insert mask set n e new =
    rw (insert_new mask set e new, remove_last mask set.raw n new)
      (split-append set.raw [] tt, refl)
