-- ===== src/Unicase/Laws.antt =====
-- Equality and hashing of ellidri-unicase/src/lib.rs agree, and what the three mappings identify.
use ellidri.Prelude.{
  ℕ, ◌+◌, ◌≤◌, ◌≡◌, refl, sym, ◌∙◌, ◌↔◌, ◌⊎◌, true, ◌&&◌, List, [], ◌∷◌, Text, arith, ◌==◌, length,
  &&-true,
}
use ellidri.Unicase.{
  CaseMapping, ascii, rfc1459_strict, bytes_match, unicase_eq, hash_bytes, unicase_hash, utf8,
}

bytes_match→hash :
    (m : CaseMapping) (xs ys : List ℕ)
    → (length xs == length ys) ≡ true
    → bytes_match m xs ys ≡ true
    → hash_bytes m xs ≡ hash_bytes m ys
unfolding bytes_match hash_bytes
bytes_match→hash m [] [] l h = refl
bytes_match→hash m [] (y ∷ ys) l h = ground arith
bytes_match→hash m (x ∷ xs) [] l h = ground arith
bytes_match→hash m (x ∷ xs) (y ∷ ys) l h = ground (arith, bytes_match→hash m xs ys)

hash→bytes_match :
    (m : CaseMapping) (xs ys : List ℕ)
    → hash_bytes m xs ≡ hash_bytes m ys
    → ((length xs == length ys) && bytes_match m xs ys) ≡ true
unfolding bytes_match hash_bytes
hash→bytes_match m [] [] h = refl
hash→bytes_match m [] (y ∷ ys) h = cc
hash→bytes_match m (x ∷ xs) [] h = cc
hash→bytes_match m (x ∷ xs) (y ∷ ys) h = ground (arith, hash→bytes_match m xs ys)

-- Two texts are equal under a mapping exactly when their hashes are fed the same bytes.
pub unicase_eq_iff-hash :
    (m : CaseMapping) (s t : Text)
    → (unicase_eq m s t ≡ true) ↔ (unicase_hash m s ≡ unicase_hash m t)
unfolding unicase_eq unicase_hash
unicase_eq_iff-hash m s t = (
  λ h.
      let (l, b) = &&-true (length (utf8 s) == length (utf8 t)) _ h in
      bytes_match→hash m (utf8 s) (utf8 t) l b,
  hash→bytes_match m (utf8 s) (utf8 t),
)

pub unicase_eq_refl : (m : CaseMapping) (s : Text) → unicase_eq m s s ≡ true
unicase_eq_refl m s = (unicase_eq_iff-hash m s s).1 refl

pub unicase_eq_sym :
    (m : CaseMapping) (s t : Text) → unicase_eq m s t ≡ true → unicase_eq m t s ≡ true
unicase_eq_sym m s t h = (unicase_eq_iff-hash m t s).1 (sym ((unicase_eq_iff-hash m s t).0 h))

pub unicase_eq_trans :
    (m : CaseMapping) (r s t : Text)
    → unicase_eq m r s ≡ true
    → unicase_eq m s t ≡ true
    → unicase_eq m r t ≡ true
unicase_eq_trans m r s t h k =
    (unicase_eq_iff-hash m r t).1
      ((unicase_eq_iff-hash m r s).0 h ∙ (unicase_eq_iff-hash m s t).0 k)

-- The ASCII mapping identifies two bytes exactly when they are one byte, or the two cases of one
-- ASCII letter.
pub ascii_identifies :
    (a b : ℕ)
    → (ascii a ≡ ascii b) ↔ (
        (a ≡ b)
        ⊎ ((b'A' ≤ a) × (a ≤ b'Z') × (b ≡ a + 32))
        ⊎ ((b'A' ≤ b) × (b ≤ b'Z') × (a ≡ b + 32)))
unfolding ascii
ascii_identifies a b = (λ h. ground arith, λ h. ground arith)

-- Under the strict mapping of RFC 1459, `[` matches `{` and `]` matches `}`, but the backslash
-- matches no byte but itself.
pub strict_backslash_alone :
    (b : ℕ)
    → (rfc1459_strict b'[' ≡ rfc1459_strict b'{')
      × (rfc1459_strict b']' ≡ rfc1459_strict b'}')
      × (rfc1459_strict b ≡ rfc1459_strict 92 → b ≡ 92)
unfolding rfc1459_strict
strict_backslash_alone b = (refl, refl, λ h. ground arith)
