-- ===== src/Unicase.antt =====
-- Case-insensitive comparison of text: ellidri-unicase/src/lib.rs. The bytes of a text are given
-- by `utf8`, so that the comparison is the source's, byte for byte.
pub mod Laws
use ellidri.Prelude.{
  ℕ, suc, ◌+◌, ◌-◌, ◌/◌, ◌%◌, Bool, true, false, ◌&&◌, List, [], ◌∷◌, ◌++◌, Text, leb, ltb, ◌==◌,
  if◌then◌else◌, length,
}

-- The UTF-8 encoding of one character.
abbrev pub encode_utf8 : ℕ → List ℕ
encode_utf8 c =
    if ltb c 128
    then c ∷ []
    else if ltb c 2048
    then (192 + c / 64) ∷ (128 + c % 64) ∷ []
    else if ltb c 65536
    then (224 + c / 4096) ∷ (128 + c / 64 % 64) ∷ (128 + c % 64) ∷ []
    else (240 + c / 262144) ∷ (128 + c / 4096 % 64) ∷ (128 + c / 64 % 64) ∷ (128 + c % 64) ∷ []

abbrev pub utf8 : Text → List ℕ
utf8 [] = []
utf8 (c ∷ s) = encode_utf8 c ++ utf8 s

-- `u8::to_ascii_lowercase`
abbrev pub to_ascii_lowercase : ℕ → ℕ
to_ascii_lowercase b = if leb b'A' b && leb b b'Z' then b + 32 else b

-- A case mapping is its `canonical_byte`.
abbrev pub CaseMapping : Type 0
CaseMapping = ℕ → ℕ

unfoldable pub ascii : CaseMapping
ascii b = to_ascii_lowercase b

unfoldable pub rfc1459_strict : CaseMapping
unfolding ascii
rfc1459_strict b =
    if b == b'[' then b'{' else if b == b']' then b'}' else if b == 92 then 92 else ascii b

unfoldable pub rfc1459 : CaseMapping
unfolding rfc1459_strict
rfc1459 b = if b == b'~' then b'^' else rfc1459_strict b

-- The `all` over the zipped bytes.
unfoldable pub bytes_match : CaseMapping → List ℕ → List ℕ → Bool
bytes_match m [] ys = true
bytes_match m (x ∷ xs) [] = true
bytes_match m (x ∷ xs) (y ∷ ys) = m x == m y && bytes_match m xs ys

-- `PartialEq::eq` of `UniCase`
unfoldable pub unicase_eq : CaseMapping → Text → Text → Bool
unfolding bytes_match
unicase_eq m s t = length (utf8 s) == length (utf8 t) && bytes_match m (utf8 s) (utf8 t)

-- The bytes that `Hash::hash` writes to the hasher.
unfoldable pub hash_bytes : CaseMapping → List ℕ → List ℕ
hash_bytes m [] = []
hash_bytes m (x ∷ xs) = m x ∷ hash_bytes m xs

unfoldable pub unicase_hash : CaseMapping → Text → List ℕ
unfolding hash_bytes
unicase_hash m s = hash_bytes m (utf8 s)
