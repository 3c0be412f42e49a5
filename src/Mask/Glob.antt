-- ===== src/Mask/Glob.antt =====
-- What a mask of src/util.rs means, by plain recursion over the mask and the text: the reference
-- for `match_mask`, with no search order in it.
use ellidri.Prelude.{
  ◌==◌, if◌then◌else◌, Text, ℕ, ◌≡◌, refl, Bool, true, false, ◌&&◌, ◌||◌, [], ◌∷◌, arith,
}

-- One character of the mask that is no star against one of the text.
abbrev pub accepts : ℕ → ℕ → Bool
accepts m c = m == b'?' || m == c

-- Some suffix of the text meets the test.
unfoldable pub any_suffix : (Text → Bool) → Text → Bool
any_suffix p [] = p []
any_suffix p (c ∷ s) = p (c ∷ s) || any_suffix p s

unfoldable pub glob_one : ℕ → (Text → Bool) → Text → Bool
glob_one m p [] = false
glob_one m p (c ∷ s) = accepts m c && p s

unfoldable pub glob : Text → Text → Bool
unfolding any_suffix glob_one
glob [] [] = true
glob [] (c ∷ s) = false
glob (m ∷ ms) s = if m == b'*' then any_suffix (glob ms) s else glob_one m (glob ms) s

-- Some suffix that is not the whole text meets the test.
unfoldable pub any_proper : (Text → Bool) → Text → Bool
any_proper p [] = false
any_proper p (c ∷ s) = any_suffix p s

pub any_suffix-split : (p : Text → Bool) (s : Text) → any_suffix p s ≡ (p s || any_proper p s)
unfolding any_suffix any_proper
any_suffix-split p [] = ground arith
any_suffix-split p (c ∷ s) = refl

pub any_suffix-intro : (p : Text → Bool) (s : Text) → p s ≡ true → any_suffix p s ≡ true
any_suffix-intro p s h = rw any_suffix-split (ground arith)

pub any_suffix-later :
    (p : Text → Bool) (c : ℕ) (s : Text) → any_suffix p s ≡ true → any_suffix p (c ∷ s) ≡ true
unfolding any_suffix
any_suffix-later p c s h = ground arith

-- A star twice is a star once.
pub any_suffix-twice : (p : Text → Bool) (s : Text) → any_suffix (any_suffix p) s ≡ any_suffix p s
unfolding any_suffix
any_suffix-twice p [] = refl
any_suffix-twice p (c ∷ s) = ground (arith, any_suffix-twice p s)

-- Why the leftmost match of a character loses nothing before a star: wherever else it matches, the
-- rest of the mask begins after the first character of the text.
pub any_suffix-drop :
    (m : ℕ) (p : Text → Bool) (c : ℕ) (s : Text)
    → any_suffix (glob_one m p) (c ∷ s) ≡ true
    → any_suffix p s ≡ true
unfolding any_suffix glob_one
any_suffix-drop m p c [] h = ground arith
any_suffix-drop m p c (d ∷ s) h =
    ground (arith, any_suffix-drop m p d s, any_suffix-intro p (d ∷ s))

-- A lone star matches any text.
pub any_suffix-glob_empty : (s : Text) → any_suffix (glob []) s ≡ true
unfolding any_suffix glob
any_suffix-glob_empty [] = refl
any_suffix-glob_empty (c ∷ s) = rw (any_suffix-glob_empty s)
