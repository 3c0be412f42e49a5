-- ===== src/Mask/Match/Search.antt =====
-- The `for` of `match_mask` (src/util.rs) on ASCII texts: its slices are in range, and the leftmost
-- match of a chunk loses nothing.
use ellidri.Prelude.{
  ◌==◌, Bool-cases, &&-true, length, is_empty, Text, len, slice_from, ℕ, zero, suc, ◌+◌, ◌<◌, ◌≡◌,
  refl, sym, ap, ◌∙◌, inl, inr, Bool, true, false, ◌&&◌, some, [], ◌∷◌, ◌++◌, arith,
}
use mathlib.Core.Path.{fun_ext}
use mathlib.Core.Bool.{false≢true}
use ellidri.Mask.Glob.{
  glob, any_suffix, any_proper, glob_one, any_suffix-split, any_suffix-drop, any_suffix-twice,
  any_suffix-intro,
}
use ellidri.Mask.Match.{Verdict, answer, Scan, scan, scan_at, after_scan, match_chunk, exhausted}

abbrev pub IsAscii : Text → Type 0
IsAscii [] = Unit
IsAscii (c ∷ s) = (c < 128) × IsAscii s

abbrev pub NoStars : Text → Type 0
NoStars [] = Unit
NoStars (m ∷ ms) = ((m == b'*') ≡ false) × NoStars ms

abbrev pub StarOrEmpty : Text → Type 0
StarOrEmpty [] = Unit
StarOrEmpty (m ∷ ms) = (m == b'*') ≡ true

Bool-ext : (a b : Bool) → (a ≡ true → b ≡ true) → (b ≡ true → a ≡ true) → a ≡ b
Bool-ext a b f g = ground arith

pub match_chunk-IsAscii : (chunk s : Text) → IsAscii s → IsAscii (match_chunk chunk s).0
unfolding match_chunk
match_chunk-IsAscii [] s h = h
match_chunk-IsAscii (m ∷ chunk) [] h = tt
match_chunk-IsAscii (m ∷ chunk) (c ∷ s) h = ground (arith, match_chunk-IsAscii chunk s)

-- A chunk and what follows it.
pub glob-chunk :
    (chunk mask s : Text)
    → NoStars chunk
    → glob (chunk ++ mask) s ≡ ((match_chunk chunk s).1 && glob mask (match_chunk chunk s).0)
unfolding match_chunk glob glob_one
glob-chunk [] mask s h = refl
glob-chunk (m ∷ chunk) mask [] h = ground arith
glob-chunk (m ∷ chunk) mask (c ∷ s) h = ground (arith, glob-chunk chunk mask s)

glob_no_star :
    (m : ℕ) (ms s : Text) → (m == b'*') ≡ false → glob (m ∷ ms) s ≡ glob_one m (glob ms) s
unfolding glob
glob_no_star m ms s h = rw h

pub glob_star :
    (m : ℕ) (ms s : Text) → (m == b'*') ≡ true → glob (m ∷ ms) s ≡ any_suffix (glob ms) s
unfolding glob
glob_star m ms s h = rw h

pub any_suffix-glob_star :
    (m : ℕ) (ms t : Text) → (m == b'*') ≡ true → any_suffix (glob (m ∷ ms)) t ≡ glob (m ∷ ms) t
any_suffix-glob_star m ms t h =
    rw (fun_ext (λ s. glob_star m ms s h)) (any_suffix-twice (glob ms) t)

match_chunk-step :
    (m : ℕ) (chunk : Text) (c : ℕ) (s : Text)
    → (match_chunk (m ∷ chunk) (c ∷ s)).1 ≡ true
    → match_chunk (m ∷ chunk) (c ∷ s) ≡ match_chunk chunk s
unfolding match_chunk
match_chunk-step m chunk c s h = ground arith

-- A chunk that matches here: wherever it matches later, what follows it begins after this match.
leftmost :
    (chunk mask s : Text)
    → NoStars chunk
    → (match_chunk chunk s).1 ≡ true
    → any_suffix (glob (chunk ++ mask)) s ≡ true
    → any_suffix (glob mask) (match_chunk chunk s).0 ≡ true
leftmost [] mask s n h a = unfold match_chunk in a
leftmost (m ∷ chunk) mask [] n h a = absurd (false≢true (unfold match_chunk in h))
leftmost (m ∷ chunk) mask (c ∷ s) n h a =
    let e = match_chunk-step m chunk c s h in
    rw e (
      leftmost chunk mask s n.1 (rw e at h) (
        any_suffix-drop m (glob (chunk ++ mask)) c s
          (rw (fun_ext (λ t. glob_no_star m (chunk ++ mask) t n.0)) at a)))

-- A chunk under a star, where it matches at once and the mask goes on with a star.
pub search_here :
    (chunk : Text) (m : ℕ) (ms s : Text)
    → NoStars chunk
    → (m == b'*') ≡ true
    → (match_chunk chunk s).1 ≡ true
    → any_suffix (glob (chunk ++ m ∷ ms)) s ≡ glob (m ∷ ms) (match_chunk chunk s).0
search_here chunk m ms s n star h =
    Bool-ext _ _ (λ a. rw (any_suffix-glob_star m ms _ star) at (leftmost chunk (m ∷ ms) s n h a))
      (λ g. any_suffix-intro _ s (rw (glob-chunk chunk (m ∷ ms) s n, h, g) refl))

-- The `for` of the source, over the suffixes themselves.
first : Text → Text → Text → Scan
first chunk mask [] = exhausted
first chunk mask (c ∷ s) = scan_at chunk mask (some s) (first chunk mask s)

slice_from-suc :
    (s : Text) (i c : ℕ) (t : Text)
    → IsAscii s
    → slice_from s i ≡ some (c ∷ t)
    → slice_from s (i + 1) ≡ some t
slice_from-suc [] zero c t a h = cc
slice_from-suc [] (suc i) c t a h = cc
slice_from-suc (d ∷ s) zero c t a h = ground arith
slice_from-suc (d ∷ s) (suc i) c t a h = ground (arith, slice_from-suc s i c t a.1)

len-IsAscii : (s : Text) → IsAscii s → len s ≡ length s
len-IsAscii [] a = refl
len-IsAscii (c ∷ s) a = ground (arith, len-IsAscii s a.1)

scan-first :
    (chunk mask s t : Text) (i : ℕ)
    → IsAscii s
    → slice_from s i ≡ some t
    → scan chunk mask s (length t) i ≡ first chunk mask t
unfolding scan first
scan-first chunk mask s [] i a h = refl
scan-first chunk mask s (c ∷ t) i a h =
    let e = slice_from-suc s i c t a h in rw (e, scan-first chunk mask s t (i + 1) a e) refl

pub head_miss : (p : Text → Bool) (s : Text) → p s ≡ false → any_suffix p s ≡ any_proper p s
head_miss p s h = rw (any_suffix-split p s, h) refl

abbrev pub Answers : (Text → Verdict) → Text → Type 0
Answers go mask = (r : Text) → IsAscii r → go r ≡ answer (glob mask r)

pub glob_nil : (r : Text) → glob [] r ≡ is_empty r
unfolding glob
glob_nil [] = refl
glob_nil (c ∷ r) = refl

-- A chunk alone matches when it takes the whole text.
pub glob-chunk_alone :
    (chunk s : Text)
    → NoStars chunk
    → glob (chunk ++ []) s ≡ ((match_chunk chunk s).1 && is_empty (match_chunk chunk s).0)
glob-chunk_alone chunk s n =
    glob-chunk chunk [] s n ∙ ap (λ b. (match_chunk chunk s).1 && b) (glob_nil _)

module _ (go : Text → Verdict) (chunk : Text) (n : NoStars chunk) where
  after_scan-star :
      (m : ℕ) (ms s : Text)
      → (m == b'*') ≡ true
      → Answers go (m ∷ ms)
      → IsAscii s
      → after_scan go (first chunk (m ∷ ms) s) ≡ answer (any_proper (glob (chunk ++ m ∷ ms)) s)
  unfolding first scan_at after_scan any_proper
  after_scan-star m ms [] star ih a = refl
  after_scan-star m ms (c ∷ s) star ih a = elim (Bool-cases (match_chunk chunk s).1) [
    | inl hit ↦ rw hit (
        ih _ (match_chunk-IsAscii chunk s a.1)
        ∙ ap answer (sym (search_here chunk m ms s n star hit)))
    | inr miss ↦ rw miss (
        after_scan-star m ms s star ih a.1
        ∙ ap answer (
            sym (
              head_miss (glob (chunk ++ m ∷ ms)) s
                (rw (glob-chunk chunk (m ∷ ms) s n, miss) refl))))
  ]

  after_scan-empty :
      (s : Text)
      → Answers go []
      → IsAscii s
      → after_scan go (first chunk [] s) ≡ answer (any_proper (glob (chunk ++ [])) s)
  unfolding first scan_at after_scan any_proper
  after_scan-empty [] ih a = refl
  after_scan-empty (c ∷ s) ih a =
      elim (Bool-cases ((match_chunk chunk s).1 && is_empty (match_chunk chunk s).0)) [
        | inl hit ↦
            let (m, e) = &&-true (match_chunk chunk s).1 (is_empty (match_chunk chunk s).0) hit in
            rw (m, e)
              (ih _ (match_chunk-IsAscii chunk s a.1)
                ∙ ap answer (
                    glob_nil _ ∙ e ∙ sym (any_suffix-intro _ s (glob-chunk_alone chunk s n ∙ hit))))
        | inr miss ↦ ground (
          arith,
          after_scan-empty s ih a.1,
          head_miss (glob (chunk ++ [])) s (glob-chunk_alone chunk s n ∙ miss),
        )
      ]

  after_scan-first :
      (mask s : Text)
      → StarOrEmpty mask
      → Answers go mask
      → IsAscii s
      → after_scan go (first chunk mask s) ≡ answer (any_proper (glob (chunk ++ mask)) s)
  after_scan-first [] s e ih a = after_scan-empty s ih a
  after_scan-first (m ∷ ms) s e ih a = after_scan-star m ms s e ih a

  -- The search from the first byte on, as the source writes it.
  pub search-glob :
      (mask s : Text)
      → StarOrEmpty mask
      → Answers go mask
      → IsAscii s
      → after_scan go (scan chunk mask s (len s) 0) ≡ answer (any_proper (glob (chunk ++ mask)) s)
  search-glob mask s e ih a =
      rw (len-IsAscii s a, scan-first chunk mask s s 0 a refl) (after_scan-first mask s e ih a)
