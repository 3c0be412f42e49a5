-- ===== src/Mask/Match/Decides.antt =====
-- `match_mask` of src/util.rs decides `glob` on ASCII texts, and its loop ends.
use mathlib.Core.Path.{fun_ext}
use ellidri.Prelude.{
  ◌==◌, Bool-cases, length, is_empty, Text, len, ℕ, zero, suc, ◌≤◌, ◌≡◌, refl, sym, ap, ◌∙◌, inl,
  inr, true, false, [], ◌∷◌, ◌++◌, arith,
}
use ellidri.Mask.Glob.{glob, any_suffix, any_suffix-split, any_suffix-twice, any_suffix-glob_empty}
use ellidri.Mask.Match.{
  Verdict, answer, round, match_chunk, cut_star, strip_stars, scan_chunk, match_loop, match_mask,
}
use ellidri.Mask.Match.Search.{
  IsAscii, NoStars, StarOrEmpty, Answers, search-glob, search_here, glob-chunk, glob-chunk_alone,
  glob_nil, match_chunk-IsAscii, glob_star,
}

module _ (go : Text → Verdict) (chunk : Text) (n : NoStars chunk) where
  -- A round after no star: the chunk has to match here.
  round_plain :
      (mask s : Text)
      → StarOrEmpty mask
      → Answers go mask
      → IsAscii s
      → round go (false, chunk, mask) s ≡ answer (glob (chunk ++ mask) s)
  unfolding round
  round_plain [] s e ih a = ground (
    arith,
    glob-chunk_alone chunk s n,
    ih (match_chunk chunk s).0 (match_chunk-IsAscii chunk s a),
    glob_nil (match_chunk chunk s).0,
  )
  round_plain (m ∷ ms) s e ih a = ground (
    arith,
    glob-chunk chunk (m ∷ ms) s n,
    ih (match_chunk chunk s).0 (match_chunk-IsAscii chunk s a),
  )

  -- A round after a star: the chunk may match anywhere.
  round_star :
      (mask s : Text)
      → is_empty chunk ≡ false
      → StarOrEmpty mask
      → Answers go mask
      → IsAscii s
      → round go (true, chunk, mask) s ≡ answer (any_suffix (glob (chunk ++ mask)) s)
  unfolding round
  round_star [] s c e ih a = ground (
    arith,
    glob-chunk_alone chunk s n,
    ih (match_chunk chunk s).0 (match_chunk-IsAscii chunk s a),
    glob_nil (match_chunk chunk s).0,
    any_suffix-split (glob (chunk ++ [])) s,
    search-glob go chunk n [] s e ih a,
  )
  round_star (m ∷ ms) s c e ih a = ground (
    arith,
    glob-chunk chunk (m ∷ ms) s n,
    ih (match_chunk chunk s).0 (match_chunk-IsAscii chunk s a),
    search_here chunk m ms s n e,
    any_suffix-split (glob (chunk ++ m ∷ ms)) s,
    search-glob go chunk n (m ∷ ms) s e ih a,
  )

-- The two parts of a mask without a leading star are the mask: a chunk, then a star or nothing.
cut_star-append : (b : Text) → (cut_star b).0 ++ (cut_star b).1 ≡ b
unfolding cut_star
cut_star-append [] = refl
cut_star-append (c ∷ b) = ground (arith, cut_star-append b)

cut_star-NoStars : (b : Text) → NoStars (cut_star b).0
unfolding cut_star
cut_star-NoStars [] = tt
cut_star-NoStars (c ∷ b) = ground (arith, cut_star-NoStars b)

cut_star-StarOrEmpty : (b : Text) → StarOrEmpty (cut_star b).1
unfolding cut_star
cut_star-StarOrEmpty [] = tt
cut_star-StarOrEmpty (c ∷ b) = ground (arith, cut_star-StarOrEmpty b)

length-cut_star : (b : Text) → length (cut_star b).1 ≤ length b
unfolding cut_star
length-cut_star [] = omega arith
length-cut_star (c ∷ b) = ground (arith, length-cut_star b)

length-strip_stars : (b : Text) → length (strip_stars b) ≤ length b
unfolding strip_stars
length-strip_stars [] = omega arith
length-strip_stars (c ∷ b) = ground (arith, length-strip_stars b)

len-strip_stars : (b : Text) → len (strip_stars b) ≤ len b
unfolding strip_stars
len-strip_stars [] = omega arith
len-strip_stars (c ∷ b) = ground (arith, len-strip_stars b)

any_suffix-strip_stars : (b s : Text) → any_suffix (glob (strip_stars b)) s ≡ any_suffix (glob b) s
unfolding strip_stars
any_suffix-strip_stars [] s = refl
any_suffix-strip_stars (c ∷ b) s = elim (Bool-cases (c == b'*')) [
  | inl e ↦ rw e (
      any_suffix-strip_stars b s
      ∙ sym (any_suffix-twice (glob b) s)
      ∙ ap (λ p. any_suffix p s) (sym (fun_ext (λ t. glob_star c b t e))))
  | inr e ↦ rw e refl
]

-- The chunk is empty only where the whole mask is stars.
strip_stars-chunk : (b : Text) → is_empty (cut_star (strip_stars b)).0 ≡ true → strip_stars b ≡ []
unfolding strip_stars cut_star
strip_stars-chunk [] h = refl
strip_stars-chunk (c ∷ b) h = ground (arith, strip_stars-chunk b)

scan_chunk-star :
    (m : ℕ) (ms : Text)
    → (m == b'*') ≡ true
    → scan_chunk (m ∷ ms) ≡ (true, (cut_star (strip_stars ms)).0, (cut_star (strip_stars ms)).1)
unfolding scan_chunk strip_stars
scan_chunk-star m ms e = ground (arith, len-strip_stars ms)

scan_chunk-plain :
    (m : ℕ) (ms : Text)
    → (m == b'*') ≡ false
    → scan_chunk (m ∷ ms) ≡ (false, (cut_star (m ∷ ms)).0, (cut_star (m ∷ ms)).1)
unfolding scan_chunk strip_stars
scan_chunk-plain m ms e = ground arith

round_only_stars :
    (go : Text → Verdict) (chunk mask s : Text)
    → is_empty chunk ≡ true
    → round go (true, chunk, mask) s ≡ answer true
unfolding round
round_only_stars go chunk mask s e = ground arith

-- What a star before `ms` matches, by the parts that `scan_chunk` cuts.
glob-star_parts :
    (m : ℕ) (ms s : Text)
    → (m == b'*') ≡ true
    → any_suffix (glob ((cut_star (strip_stars ms)).0 ++ (cut_star (strip_stars ms)).1)) s
      ≡ glob (m ∷ ms) s
glob-star_parts m ms s e =
    rw (cut_star-append (strip_stars ms)) (any_suffix-strip_stars ms s ∙ sym (glob_star m ms s e))

-- A round against the mask that `scan_chunk` has cut.
round-glob :
    (go : Text → Verdict) (m : ℕ) (ms s : Text)
    → Answers go (scan_chunk (m ∷ ms)).2
    → IsAscii s
    → round go (scan_chunk (m ∷ ms)) s ≡ answer (glob (m ∷ ms) s)
round-glob go m ms s ih a = elim (Bool-cases (m == b'*')) [
  | inl e ↦
      let cut = cut_star (strip_stars ms) in
      rw (scan_chunk-star m ms e) (elim (Bool-cases (is_empty cut.0)) [
        | inl only ↦
            round_only_stars go cut.0 cut.1 s only
            ∙ ap answer (
                sym (
                  glob_star m ms s e
                  ∙ sym (any_suffix-strip_stars ms s)
                  ∙ rw (strip_stars-chunk ms only) (any_suffix-glob_empty s)))
        | inr more ↦
            round_star go cut.0 (cut_star-NoStars (strip_stars ms)) cut.1 s more
              (cut_star-StarOrEmpty (strip_stars ms)) (rw (scan_chunk-star m ms e) at ih) a
            ∙ ap answer (glob-star_parts m ms s e)
      ])
  | inr e ↦
      let cut = cut_star (m ∷ ms) in
      rw (scan_chunk-plain m ms e) (
        round_plain go cut.0 (cut_star-NoStars (m ∷ ms)) cut.1 s (cut_star-StarOrEmpty (m ∷ ms))
          (rw (scan_chunk-plain m ms e) at ih) a
        ∙ ap (λ b. answer (glob b s)) (cut_star-append (m ∷ ms)))
]

-- Each round shortens the mask.
length-scan_chunk : (m : ℕ) (ms : Text) → length (scan_chunk (m ∷ ms)).2 ≤ length ms
unfolding cut_star
length-scan_chunk m ms = elim (Bool-cases (m == b'*')) [
  | inl e ↦
      rw (scan_chunk-star m ms e)
        (omega (arith, length-cut_star (strip_stars ms), length-strip_stars ms))
  | inr e ↦ rw (scan_chunk-plain m ms e) (rw e (length-cut_star ms))
]

match_loop-glob :
    (f : ℕ) (mask s : Text)
    → length mask ≤ f
    → IsAscii s
    → match_loop f mask s ≡ answer (glob mask s)
unfolding match_loop
match_loop-glob f [] s h a = ap answer (sym (glob_nil s))
match_loop-glob zero (m ∷ ms) s h a = absurd (omega arith)
match_loop-glob (suc f) (m ∷ ms) s h a =
    round-glob (match_loop f (scan_chunk (m ∷ ms)).2) m ms s
      (λ r ra.
        match_loop-glob f (scan_chunk (m ∷ ms)).2 r (omega (arith, length-scan_chunk m ms)) ra)
      a

-- On a text of ASCII characters, `match_mask` ends within its fuel, slices in range, and answers
-- whether the mask matches the whole text, as `glob` says it.
pub match_mask-glob : (mask s : Text) → IsAscii s → match_mask mask s ≡ answer (glob mask s)
unfolding match_mask
match_mask-glob mask s a = match_loop-glob (length mask) mask s (omega arith) a
