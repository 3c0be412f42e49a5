-- ===== src/Mask/Match/Panics.antt =====
-- Texts that are not ASCII, in `match_mask` of src/util.rs: its byte positions can fall inside a
-- character.
use ellidri.Prelude.{
  length, Text, len, ℕ, zero, suc, ◌≤◌, ◌<◌, ◌≡◌, refl, ◌∙◌, ◌≢◌, true, false, [], ◌∷◌, arith,
}
use ellidri.Mask.Match.{
  Verdict, panicked, match_mask, match_loop, round, scan, scan_at, after_scan, match_chunk,
  scan_chunk, cut_star, strip_stars, inside_char,
}

-- The first position after a wide character's first byte.
scan_wide :
    (chunk mask s : Text) (c k : ℕ) → 128 ≤ c → 0 < k → scan chunk mask (c ∷ s) k 0 ≡ inside_char
unfolding scan scan_at
scan_wide chunk mask s c zero h p = absurd (omega arith)
scan_wide chunk mask s c (suc k) h p = ground arith

len_pos : (c : ℕ) (s : Text) → 0 < len (c ∷ s)
len_pos c s = ground arith

cut-strip_plain :
    (d : ℕ) (rest : Text)
    → d ≢ b'*'
    → scan_chunk (b'*' ∷ d ∷ rest) ≡ (true, d ∷ (cut_star rest).0, (cut_star rest).1)
unfolding scan_chunk cut_star strip_stars
cut-strip_plain d rest h = ground arith

match_chunk_miss :
    (d c : ℕ) (chunk s : Text) → d ≢ b'?' → d ≢ c → match_chunk (d ∷ chunk) (c ∷ s) ≡ ([], false)
unfolding match_chunk
match_chunk_miss d c chunk s h k = ground arith

match_mask_lem : (mask s : Text) → match_mask mask s ≡ match_loop (length mask) mask s
unfolding match_mask
match_mask_lem mask s = refl

loop_step :
    (f m : ℕ) (ms s : Text)
    → match_loop (suc f) (m ∷ ms) s
      ≡ round (match_loop f (scan_chunk (m ∷ ms)).2) (scan_chunk (m ∷ ms)) s
unfolding match_loop
loop_step f m ms s = refl

round_panics :
    (go : Text → Verdict) (d : ℕ) (chunk mask : Text) (c : ℕ) (s : Text)
    → d ≢ b'?'
    → d ≢ c
    → 128 ≤ c
    → round go (true, d ∷ chunk, mask) (c ∷ s) ≡ panicked
unfolding round after_scan
round_panics go d chunk mask c s k l m = ground (
  arith,
  match_chunk_miss d c chunk s k l,
  scan_wide (d ∷ chunk) mask s c (len (c ∷ s)) m (len_pos c s),
)

-- A mask that begins with a star and a character other than `?` and `*` makes `match_mask` panic on
-- every text that begins with a different character of more than one byte.
pub match_mask-panics :
    (d : ℕ) (rest : Text) (c : ℕ) (s : Text)
    → d ≢ b'*'
    → d ≢ b'?'
    → d ≢ c
    → 128 ≤ c
    → match_mask (b'*' ∷ d ∷ rest) (c ∷ s) ≡ panicked
match_mask-panics d rest c s h k l m =
    match_mask_lem (b'*' ∷ d ∷ rest) (c ∷ s)
    ∙ loop_step (suc (length rest)) b'*' (d ∷ rest) (c ∷ s)
    ∙ rw (cut-strip_plain d rest h) (round_panics _ d (cut_star rest).0 (cut_star rest).1 c s k l m)
