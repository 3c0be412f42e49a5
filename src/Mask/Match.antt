-- ===== src/Mask/Match.antt =====
-- `match_mask` of src/util.rs. The mask gets shorter each round of its loop, which runs on fuel;
-- Match/Decides.antt proves the fuel enough.
pub mod Search
pub mod Decides
pub mod Panics
use ellidri.Prelude.{
  ℕ, zero, suc, ◌+◌, Bool, true, false, not, ◌&&◌, ◌||◌, Option, none, some, [], ◌∷◌, Text, len,
  slice_from, ltb, ◌==◌, if◌then◌else◌, length, is_empty,
}

pub data Verdict : Type 0 where
  answer : Bool → Verdict
  panicked : Verdict
  out_of_fuel : Verdict

-- `mask.trim_start_matches('*')`
unfoldable pub strip_stars : Text → Text
strip_stars [] = []
strip_stars (c ∷ s) = let rest = strip_stars s in if c == b'*' then rest else c ∷ s

-- The text before the first star, and the rest from that star on.
unfoldable pub cut_star : Text → Text × Text
cut_star [] = ([], [])
cut_star (c ∷ s) = let rest = cut_star s in if c == b'*' then ([], c ∷ s) else (c ∷ rest.0, rest.1)

-- `scan_chunk`: whether the mask began with a star, the chunk after it, and the mask that is left.
unfoldable pub scan_chunk : Text → Bool × Text × Text
unfolding strip_stars cut_star
scan_chunk mask =
    let bare = strip_stars mask in
    let (chunk, rest) = cut_star bare in (ltb (len bare) (len mask), chunk, rest)

unfoldable pub match_chunk : Text → Text → Text × Bool
match_chunk [] s = (s, true)
match_chunk (fc ∷ chunk) [] = ([], false)
match_chunk (fc ∷ chunk) (fs ∷ s) =
    if not (fc == b'?') && not (fc == fs) then ([], false) else match_chunk chunk s

-- How the `for` over the byte positions ends: with the text after a match, without one, or by a
-- slice that is inside a character.
pub data Scan : Type 0 where
  found : Text → Scan
  exhausted : Scan
  inside_char : Scan

-- The body of the `for`, at the text `&s[i + 1..]`.
unfoldable pub scan_at : Text → Text → Option Text → Scan → Scan
scan_at chunk mask none next = inside_char
scan_at chunk mask (some tail) next =
    let (rest, matched) = match_chunk chunk tail in
    if matched then (if is_empty mask && not (is_empty rest) then next else found rest) else next

-- `for i in 0..s.len()`, with the rounds that are left.
unfoldable pub scan : Text → Text → Text → ℕ → ℕ → Scan
unfolding match_chunk scan_at
scan chunk mask s zero i = exhausted
scan chunk mask s (suc k) i =
    let next = scan chunk mask s k (i + 1) in scan_at chunk mask (slice_from s (i + 1)) next

unfoldable pub after_scan : (Text → Verdict) → Scan → Verdict
after_scan go (found rest) = go rest
after_scan go exhausted = answer false
after_scan go inside_char = panicked

-- One round of the `while`, from the star, the chunk and the mask that `scan_chunk` gave.
unfoldable pub round : (Text → Verdict) → Bool × Text × Text → Text → Verdict
unfolding match_chunk scan after_scan
round go (star, chunk, mask) s =
    let (rest, matched) = match_chunk chunk s in
    let search = after_scan go (scan chunk mask s (len s) 0) in
    if star && is_empty chunk
    then answer true
    else if matched && (is_empty rest || not (is_empty mask))
    then go rest
    else if star
    then search
    else answer false

unfoldable pub match_loop : ℕ → Text → Text → Verdict
unfolding scan_chunk round
match_loop fuel [] s = answer (is_empty s)
match_loop zero (m ∷ mask) s = out_of_fuel
match_loop (suc f) (m ∷ mask) s =
    let (star, chunk, rest) = scan_chunk (m ∷ mask) in
    round (match_loop f rest) (star, chunk, rest) s

unfoldable pub match_mask : Text → Text → Verdict
unfolding match_loop
match_mask mask s = match_loop (length mask) mask s
