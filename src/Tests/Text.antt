-- ===== src/Tests/Text.antt =====
-- Masks, names, commands and case mappings at concrete inputs.
use ellidri.Mask.Match.{match_mask, answer, panicked}
use ellidri.Mask.Match.Decides.{match_mask-glob}
use ellidri.Mask.Match.Panics.{match_mask-panics}
use ellidri.Mask.Glob.{glob}
use ellidri.Mask.Set
use ellidri.Mask.Set.{MaskSet, masks, is_match}
use ellidri.Mask.Set.Laws.{is_match-glob, masks-insert, remove-insert}
use ellidri.Unicase.{ascii, rfc1459_strict, unicase_eq, unicase_hash}
use ellidri.Unicase.Laws.{unicase_eq_iff-hash, ascii_identifies, strict_backslash_alone}
use ellidri.Names.{nickname_try_from, channel_name_try_from, join_list}
use ellidri.Names.Laws.{nickname-channel_disjoint, join_list_empty_key}
use ellidri.Errors.{ok}
use ellidri.Command
use ellidri.Command.{eq_ignore_ascii_case, as_str}
use ellidri.Command.Laws.{IsNamed, parse_iff}
use ellidri.Prelude.{
  any, text, str_eq, ℕ, ◌+◌, ◌≤◌, ◌≡◌, refl, ◌≢◌, ◌↔◌, ◌⊎◌, true, false, none, some, [], ◌∷◌, ◌++◌,
  arith,
}

stars_backtrack : match_mask (text "a*b?c*x") (text "abxbbxdbxebxczzx") ≡ answer true
unfolding match_mask
stars_backtrack = refl

stars_fail : match_mask (text "a*b?c*x") (text "abxbbxdbxebxczzy") ≡ answer false
unfolding match_mask
stars_fail = refl

one_wide : match_mask (text "a?b") (text "a☺b") ≡ answer true
unfolding match_mask
one_wide = refl

match_mask-glob_example :
    match_mask (text "*c") (text "abc") ≡ answer (glob (text "*c") (text "abc"))
match_mask-glob_example = match_mask-glob (text "*c") (text "abc") (omega arith)

match_mask-panics_example : match_mask (text "*b") (text "☺b") ≡ panicked
match_mask-panics_example =
    match_mask-panics b'b' [] 0x263a (text "b") (omega arith) (omega arith) (omega arith)
      (omega arith)

abbrev two_masks : MaskSet
two_masks = record { raw = text "a*,b" }

is_match-glob_example :
    is_match two_masks (text "ax") ≡ answer (any (λ m. glob m (text "ax")) (masks two_masks))
is_match-glob_example = is_match-glob two_masks (text "ax") (omega arith)

new_mask : any (λ m. str_eq m (text "c")) (masks two_masks) ≡ false
unfolding masks
new_mask = refl

not_empty : two_masks.raw ≢ []
not_empty = λ e. cc

masks-insert_example :
    (masks (Set.insert (text "c") two_masks).0 ≡ masks two_masks ++ text "c" ∷ [])
    × ((Set.insert (text "c") two_masks).1 ≡ true)
masks-insert_example = masks-insert (text "c") two_masks (omega arith) not_empty new_mask

remove-insert_example :
    let (after, removed) = Set.remove (text "c") (Set.insert (text "c") two_masks).0 in
    (masks after ≡ masks two_masks ++ [] ∷ []) × (removed ≡ true)
remove-insert_example = remove-insert (text "c") two_masks (omega arith) not_empty new_mask

unicase_eq_iff-hash_example :
    (unicase_eq ascii (text "#Games") (text "#gameS") ≡ true)
    ↔ (unicase_hash ascii (text "#Games") ≡ unicase_hash ascii (text "#gameS"))
unicase_eq_iff-hash_example = unicase_eq_iff-hash ascii (text "#Games") (text "#gameS")

games_equal : unicase_eq ascii (text "#Games") (text "#gameS") ≡ true
unfolding unicase_eq ascii
games_equal = refl

ascii_identifies_example : (ascii b'G' ≡ ascii b'g') ↔ (
    (◌≡◌ {A = ℕ} b'G' b'g')
    ⊎ ((b'A' ≤ b'G') × (b'G' ≤ b'Z') × (◌≡◌ {A = ℕ} b'g' (b'G' + 32)))
    ⊎ ((b'A' ≤ b'g') × (b'g' ≤ b'Z') × (◌≡◌ {A = ℕ} b'G' (b'g' + 32))))
ascii_identifies_example = ascii_identifies b'G' b'g'

strict_backslash_alone_example :
    (rfc1459_strict b'[' ≡ rfc1459_strict b'{')
    × (rfc1459_strict b']' ≡ rfc1459_strict b'}')
    × (rfc1459_strict b'|' ≡ rfc1459_strict 92 → ◌≡◌ {A = ℕ} b'|' 92)
strict_backslash_alone_example = strict_backslash_alone b'|'

alice : nickname_try_from (text "alice") ≡ ok (text "alice")
unfolding nickname_try_from
alice = refl

nickname-channel_disjoint_example : channel_name_try_from (text "alice") ≢ ok (text "alice")
nickname-channel_disjoint_example = nickname-channel_disjoint (text "alice") alice

join_list_empty_key_example :
    (join_list (text "#a,#b,#c") (text "x" ++ b',' ∷ b',' ∷ text "y")
      ≡ join_list (text "#a,#b,#c") (text "x" ++ b',' ∷ text "y"))
    × (join_list (text "#a,#b,#c") (b',' ∷ text "y") ≡ join_list (text "#a,#b,#c") (text "y"))
    × (join_list (text "#a,#b,#c") (text "x" ++ b',' ∷ []) ≡ join_list (text "#a,#b,#c") (text "x"))
join_list_empty_key_example = join_list_empty_key (text "#a,#b,#c") (text "x") (text "y")

key_of_the_first :
    join_list (text "#a,#b") (text ",sesame")
    ≡ (text "#a", some (text "sesame")) ∷ (text "#b", none) ∷ []
unfolding join_list
key_of_the_first = refl

parse_iff_example :
    (Command.parse (text "Join") ≡ some Command.join)
    ↔ (IsNamed Command.join × (eq_ignore_ascii_case (text "Join") (as_str Command.join) ≡ true))
parse_iff_example = parse_iff (text "Join") Command.join
