-- ===== src/State/Join.antt =====
-- Who may join a channel: `check_join` of src/state/v1.rs. A result of `none` is a panic of the
-- matching of masks.
pub mod Laws
use ellidri.Prelude.{
  ltb, leb, ◌==◌, if◌then◌else◌, ==_iff, ==_self, Bool-cases, Option-cases, &&-true, length,
  is_empty, get_or, take, drop, any, all, keep, find, length-append, any-append, all-append, Text,
  text, len_utf8, len, str_eq, slice_from, slice_to, split, split_once, is_whitespace, trim_start,
  trim_end, trim, starts_with, str_eq_iff, str_eq_self, IsSame, get-put, get-delete, ==-IsSame,
  get-delete-some, contains_key-delete_iff, empty_has_none, get, contains_key, put, delete, keys,
  contains, add, discard, put_new, contains_key-put, contains_key-delete, contains_key-get,
  contains-discard, get_absent, ℕ, zero, suc, ◌+◌, ◌-◌, ◌*◌, ◌/◌, ◌%◌, ◌^◌, ◌≤◌, ◌<◌, min, String,
  ◌≡◌, refl, sym, ap, ap₂, ◌∙◌, ◌≢◌, ◌↔◌, ◌⊎◌, inl, inr, Bool, true, false, not, ◌&&◌, ◌||◌, Option,
  none, some, List, [], ◌∷◌, ◌++◌, map, append-nil, append_assoc, arith,
}
use ellidri.Mask.Match.{Verdict, answer, panicked, out_of_fuel}
use ellidri.Client.{Client}
use ellidri.Channel.{Channel, is_banned, is_invited, either}
use ellidri.State.{World}
use ellidri.State.Rooms.{about}

-- Equality of `Option<&str>`.
unfoldable pub same_key : Option Text → Option Text → Bool
same_key none none = true
same_key (some a) (some b) = str_eq a b
same_key _ _ = false

-- The channel has as many members as its limit lets in.
unfoldable pub is_full : Channel → Bool
is_full c = elim c.user_limit [ none ↦ false | some limit ↦ leb limit (length c.members) ]

-- The last two tests of `check_join`, on what the masks answer.
unfoldable pub check_masks :
    Client → Channel → Text → Verdict → Verdict → World → Option (World × Bool)
unfolding about
check_masks client c name panicked banned w = none
check_masks client c name out_of_fuel banned w = none
check_masks client c name (answer false) banned w =
    some (about (text "473") name (text "They didn't invite you yet, keep trying~!") w, false)
check_masks client c name (answer true) panicked w = none
check_masks client c name (answer true) out_of_fuel w = none
check_masks client c name (answer true) (answer true) w =
    some (about (text "474") name (text "They don't want you in here senpai...") w, false)
check_masks client c name (answer true) (answer false) w = some (w, true)

unfoldable pub check_join :
    ℕ → Client → Channel → Text → Option Text → World → Option (World × Bool)
unfolding same_key is_full about is_invited is_banned check_masks
check_join id client c name key w =
    if contains_key ◌==◌ id c.members
    then some (w, false)
    else if not (same_key c.key key)
    then some (
      about (text "475") name (text "Whoops, guess you've entered the wrong channel key :s") w,
      false,
    )
    else if is_full c
    then some (about (text "471") name (text "Please, this channel could not take it!") w, false)
    else check_masks client c name (is_invited id client.nick c)
        (either (is_banned client.nick c) (is_banned client.full_name c)) w
