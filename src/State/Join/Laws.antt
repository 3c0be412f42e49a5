-- ===== src/State/Join/Laws.antt =====
-- What `check_join` of src/state/v1.rs asks, with the reference definition of matching.
use ellidri.Prelude.{
  ltb, ◌==◌, if◌then◌else◌, Option-cases, length, any, Text, contains_key, contains, ℕ, ◌≡◌, refl,
  ap, ap₂, ◌∙◌, inl, inr, Bool, true, false, not, ◌&&◌, ◌||◌, Option, none, some, arith,
}
use ellidri.Mask.Glob.{glob}
use ellidri.Mask.Match.{answer}
use ellidri.Mask.Match.Search.{IsAscii}
use ellidri.Mask.Set.{MaskSet, masks}
use ellidri.Mask.Set.Laws.{is_match-glob}
use ellidri.Client.{Client}
use ellidri.Channel.{Channel, is_banned, is_invited, either}
use ellidri.State.{World}
use ellidri.State.Rooms.{about}
use ellidri.State.Join.{same_key, is_full, check_masks, check_join}

-- One of the masks of the set matches the text.
abbrev pub matches : MaskSet → Text → Bool
matches set s = any (λ m. glob m s) (masks set)

-- A ban on the text, without an exception from bans or from invitations.
abbrev pub bans : Channel → Text → Bool
bans c s = matches c.ban_mask s && not (matches c.exception_mask s) && not (matches c.invex_mask s)

-- The members are fewer than the limit, if there is one.
abbrev pub has_room : Channel → Bool
has_room c = elim c.user_limit [ none ↦ true | some limit ↦ ltb (length c.members) limit ]

has_room-is_full : (c : Channel) → not (is_full c) ≡ has_room c
unfolding is_full
has_room-is_full c = elim (Option-cases c.user_limit) [
  | inl e ↦ ground (arith, e)
  | inr (limit, e) ↦ ground (arith, e)
]

-- The conditions on who joins.
abbrev pub admits : ℕ → Client → Channel → Option Text → Bool
unfolding same_key is_full
admits id client c key =
    not (contains_key ◌==◌ id c.members)
    && same_key c.key key
    && has_room c
    && (not c.invite_only || contains ◌==◌ id c.invites || matches c.invex_mask client.nick)
    && not (bans c client.nick)
    && not (bans c client.full_name)

is_banned-glob : (s : Text) (c : Channel) → IsAscii s → is_banned s c ≡ answer (bans c s)
unfolding is_banned
is_banned-glob s c ascii = ground (
  arith,
  is_match-glob c.ban_mask s ascii,
  is_match-glob c.exception_mask s ascii,
  is_match-glob c.invex_mask s ascii,
)

is_invited-glob :
    (id : ℕ) (s : Text) (c : Channel)
    → IsAscii s
    → is_invited id s c
      ≡ answer (not c.invite_only || contains ◌==◌ id c.invites || matches c.invex_mask s)
unfolding is_invited
is_invited-glob id s c ascii = ground (arith, is_match-glob c.invex_mask s ascii)

check_masks-answers :
    (client : Client) (c : Channel) (name : Text) (invited banned : Bool) (w : World)
    → (told : World) × (check_masks client c name (answer invited) (answer banned) w
        ≡ some (told, invited && not banned))
      × (told.state ≡ w.state)
unfolding check_masks about
check_masks-answers client c name true true w = (_, refl, refl)
check_masks-answers client c name true false w = (_, refl, refl)
check_masks-answers client c name false banned w = (_, refl, refl)

either-answer : (b d : Bool) → either (answer b) (answer d) ≡ answer (b || d)
either-answer true d = refl
either-answer false d = refl

banned_either :
    (s t : Text) (c : Channel)
    → IsAscii s
    → IsAscii t
    → either (is_banned s c) (is_banned t c) ≡ answer (bans c s || bans c t)
banned_either s t c s_ascii t_ascii =
    ap₂ either (is_banned-glob s c s_ascii) (is_banned-glob t c t_ascii)
    ∙ either-answer (bans c s) (bans c t)

-- The three tests before the masks, and what comes of the masks.
gates :
    (m k f h i b d : Bool) (w v u t : World) (r : Option (World × Bool))
    → not f ≡ h
    → v.state ≡ w.state
    → u.state ≡ w.state
    → t.state ≡ w.state
    → r ≡ some (t, i && not (b || d))
    → (told : World) × ((if m
          then some (w, false)
          else if not k
          then some (v, false)
          else if f
          then some (u, false)
          else r)
        ≡ some (told, not m && k && h && i && not b && not d))
      × (told.state ≡ w.state)
gates true k f h i b d w v u t r room same_v same_u same_t e = (w, refl, refl)
gates false false f h i b d w v u t r room same_v same_u same_t e = (v, refl, same_v)
gates false true true h i b d w v u t r room same_v same_u same_t e =
    (u, ap (λ x. some (u, x)) (ground (arith, room)), same_u)
gates false true false h i b d w v u t r room same_v same_u same_t e =
    (t, e ∙ ap (λ x. some (t, x)) (ground (arith, room)), same_t)

-- Where the nickname and the full name of a client are ASCII, `check_join` does not panic and changes
-- nothing of the state, and lets the client in exactly when it is no member yet, gives the key of the
-- channel or none where the channel has none, the channel is not full, it is invited where that is
-- needed, and no ban that is not excepted matches its nickname or its full name.
pub check_join_iff :
    (id : ℕ) (client : Client) (c : Channel) (name : Text) (key : Option Text) (w : World)
    → IsAscii client.nick
    → IsAscii client.full_name
    → (told : World) × (check_join id client c name key w ≡ some (told, admits id client c key))
      × (told.state ≡ w.state)
unfolding check_join about
check_join_iff id client c name key w nick_ascii full_ascii =
    let invited =
      not c.invite_only || contains ◌==◌ id c.invites || matches c.invex_mask client.nick in
    let b = bans c client.nick in
    let d = bans c client.full_name in
    let (told, says, same) = check_masks-answers client c name invited (b || d) w in
    let asked =
      ap₂ (λ v u. check_masks client c name v u w) (is_invited-glob id client.nick c nick_ascii)
        (banned_either client.nick client.full_name c nick_ascii full_ascii) in
    gates (contains_key ◌==◌ id c.members) (same_key c.key key) (is_full c) (has_room c) invited b d
      w _ _ told _ (has_room-is_full c) refl refl same (asked ∙ says)
