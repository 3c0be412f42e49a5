-- ===== src/Channel/Modes/Rights.antt =====
-- Who may change what: `can_change` and `apply_mode_change` of src/channel.rs together.
use ellidri.Mode
use ellidri.Mode.{
  ChannelChange, Result, channel_item, channel_items, simple_query, simple_channel_query,
}
use ellidri.Channel.{Channel}
use ellidri.Channel.Members.{MemberModes, may, can_change, is_at_least_halfop}
use ellidri.Channel.Modes.{apply_mode_change}
use ellidri.Prelude.{&&-true, all, Text, ℕ, ◌≡◌, refl, true, false, Option, List, [], ◌∷◌, arith}

-- The changes of a query, applied one after the other; the channel after the last.
unfoldable pub apply_items : (ℕ → Option Text) → ℕ → List (Result ChannelChange) → Channel → Channel
apply_items nick_of keylen [] c = c
apply_items nick_of keylen (Mode.err e ∷ items) c = apply_items nick_of keylen items c
apply_items nick_of keylen (Mode.ok change ∷ items) c =
    apply_items nick_of keylen items (apply_mode_change nick_of keylen change c).0

may_only_query :
    (m : MemberModes) (nick_of : ℕ → Option Text) (keylen : ℕ) (change : ChannelChange)
    (c : Channel)
    → is_at_least_halfop m ≡ false
    → may m (Mode.ok change) ≡ true
    → (apply_mode_change nick_of keylen change c).0 ≡ c
unfolding may apply_mode_change
may_only_query m nick_of keylen Mode.get_bans c h k = refl
may_only_query m nick_of keylen Mode.get_exceptions c h k = refl
may_only_query m nick_of keylen Mode.get_invitations c h k = refl
may_only_query m nick_of keylen _ c h k = ground arith

-- A MODE query that a member below half-operator is allowed to make changes nothing.
pub can_change-below_halfop :
    (m : MemberModes) (nick_of : ℕ → Option Text) (keylen : ℕ) (items : List (Result ChannelChange))
    (c : Channel)
    → is_at_least_halfop m ≡ false
    → can_change m items ≡ true
    → apply_items nick_of keylen items c ≡ c
unfolding can_change apply_items
can_change-below_halfop m nick_of keylen [] c h k = refl
can_change-below_halfop m nick_of keylen (Mode.err e ∷ items) c h k =
    can_change-below_halfop m nick_of keylen items c h k
can_change-below_halfop m nick_of keylen (Mode.ok change ∷ items) c h k =
    let (now, rest) = &&-true (may m (Mode.ok change)) (all (may m) items) k in
    rw (may_only_query m nick_of keylen change c h now)
      (can_change-below_halfop m nick_of keylen items c h rest)
