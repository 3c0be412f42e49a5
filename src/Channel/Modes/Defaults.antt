-- ===== src/Channel/Modes/Defaults.antt =====
-- `Channel::new` of src/channel.rs never panics.
use ellidri.Mode
use ellidri.Mode.{
  ChannelChange, Result, channel_item, channel_items, simple_query, simple_channel_query,
  channel_query,
}
use ellidri.Channel.{Channel, blank}
use ellidri.Channel.Modes.{Applied, done, apply_mode_change, apply_defaults, new}
use ellidri.Mask.Set.{empty}
use ellidri.Mode.{channel_items, simple_query, simple_channel_query}
use ellidri.Prelude.{
  Text, ℕ, ◌≡◌, refl, Bool, true, false, Option, none, some, List, [], ◌∷◌, arith,
}

-- A change that needs neither a parameter nor a member.
abbrev Simple : Result ChannelChange → Type 0
Simple (Mode.err e) = Unit
Simple (Mode.ok (Mode.key true p)) = ⊥
Simple (Mode.ok (Mode.user_limit (some p))) = ⊥
Simple (Mode.ok (Mode.change_ban v p)) = ⊥
Simple (Mode.ok (Mode.change_exception v p)) = ⊥
Simple (Mode.ok (Mode.change_invitation v p)) = ⊥
Simple (Mode.ok (Mode.change_operator v p)) = ⊥
Simple (Mode.ok (Mode.change_halfop v p)) = ⊥
Simple (Mode.ok (Mode.change_voice v p)) = ⊥
Simple (Mode.ok _) = Unit

channel_item-Simple :
    (v : Bool) (mode : ℕ) → Simple (channel_item v mode []).0 × ((channel_item v mode []).1 ≡ [])
unfolding channel_item
channel_item-Simple true mode = ground arith
channel_item-Simple false mode = ground arith

abbrev AllSimple : List (Result ChannelChange) → Type 0
AllSimple [] = Unit
AllSimple (r ∷ rs) = Simple r × AllSimple rs

channel_items-AllSimple : (ps : List (Bool × ℕ)) → AllSimple (channel_items ps [])
unfolding channel_items
channel_items-AllSimple [] = tt
channel_items-AllSimple ((v, mode) ∷ ps) =
    let (simple, left) = channel_item-Simple v mode in
    (simple, rw left (channel_items-AllSimple ps))

-- Nobody is in the channel or invited, and all that takes a parameter is unset.
pub record IsFresh (c : Channel) : Type 0 where
  pub no_members : c.members ≡ []
  pub no_invites : c.invites ≡ []
  pub no_topic : c.topic ≡ none
  pub no_limit : c.user_limit ≡ none
  pub no_key : c.key ≡ none
  pub no_bans : c.ban_mask ≡ empty
  pub no_exceptions : c.exception_mask ≡ empty
  pub no_invex : c.invex_mask ≡ empty

-- The result of a simple change is no error.
abbrev Went : Channel × Applied → Type 0
Went (c, done b) = IsFresh c
Went (c, _) = ⊥

apply-Simple :
    (nick_of : ℕ → Option Text) (keylen : ℕ) (change : ChannelChange) (c : Channel)
    → Simple (Mode.ok change)
    → IsFresh c
    → Went (apply_mode_change nick_of keylen change c)
unfolding apply_mode_change
apply-Simple nick_of keylen (Mode.key true p) c h f = absurd h
apply-Simple nick_of keylen (Mode.user_limit (some p)) c h f = absurd h
apply-Simple nick_of keylen (Mode.change_ban v p) c h f = absurd h
apply-Simple nick_of keylen (Mode.change_exception v p) c h f = absurd h
apply-Simple nick_of keylen (Mode.change_invitation v p) c h f = absurd h
apply-Simple nick_of keylen (Mode.change_operator v p) c h f = absurd h
apply-Simple nick_of keylen (Mode.change_halfop v p) c h f = absurd h
apply-Simple nick_of keylen (Mode.change_voice v p) c h f = absurd h
apply-Simple nick_of keylen _ c h f = ground arith

after_change :
    (items : List (Result ChannelChange)) (r : Channel × Applied)
    → Went r
    → ((c : Channel) → IsFresh c → (c' : Channel) × (apply_defaults items c ≡ some c') × IsFresh c')
    → (c' : Channel) × ((elim r.1 [ done b ↦ apply_defaults items r.0 | _ ↦ none ]) ≡ some c')
      × IsFresh c'
after_change items (c, done b) w go = go c w
after_change items (c, _) w go = absurd w

apply_defaults-IsFresh :
    (items : List (Result ChannelChange)) (c : Channel)
    → AllSimple items
    → IsFresh c
    → (c' : Channel) × (apply_defaults items c ≡ some c') × IsFresh c'
unfolding apply_defaults
apply_defaults-IsFresh [] c a f = (c, refl, f)
apply_defaults-IsFresh (Mode.err e ∷ items) c a f = apply_defaults-IsFresh items c a.1 f
apply_defaults-IsFresh (Mode.ok change ∷ items) c a f =
    after_change items _ (apply-Simple _ _ change c a.0 f)
      (λ d fd. apply_defaults-IsFresh items d a.1 fd)

simple-AllSimple : (modes : Text) → AllSimple (simple_channel_query modes)
unfolding simple_channel_query
simple-AllSimple modes = channel_items-AllSimple (simple_query true modes)

blank-IsFresh : IsFresh blank
blank-IsFresh = record {
  no_members = refl;
  no_invites = refl;
  no_topic = refl;
  no_limit = refl;
  no_key = refl;
  no_bans = refl;
  no_exceptions = refl;
  no_invex = refl;
}

-- Whatever the text of the default modes, valid or not, `Channel::new` does not panic, and the
-- new channel has no member, invitation, topic, limit, key or mask.
pub new_total : (modes : Text) → (c : Channel) × (new modes ≡ some c) × IsFresh c
unfolding new
new_total modes =
    apply_defaults-IsFresh (simple_channel_query modes) blank (simple-AllSimple modes) blank-IsFresh
