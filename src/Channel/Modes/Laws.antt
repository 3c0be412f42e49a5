-- ===== src/Channel/Modes/Laws.antt =====
-- What mode changes of src/channel.rs leave alone, and who may make them.
use ellidri.Mode
use ellidri.Mode.{
  ChannelChange, Result, channel_item, channel_items, simple_query, simple_channel_query,
}
use ellidri.Mask.Set
use ellidri.Mask.Set.{MaskSet}
use ellidri.Channel.{Channel}
use ellidri.Channel.Members.{MemberModes}
use ellidri.Channel.Modes.{
  Applied, done, Found, absent, dangling, changed, change_member, later, finish, apply_mode_change,
  differ,
}
use ellidri.Prelude.{
  Bool-cases, Option-cases, Text, str_eq, keys, ℕ, ◌≡◌, refl, ap, ◌≢◌, inl, inr, Bool, true, false,
  Option, some, List, [], ◌∷◌, arith,
}

insert_refused : (p : Text) (s : MaskSet) → (Set.insert p s).1 ≡ false → (Set.insert p s).0 ≡ s
unfolding Set.insert
insert_refused p s h = ground arith

remove_refused : (p : Text) (s : MaskSet) → (Set.remove p s).1 ≡ false → (Set.remove p s).0 ≡ s
unfolding Set.remove
remove_refused p s h = ground arith

-- A loop over the members that reports no change has changed none; every loop keeps their keys.
abbrev Idle : List (ℕ × MemberModes) → Found → Type 0
Idle ms absent = Unit
Idle ms dangling = Unit
Idle ms (changed true out) = keys out ≡ keys ms
Idle ms (changed false out) = out ≡ ms

Idle-later :
    (e : ℕ × MemberModes) (ms : List (ℕ × MemberModes)) (f : Found)
    → Idle ms f
    → Idle (e ∷ ms) (later e f)
Idle-later e ms absent h = tt
Idle-later e ms dangling h = tt
Idle-later (id, m) ms (changed true out) h = ap (λ r. id ∷ r) h
Idle-later e ms (changed false out) h = ap (λ r. e ∷ r) h

Idle-here :
    (id : ℕ) (m w : MemberModes) (ms : List (ℕ × MemberModes)) (b v : Bool)
    → (b ≡ v → w ≡ m)
    → Idle ((id, m) ∷ ms) (changed (differ b v) ((id, w) ∷ ms))
Idle-here id m w ms true true h = rw (h refl) refl
Idle-here id m w ms true false h = refl
Idle-here id m w ms false true h = refl
Idle-here id m w ms false false h = rw (h refl) refl

module _ (nick_of : ℕ → Option Text) (flag : MemberModes → Bool) (write : MemberModes → MemberModes)
    (value : Bool) (same : (m : MemberModes) → flag m ≡ value → write m ≡ m) where
  change_member-Idle :
      (param : Text) (ms : List (ℕ × MemberModes))
      → Idle ms (change_member nick_of flag write value param ms)
  unfolding change_member
  change_member-Idle param [] = tt
  change_member-Idle param ((id, m) ∷ ms) = elim (Option-cases (nick_of id)) [
    | inl e ↦ rw (e, Idle) tt
    | inr (nick, e) ↦ elim (Bool-cases (str_eq nick param)) [
      | inl hit ↦ rw (e, hit, Idle) (Idle-here id m (write m) ms (flag m) value (same m))
      | inr miss ↦ rw (e, miss, Idle) (Idle-later (id, m) ms _ (change_member-Idle param ms))
    ]
  ]

-- What a change may do to the channel, by its result.
record Tame (c : Channel) (r : Channel × Applied) : Type 0 where
  idle : r.1 ≢ done true → r.0 ≡ c
  same_members : keys r.0.members ≡ keys c.members
  same_invites : r.0.invites ≡ c.invites
  same_topic : r.0.topic ≡ c.topic

Tame-finish : (c : Channel) (f : Found) → Idle c.members f → Tame c (finish c f)
Tame-finish c absent h = ground arith
Tame-finish c dangling h = ground arith
Tame-finish c (changed true out) h = ground arith
Tame-finish c (changed false out) h = ground arith

apply-Tame :
    (nick_of : ℕ → Option Text) (keylen : ℕ) (change : ChannelChange) (c : Channel)
    → Tame c (apply_mode_change nick_of keylen change c)
unfolding apply_mode_change
apply-Tame nick_of keylen (Mode.change_ban v p) c =
    ground (arith, insert_refused p c.ban_mask, remove_refused p c.ban_mask)
apply-Tame nick_of keylen (Mode.change_exception v p) c =
    ground (arith, insert_refused p c.exception_mask, remove_refused p c.exception_mask)
apply-Tame nick_of keylen (Mode.change_invitation v p) c =
    ground (arith, insert_refused p c.invex_mask, remove_refused p c.invex_mask)
apply-Tame nick_of keylen (Mode.change_operator v p) c =
    Tame-finish c _ (change_member-Idle nick_of _ _ v (λ m e. ground arith) p c.members)
apply-Tame nick_of keylen (Mode.change_halfop v p) c =
    Tame-finish c _ (change_member-Idle nick_of _ _ v (λ m e. ground arith) p c.members)
apply-Tame nick_of keylen (Mode.change_voice v p) c =
    Tame-finish c _ (change_member-Idle nick_of _ _ v (λ m e. ground arith) p c.members)
apply-Tame nick_of keylen (Mode.user_limit (some s)) c = ground arith
apply-Tame nick_of keylen _ c = ground arith

-- A change that is not reported as applied leaves the channel as it was: the errors too.
pub apply_mode_change_idle :
    (nick_of : ℕ → Option Text) (keylen : ℕ) (change : ChannelChange) (c : Channel)
    → (apply_mode_change nick_of keylen change c).1 ≢ done true
    → (apply_mode_change nick_of keylen change c).0 ≡ c
apply_mode_change_idle nick_of keylen change c = (apply-Tame nick_of keylen change c).idle

-- No mode change lets a member in or out, invites anyone, or touches the topic.
pub apply_mode_change_members :
    (nick_of : ℕ → Option Text) (keylen : ℕ) (change : ChannelChange) (c : Channel)
    → let c' = (apply_mode_change nick_of keylen change c).0 in
      (keys c'.members ≡ keys c.members) × (c'.invites ≡ c.invites) × (c'.topic ≡ c.topic)
apply_mode_change_members nick_of keylen change c =
    let t = apply-Tame nick_of keylen change c in (t.same_members, t.same_invites, t.same_topic)
