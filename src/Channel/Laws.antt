-- ===== src/Channel/Laws.antt =====
-- Members of a channel, in src/channel.rs.
use mathlib.Core.List.{head?}
use ellidri.Channel.{Channel, add_member, operator_modes, can_talk, can_invite}
use ellidri.Channel.Members.{MemberModes, no_modes, all_symbols, symbol}
use ellidri.Prelude.{
  ◌==◌, if◌then◌else◌, is_empty, contains_key, contains, put_new, contains-discard, get_absent, ℕ,
  ◌≡◌, false, not, ◌||◌, [], ◌∷◌, ◌++◌, arith,
}

-- The symbol of a member is the first of all its symbols, and `none` exactly when there is none.
pub symbol-all_symbols : (m : MemberModes) → symbol m ≡ head? (all_symbols m)
unfolding symbol all_symbols
symbol-all_symbols m = ground arith

-- Who joins an empty channel is its operator; who joins another has no mode. Either way the others
-- keep theirs, and the invitation of the one who joined is used up.
pub add_member_lem :
    (id : ℕ) (c : Channel)
    → contains_key ◌==◌ id c.members ≡ false
    → let c' = add_member id c in
      (c'.members ≡ c.members ++ (id, if is_empty c.members then operator_modes else no_modes) ∷ [])
      × (contains ◌==◌ id c'.invites ≡ false)
unfolding add_member
add_member_lem id c new = (put_new ◌==◌ id _ c.members new, contains-discard ◌==◌ id c.invites)

-- Who is no member of a channel can talk there exactly when it is neither moderated nor closed to
-- messages from outside, and can invite nobody.
pub outsider :
    (id : ℕ) (c : Channel)
    → contains_key ◌==◌ id c.members ≡ false
    → (can_talk id c ≡ not (c.moderated || c.no_msg_from_outside)) × (can_invite id c ≡ false)
unfolding can_talk can_invite
outsider id c h = ground (arith, get_absent ◌==◌ id c.members)
