-- ===== src/Channel/Members.antt =====
-- The modes of a channel's members: `MemberModes` of src/channel.rs.
use ellidri.Mode
use ellidri.Mode.{ChannelChange, Result}
use ellidri.Prelude.{
  if◌then◌else◌, all, Text, ℕ, Bool, true, false, ◌||◌, Option, none, some, List, [], ◌∷◌, ◌++◌,
}

pub record MemberModes : Type 0 where
  pub founder : Bool
  pub protected : Bool
  pub operator : Bool
  pub halfop : Bool
  pub voice : Bool

-- `MemberModes::default`
abbrev pub no_modes : MemberModes
no_modes = record {
  founder = false;
  protected = false;
  operator = false;
  halfop = false;
  voice = false;
}

abbrev sign_if : Bool → ℕ → Text
sign_if true c = c ∷ []
sign_if false c = []

-- The text that `all_symbols` pushes.
unfoldable pub all_symbols : MemberModes → Text
all_symbols m =
    sign_if m.founder b'~'
    ++ sign_if m.protected b'&'
    ++ sign_if m.operator b'@'
    ++ sign_if m.halfop b'%'
    ++ sign_if m.voice b'+'

unfoldable pub symbol : MemberModes → Option ℕ
symbol m =
    if m.founder
    then some b'~'
    else if m.protected
    then some b'&'
    else if m.operator
    then some b'@'
    else if m.halfop
    then some b'%'
    else if m.voice
    then some b'+'
    else none

unfoldable pub is_at_least_op : MemberModes → Bool
is_at_least_op m = m.operator || m.founder

unfoldable pub is_at_least_halfop : MemberModes → Bool
is_at_least_halfop m = m.halfop || m.operator || m.founder

unfoldable pub has_voice : MemberModes → Bool
has_voice m = m.voice || m.halfop || m.operator || m.protected || m.founder

-- The closure of `can_change`.
unfoldable pub may : MemberModes → Result ChannelChange → Bool
unfolding is_at_least_op is_at_least_halfop
may m (Mode.err e) = true
may m (Mode.ok Mode.get_bans) = true
may m (Mode.ok Mode.get_exceptions) = true
may m (Mode.ok Mode.get_invitations) = true
may m (Mode.ok (Mode.moderated v)) = is_at_least_halfop m
may m (Mode.ok (Mode.topic_restricted v)) = is_at_least_halfop m
may m (Mode.ok (Mode.user_limit l)) = is_at_least_halfop m
may m (Mode.ok (Mode.change_ban v p)) = is_at_least_halfop m
may m (Mode.ok (Mode.change_exception v p)) = is_at_least_halfop m
may m (Mode.ok (Mode.change_invitation v p)) = is_at_least_halfop m
may m (Mode.ok (Mode.change_voice v p)) = is_at_least_halfop m
may m (Mode.ok (Mode.invite_only v)) = is_at_least_op m
may m (Mode.ok (Mode.no_priv_msg_from_outside v)) = is_at_least_op m
may m (Mode.ok (Mode.secret v)) = is_at_least_op m
may m (Mode.ok (Mode.key v p)) = is_at_least_op m
may m (Mode.ok (Mode.change_operator v p)) = is_at_least_op m
may m (Mode.ok (Mode.change_halfop v p)) = is_at_least_op m

unfoldable pub can_change : MemberModes → List (Result ChannelChange) → Bool
unfolding may
can_change m modes = all (may m) modes
