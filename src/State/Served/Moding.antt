-- ===== src/State/Served/Moding.antt =====
-- MODE of a channel, `cmd_mode_channel_set` of src/state/v1.rs, does not panic where the state has its
-- invariant and the keys that it sets are ASCII.
use ellidri.Prelude.{
  ◌==◌, ==_self, Bool-cases, Option-cases, Text, str_eq, get, contains_key, put, ℕ, ◌≡◌, refl, inl,
  inr, Bool, true, false, not, Option, some, List, [], ◌∷◌, arith,
}
use ellidri.Mode
use ellidri.Mode.{ChannelChange, channel_query}
use ellidri.Command.{Command}
use ellidri.Mask.Match.Search.{IsAscii}
use ellidri.Client.{Client}
use ellidri.Channel.{Channel}
use ellidri.Channel.Notice.{start}
use ellidri.Channel.Members.{MemberModes}
use ellidri.Channel.Modes.{
  Found, absent, dangling, changed, later, finish, change_member, apply_mode_change,
}
use ellidri.Buffers.{is_some, lr_batch_begin}
use ellidri.State.{World, same_name, client_of, item_of}
use ellidri.State.Rooms.{find_member, with_channels}
use ellidri.State.Moding.{
  Progress, after_change, mode_item, mode_items, set_modes, cmd_mode_channel_set, mode_notice,
  mode_text, nick_in,
}
use ellidri.State.Served.{IsServed}
use ellidri.State.Served.Answers.{AreClients, members-AreClients}
use ellidri.State.Served.Completes.{ascii-IsCut, tell-returns}
use ellidri.State.Served.Modes.{mode_item-keys, mode_items-keys, contains_key-same}
use ellidri.State.Served.Rooms.{Guard-cases}

-- A key that is set is ASCII.
abbrev pub HasAsciiKey : Mode.Result ChannelChange → Type 0
HasAsciiKey (Mode.ok (Mode.key v k)) = IsAscii k
HasAsciiKey _ = Unit

abbrev pub HaveAsciiKeys : List (Mode.Result ChannelChange) → Type 0
HaveAsciiKeys [] = Unit
HaveAsciiKeys (i ∷ is) = HasAsciiKey i × HaveAsciiKeys is

-- Every identifier has a nickname.
abbrev AreNamed : (ℕ → Option Text) → List (ℕ × MemberModes) → Type 0
AreNamed nick_of ms = (j : ℕ) → contains_key ◌==◌ j ms ≡ true → (n : Text) × (nick_of j ≡ some n)

not_dangling : Found → Bool
not_dangling dangling = false
not_dangling _ = true

later_found : (e : ℕ × MemberModes) (f : Found) → not_dangling (later e f) ≡ not_dangling f
unfolding not_dangling
later_found e absent = refl
later_found e dangling = refl
later_found e (changed b ms) = refl

module _ (nick_of : ℕ → Option Text) (flag : MemberModes → Bool) (write : MemberModes → MemberModes)
    (value : Bool) where
  change_member_found :
      (param : Text) (ms : List (ℕ × MemberModes))
      → AreNamed nick_of ms
      → not_dangling (change_member nick_of flag write value param ms) ≡ true
  unfolding change_member not_dangling
  change_member_found param [] known = refl
  change_member_found param ((id, m) ∷ ms) known =
      let (n, at) = known id (ground (arith, ==_self id)) in
      let rest = change_member_found param ms (λ j h. known j (ground arith)) in
      let on = later_found (id, m) (change_member nick_of flag write value param ms) in
      elim (Bool-cases (str_eq n param)) [
        | inl hit ↦ ground (arith, at, hit)
        | inr miss ↦ ground (arith, at, miss, rest, on)
      ]

finish-returns :
    (name who : Text) (change : ChannelChange) (p : Progress) (c : Channel) (f : Found)
    → not_dangling f ≡ true
    → Mode.param change ≡ some who
    → is_some (after_change name change p (finish c f)) ≡ true
unfolding after_change not_dangling
finish-returns name who change p c absent h e = ground (arith, e)
finish-returns name who change p c dangling h e = ground arith
finish-returns name who change p c (changed true ms) h e = refl
finish-returns name who change p c (changed false ms) h e = refl

changed-returns :
    (nick_of : ℕ → Option Text) (keylen : ℕ) (name : Text) (change : ChannelChange) (p : Progress)
    → AreNamed nick_of p.channel.members
    → HasAsciiKey (Mode.ok change)
    → is_some (after_change name change p (apply_mode_change nick_of keylen change p.channel))
      ≡ true
unfolding after_change apply_mode_change Mode.param
changed-returns nick_of keylen name (Mode.change_operator v who) p known ascii =
    finish-returns name who _ p p.channel _ (change_member_found nick_of _ _ v who _ known) refl
changed-returns nick_of keylen name (Mode.change_halfop v who) p known ascii =
    finish-returns name who _ p p.channel _ (change_member_found nick_of _ _ v who _ known) refl
changed-returns nick_of keylen name (Mode.change_voice v who) p known ascii =
    finish-returns name who _ p p.channel _ (change_member_found nick_of _ _ v who _ known) refl
changed-returns nick_of keylen name (Mode.key v k) p known ascii =
    let (r, cut, size) = ascii-IsCut k keylen ascii in ground (arith, cut)
changed-returns nick_of keylen name (Mode.user_limit (some s)) p known ascii = ground arith
changed-returns nick_of keylen name _ p known ascii = ground arith

mode_item-returns :
    (nick_of : ℕ → Option Text) (keylen : ℕ) (name : Text) (i : Mode.Result ChannelChange)
    (p : Progress)
    → AreNamed nick_of p.channel.members
    → HasAsciiKey i
    → is_some (mode_item nick_of keylen name i p) ≡ true
unfolding mode_item
mode_item-returns nick_of keylen name (Mode.err (Mode.unknown mode v)) p known ascii = refl
mode_item-returns nick_of keylen name (Mode.err e) p known ascii = refl
mode_item-returns nick_of keylen name (Mode.ok Mode.get_bans) p known ascii = refl
mode_item-returns nick_of keylen name (Mode.ok Mode.get_exceptions) p known ascii = refl
mode_item-returns nick_of keylen name (Mode.ok Mode.get_invitations) p known ascii = refl
mode_item-returns nick_of keylen name (Mode.ok change) p known ascii =
    changed-returns nick_of keylen name change p known ascii

mode_items-returns :
    (nick_of : ℕ → Option Text) (keylen : ℕ) (name : Text) (is : List (Mode.Result ChannelChange))
    (p : Progress)
    → AreNamed nick_of p.channel.members
    → HaveAsciiKeys is
    → is_some (mode_items nick_of keylen name is p) ≡ true
unfolding mode_items
mode_items-returns nick_of keylen name [] p known ascii = refl
mode_items-returns nick_of keylen name (i ∷ is) p known ascii =
    let first = mode_item-returns nick_of keylen name i p known ascii.0 in
    elim (Option-cases (mode_item nick_of keylen name i p)) [
      | inl e ↦ ground (arith, first, e)
      | inr (q, e) ↦
          let same = mode_item-keys nick_of keylen name i p q e in
          let rest =
            mode_items-returns nick_of keylen name is q
              (λ j m. known j (contains_key-same j q.channel.members p.channel.members same m))
              ascii.1 in
          ground (arith, e, rest)
    ]

mode_notice-returns :
    (id : ℕ) (name : Text) (issuer : Client) (p : Progress) (w : World)
    → AreClients w.state.clients p.channel.members
    → is_some (mode_notice id name issuer p w) ≡ true
unfolding mode_notice
mode_notice-returns id name issuer p w known = ground (
  arith,
  tell-returns (item_of issuer.full_name Command.mode (mode_text name p.notice))
      (λ m c. not (m == id)) w.state p.channel.members w.sent known,
)

set_modes-returns :
    (id : ℕ) (name modes : Text) (mode_params : List Text) (issuer : Client) (c : Channel)
    (w : World)
    → AreClients w.state.clients c.members
    → HaveAsciiKeys (channel_query modes mode_params)
    → is_some (set_modes id name modes mode_params issuer c w) ≡ true
unfolding set_modes
set_modes-returns id name modes mode_params issuer c w known ascii =
    let begun : Progress = record { channel = c; rb = lr_batch_begin w.rb; notice = start } in
    let nick_of = nick_in w.state.clients in
    let query = channel_query modes mode_params in
    let all =
      mode_items-returns nick_of w.state.keylen name query begun
        (λ j m. let (d, at) = known j m in (d.nick, ground (arith, at))) ascii in
    elim (Option-cases (mode_items nick_of w.state.keylen name query begun)) [
      | inl e ↦ ground (arith, all, e)
      | inr (p, e) ↦
          let same = mode_items-keys nick_of w.state.keylen name query begun p e in
          let inside = with_channels (put same_name name p.channel w.state.channels) w in
          let told =
            mode_notice-returns id name issuer p inside
              (λ j m. known j (contains_key-same j p.channel.members c.members same m)) in
          ground (arith, e, told)
    ]

pub cmd_mode_channel_set-returns :
    (id : ℕ) (name modes : Text) (mode_params : List Text) (w : World) (issuer : Client)
    → IsServed w.state
    → client_of id w.state ≡ some issuer
    → HaveAsciiKeys (channel_query modes mode_params)
    → is_some (cmd_mode_channel_set id name modes mode_params w) ≡ true
unfolding cmd_mode_channel_set
cmd_mode_channel_set-returns id name modes mode_params w issuer served at ascii =
    elim (Option-cases (get same_name name w.state.channels)) [
      | inl room ↦ ground (arith, room)
      | inr (c, room) ↦
          let set =
            set_modes-returns id name modes mode_params issuer c w
              (members-AreClients w.state name c served.joined room) ascii in
          elim (Guard-cases (find_member id name w)) [
            | inl (v, e) ↦ ground (arith, room, at, e)
            | inr (d, m, e) ↦ ground (arith, room, at, e, set)
          ]
    ]
