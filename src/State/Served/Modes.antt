-- ===== src/State/Served/Modes.antt =====
-- MODE of a channel, `cmd_mode_channel_set` of src/state/v1.rs, keeps the invariant of the state.
use ellidri.Prelude.{
  ◌==◌, Bool-cases, Option-cases, Text, get, contains_key, put, keys, contains, ℕ, ◌≡◌, sym, ap,
  ◌∙◌, inl, inr, Bool, true, not, ◌&&◌, Option, some, List, [], ◌∷◌, arith,
}
use ellidri.Mode
use ellidri.Mode.{ChannelChange, channel_query}
use ellidri.Client.{Client}
use ellidri.Channel.{Channel}
use ellidri.Channel.Notice.{start}
use ellidri.Channel.Members.{can_change}
use ellidri.Channel.Modes.{Applied, done, user_not_in_channel, key_set, panic, apply_mode_change}
use ellidri.Channel.Modes.Laws.{apply_mode_change_members}
use ellidri.Buffers.{lr_batch_begin}
use ellidri.State.{World, same_name, client_of}
use ellidri.State.Rooms.{find_member, about, with_channels}
use ellidri.State.Moding.{
  Progress, after_change, mode_item, mode_items, set_modes, cmd_mode_channel_set, mode_notice,
  nick_in,
}
use ellidri.State.Parting.{contains-keys}
use ellidri.State.Served.{rechanneled}
use ellidri.State.Served.Rooms.{IsRoomChange, Guard-cases, find_member-refused}

after_change-channel :
    (name : Text) (change : ChannelChange) (p q : Progress) (c : Channel) (a : Applied)
    → after_change name change p (c, a) ≡ some q
    → q.channel ≡ c
unfolding after_change
after_change-channel name change p q c (done b) h = elim (Bool-cases b) [
  | inl e ↦ ground (arith, e)
  | inr e ↦ ground (arith, e)
]
after_change-channel name change p q c user_not_in_channel h = ground arith
after_change-channel name change p q c key_set h = ground arith
after_change-channel name change p q c panic h = ground arith

-- No change lets a member in or out.
changed-keys :
    (nick_of : ℕ → Option Text) (keylen : ℕ) (name : Text) (change : ChannelChange) (p q : Progress)
    → after_change name change p (apply_mode_change nick_of keylen change p.channel) ≡ some q
    → keys q.channel.members ≡ keys p.channel.members
changed-keys nick_of keylen name change p q h =
    let out = apply_mode_change nick_of keylen change p.channel in
    ap (λ c. keys c.members) (after_change-channel name change p q out.0 out.1 h)
    ∙ (apply_mode_change_members nick_of keylen change p.channel).0

pub mode_item-keys :
    (nick_of : ℕ → Option Text) (keylen : ℕ) (name : Text) (i : Mode.Result ChannelChange)
    (p q : Progress)
    → mode_item nick_of keylen name i p ≡ some q
    → keys q.channel.members ≡ keys p.channel.members
unfolding mode_item
mode_item-keys nick_of keylen name (Mode.err (Mode.unknown mode v)) p q h = ground arith
mode_item-keys nick_of keylen name (Mode.err e) p q h = ground arith
mode_item-keys nick_of keylen name (Mode.ok Mode.get_bans) p q h = ground arith
mode_item-keys nick_of keylen name (Mode.ok Mode.get_exceptions) p q h = ground arith
mode_item-keys nick_of keylen name (Mode.ok Mode.get_invitations) p q h = ground arith
mode_item-keys nick_of keylen name (Mode.ok change) p q h =
    changed-keys nick_of keylen name change p q h

pub mode_items-keys :
    (nick_of : ℕ → Option Text) (keylen : ℕ) (name : Text) (is : List (Mode.Result ChannelChange))
    (p q : Progress)
    → mode_items nick_of keylen name is p ≡ some q
    → keys q.channel.members ≡ keys p.channel.members
unfolding mode_items
mode_items-keys nick_of keylen name [] p q h = ground arith
mode_items-keys nick_of keylen name (i ∷ is) p q h =
    elim (Option-cases (mode_item nick_of keylen name i p)) [
      | inl e ↦ ground (arith, e)
      | inr (next, e) ↦
          mode_items-keys nick_of keylen name is next q (ground (arith, e))
          ∙ mode_item-keys nick_of keylen name i p next e
    ]

pub mode_notice-state :
    (id : ℕ) (name : Text) (issuer : Client) (p : Progress) (w v : World)
    → mode_notice id name issuer p w ≡ some v
    → v.state ≡ w.state
unfolding mode_notice
mode_notice-state id name issuer p w v h = ground arith

set_modes-state :
    (id : ℕ) (name modes : Text) (mode_params : List Text) (issuer : Client) (c : Channel)
    (w : World) (p : Progress) (r : World × Bool)
    → mode_items
        (nick_in w.state.clients)
        w.state.keylen
        name
        (channel_query modes mode_params)
        (record { channel = c; rb = lr_batch_begin w.rb; notice = start })
      ≡ some p
    → set_modes id name modes mode_params issuer c w ≡ some r
    → r.0.state ≡ rechanneled (put same_name name p.channel w.state.channels) w.state
unfolding set_modes
set_modes-state id name modes mode_params issuer c w p r e h =
    let inside = with_channels (put same_name name p.channel w.state.channels) w in
    elim (Option-cases (mode_notice id name issuer p inside)) [
      | inl f ↦ ground (arith, e, f)
      | inr (v, f) ↦ ground (arith, e, f, mode_notice-state id name issuer p inside v f)
    ]

pub contains_key-same :
    {V : Type 0} (j : ℕ) (m n : List (ℕ × V))
    → keys m ≡ keys n
    → contains_key ◌==◌ j m ≡ true
    → contains_key ◌==◌ j n ≡ true
contains_key-same j m n e h =
    sym (contains-keys j n) ∙ ap (contains ◌==◌ j) (sym e) ∙ contains-keys j m ∙ h

set_modes-IsRoomChange :
    (id : ℕ) (name modes : Text) (mode_params : List Text) (issuer : Client) (c : Channel)
    (w : World) (r : World × Bool)
    → get same_name name w.state.channels ≡ some c
    → set_modes id name modes mode_params issuer c w ≡ some r
    → IsRoomChange name w.state r.0.state
unfolding set_modes
set_modes-IsRoomChange id name modes mode_params issuer c w r room h =
    let begun : Progress = record { channel = c; rb = lr_batch_begin w.rb; notice = start } in
    let nick_of = nick_in w.state.clients in
    let query = channel_query modes mode_params in
    elim (Option-cases (mode_items nick_of w.state.keylen name query begun)) [
      | inl e ↦ ground (arith, e)
      | inr (p, e) ↦ inr (
        c,
        p.channel,
        room,
        set_modes-state id name modes mode_params issuer c w p r e h,
        λ j m.
            contains_key-same j p.channel.members c.members
              (mode_items-keys nick_of w.state.keylen name query begun p e) m,
      )
    ]

-- MODE of a channel lets nobody in or out of it, and changes no other channel.
pub cmd_mode_channel_set-IsRoomChange :
    (id : ℕ) (name modes : Text) (mode_params : List Text) (w : World) (issuer : Client)
    (r : World × Bool)
    → client_of id w.state ≡ some issuer
    → cmd_mode_channel_set id name modes mode_params w ≡ some r
    → IsRoomChange name w.state r.0.state
unfolding cmd_mode_channel_set about
cmd_mode_channel_set-IsRoomChange id name modes mode_params w issuer r at h =
    elim (Option-cases (get same_name name w.state.channels)) [
      | inl room ↦ inl (ground (arith, room))
      | inr (c, room) ↦ elim (Guard-cases (find_member id name w)) [
        | inl (v, e) ↦ inl (ground (arith, room, at, e, find_member-refused id name w v e))
        | inr (d, m, e) ↦
            elim (Bool-cases
              (not issuer.operator && not (can_change m (channel_query modes mode_params)))) [
                | inl refusal ↦ inl (ground (arith, room, at, e, refusal))
                | inr allowed ↦
                    set_modes-IsRoomChange id name modes mode_params issuer c w r room
                      (ground (arith, room, at, e, allowed))
              ]
      ]
    ]
