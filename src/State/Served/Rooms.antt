-- ===== src/State/Served/Rooms.antt =====
-- The handlers that change channels keep the invariant: TOPIC, KICK, INVITE, MODE of a channel, PART and
-- JOIN of src/state/v1.rs.
use ellidri.Prelude.{
  ◌==◌, Bool-cases, Option-cases, Text, len, slice_to, get, contains_key, put, ℕ, min, ◌≡◌, refl,
  sym, ◌⊎◌, inl, inr, Bool, true, not, ◌&&◌, some, arith,
}
use mathlib.Core.Path.{subst}
use ellidri.Client.{Client}
use ellidri.Channel.{Channel}
use ellidri.Channel.Members.{MemberModes}
use ellidri.State.{State, World, same_name, client_of}
use ellidri.State.Rooms.{
  Nick, lost, no_such_nick, found_nick, Guard, refused, passed, find_member, set_topic,
  cmd_topic_set, topic_of, about,
}
use ellidri.State.Served.{IsServed, rechanneled, channel_cut-IsServed}

-- A guard that passes has found the channel, and one that refuses leaves the state alone.
pub find_member-passed :
    (id : ℕ) (name : Text) (w : World) (c : Channel) (m : MemberModes)
    → find_member id name w ≡ passed c m
    → get same_name name w.state.channels ≡ some c
unfolding find_member
find_member-passed id name w c m h = ground arith

pub find_member-refused :
    (id : ℕ) (name : Text) (w v : World) → find_member id name w ≡ refused v → v.state ≡ w.state
unfolding find_member about
find_member-refused id name w v h = ground arith

-- What a channel's handler makes of the state: itself, or the state with the channel `name` changed,
-- where nobody new is in it.
abbrev pub IsRoomChange : Text → State → State → Type 0
IsRoomChange name s t =
    (t ≡ s)
    ⊎ ((c : Channel) × (d : Channel) × (get same_name name s.channels ≡ some c)
        × (t ≡ rechanneled (put same_name name d s.channels) s)
        × ((j : ℕ) → contains_key ◌==◌ j d.members ≡ true → contains_key ◌==◌ j c.members ≡ true))

pub IsRoomChange-IsServed :
    (name : Text) (s t : State) → IsRoomChange name s t → IsServed s → IsServed t
IsRoomChange-IsServed name s t (inl e) served = subst IsServed (sym e) served
IsRoomChange-IsServed name s t (inr (c, d, at, e, fewer)) served =
    subst IsServed (sym e) (channel_cut-IsServed s name c d at fewer served)

set_topic-state :
    (now id : ℕ) (name given content : Text) (c : Channel) (w : World) (client : Client)
    (r : World × Bool)
    → client_of id w.state ≡ some client
    → slice_to given (min (len given) w.state.topiclen) ≡ some content
    → set_topic now id name given c w ≡ some r
    → r.0.state
      ≡ rechanneled
          (put same_name name
            (record c { topic = topic_of content client.nick now })
            w.state.channels)
          w.state
unfolding set_topic
set_topic-state now id name given content c w client r at cut h = ground (arith, at, cut)

pub set_topic-IsRoomChange :
    (now id : ℕ) (name given : Text) (c : Channel) (w : World) (client : Client) (r : World × Bool)
    → client_of id w.state ≡ some client
    → get same_name name w.state.channels ≡ some c
    → set_topic now id name given c w ≡ some r
    → IsRoomChange name w.state r.0.state
unfolding set_topic
set_topic-IsRoomChange now id name given c w client r at room h =
    elim (Option-cases (slice_to given (min (len given) w.state.topiclen))) [
      | inl cut ↦ ground (arith, at, cut)
      | inr (content, cut) ↦ inr (
        c,
        record c { topic = topic_of content client.nick now },
        room,
        set_topic-state now id name given content c w client r at cut h,
        λ j k. k,
      )
    ]

pub Guard-cases :
    (g : Guard)
    → ((v : World) × (g ≡ refused v)) ⊎ ((c : Channel) × (m : MemberModes) × (g ≡ passed c m))
Guard-cases (refused v) = inl (v, refl)
Guard-cases (passed c m) = inr (c, m, refl)

pub Nick-cases :
    (n : Nick)
    → (n ≡ lost)
      ⊎ (((v : World) × (n ≡ no_such_nick v)) ⊎ ((k : ℕ) × (d : Client) × (n ≡ found_nick k d)))
Nick-cases lost = inl refl
Nick-cases (no_such_nick v) = inr (inl (v, refl))
Nick-cases (found_nick k d) = inr (inr (k, d, refl))

pub cmd_topic_set-IsRoomChange :
    (now id : ℕ) (name topic : Text) (w : World) (client : Client) (r : World × Bool)
    → client_of id w.state ≡ some client
    → cmd_topic_set now id name topic w ≡ some r
    → IsRoomChange name w.state r.0.state
unfolding cmd_topic_set about
cmd_topic_set-IsRoomChange now id name topic w client r at h =
    elim (Guard-cases (find_member id name w)) [
      | inl (v, e) ↦ inl (ground (arith, e, find_member-refused id name w v e))
      | inr (c, m, e) ↦ elim (Bool-cases (not m.operator && c.topic_restricted)) [
        | inl refusal ↦ inl (ground (arith, e, refusal))
        | inr ok ↦
            set_topic-IsRoomChange now id name topic c w client r at
              (find_member-passed id name w c m e) (ground (arith, e, ok))
      ]
    ]
