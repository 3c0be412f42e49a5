-- ===== src/State/Served/Joining.antt =====
-- Who is in which channel after an iteration of `cmd_join` of src/state/v1.rs.
use ellidri.Prelude.{
  ◌==◌, Bool-cases, Option-cases, Text, get-put, get-same, get, contains_key, put, ℕ, ◌≡◌, refl,
  sym, ap, ◌∙◌, inl, inr, Bool, true, false, ◌&&◌, ◌||◌, Option, none, some, List, [], ◌∷◌, arith,
}
use mathlib.Core.Path.{subst}
use ellidri.Mask.Match.Search.{IsAscii}
use ellidri.Client.{Client}
use ellidri.Channel.{Channel, add_member}
use ellidri.Channel.Modes.Defaults.{new_total}
use ellidri.State.{State, World, same_name}
use ellidri.State.Join.Laws.{admits, check_join_iff}
use ellidri.State.Entry.{enter, join_one}
use ellidri.State.Owners.{same_name-IsSame}
use ellidri.State.Parting.{in_room, is_member_of, is_in-get}
use ellidri.State.Served.{IsServed, IsMember, rechanneled}
use ellidri.State.Served.Join.{enter-state}
use ellidri.State.Served.Entering.{enter-returns}

put_has :
    {V : Type 0} (id j : ℕ) (v : V) (m : List (ℕ × V))
    → contains_key ◌==◌ j (put ◌==◌ id v m) ≡ ((id == j) || contains_key ◌==◌ j m)
put_has id j v [] = ground arith
put_has id j v ((k, w) ∷ m) = ground (arith, put_has id j v m)

add_member-has :
    (id j : ℕ) (c : Channel)
    → contains_key ◌==◌ j (add_member id c).members ≡ ((id == j) || contains_key ◌==◌ j c.members)
unfolding add_member
add_member-has id j c = put_has id j _ c.members

-- Who is in the channel with the name `n` when the client has entered the one with the name `name`.
in_room-put :
    (id j : ℕ) (name n : Text) (c : Channel) (channels : List (Text × Channel))
    → is_member_of j (get same_name name channels) ≡ contains_key ◌==◌ j c.members
    → in_room j n (put same_name name (add_member id c) channels)
      ≡ ((same_name name n && id == j) || in_room j n channels)
in_room-put id j name n c channels before =
    let after = put same_name name (add_member id c) channels in
    let got = get-put same_name-IsSame name n (add_member id c) channels in
    elim (Bool-cases (same_name name n)) [
      | inl h ↦
          let found : get same_name n after ≡ some (add_member id c) = got ∙ rw h refl in
          let there = ap (is_member_of j) (get-same same_name-IsSame name n channels h) ∙ before in
          rw h (
            ap (is_member_of j) found
            ∙ add_member-has id j c
            ∙ ap (λ b. (id == j) || b) (sym there))
      | inr h ↦
          let found : get same_name n after ≡ get same_name n channels = got ∙ rw h refl in
          rw h (ap (is_member_of j) found)
    ]

-- How the state changes when a client asks to join a channel and is let in, or not.
abbrev pub IsEntered : ℕ → Text → State → Bool → State → Type 0
IsEntered id name s false t = t ≡ s
IsEntered id name s true t =
    (t.clients ≡ s.clients)
    × (t.nicks ≡ s.nicks)
    × ((j : ℕ) (n : Text)
        → in_room j n t.channels ≡ ((same_name name n && id == j) || in_room j n s.channels))

-- A channel that does not exist lets everyone in, who then makes it.
abbrev pub lets_in : ℕ → Client → Option Text → Option Channel → Bool
lets_in id client key none = true
lets_in id client key (some c) = admits id client c key

enter-IsEntered :
    (id : ℕ) (name : Text) (client : Client) (c : Channel) (w v : World) (s : State)
    → w.state ≡ s
    → ((j : ℕ) → is_member_of j (get same_name name s.channels) ≡ contains_key ◌==◌ j c.members)
    → enter id name client c w ≡ some v
    → IsEntered id name s true v.state
enter-IsEntered id name client c w v s same before h =
    let moved =
      enter-state id name client c w v h
      ∙ ap (λ t. rechanneled (put same_name name (add_member id c) t.channels) t) same in
    (
      ap (λ t. t.clients) moved,
      ap (λ t. t.nicks) moved,
      λ j n.
          ap (λ t. in_room j n t.channels) moved ∙ in_room-put id j name n c s.channels (before j),
    )

-- JOIN of one channel by a registered client whose nickname and full name are ASCII does not panic
-- where nicknames lead to their clients and members are registered. The client is let in exactly when
-- the channel does not exist or `check_join` admits it. Then it is in the channel with that name, every
-- other membership of every channel is as it was, and no client and no nickname changes; otherwise
-- nothing of the state changes.
pub join_one-IsEntered :
    (id : ℕ) (client : Client) (name : Text) (key : Option Text) (w : World)
    → IsServed w.state
    → IsMember id w.state
    → IsAscii client.nick
    → IsAscii client.full_name
    → (r : World × Bool) × (join_one id client name key w ≡ some r)
      × (r.1 ≡ lets_in id client key (get same_name name w.state.channels))
      × IsEntered id name w.state r.1 r.0.state
unfolding join_one
join_one-IsEntered id client name key w served member a b =
    elim (Option-cases (get same_name name w.state.channels)) [
      | inl room ↦
          let (c, made, fresh) = new_total w.state.default_chan_mode in
          let empty = λ (j : ℕ). ap (contains_key ◌==◌ j) fresh.no_members in
          let (v, went) =
            enter-returns id name client c w served member
              (λ j m. absurd (ground (arith, empty j, m))) in
          (
            (v, true),
            ground (arith, room, made, went),
            ap (lets_in id client key) (sym room),
            enter-IsEntered id name client c w v w.state refl
                (λ j. ap (is_member_of j) room ∙ sym (empty j)) went,
          )
      | inr (c, room) ↦
          let (told, checked, same) = check_join_iff id client c name key w a b in
          let (v, went) =
            enter-returns id name client c told (subst IsServed (sym same) served)
              (subst (IsMember id) (sym same) member)
              (λ j m.
                subst (IsMember j) (sym same)
                  (served.joined j (is_in-get j name w.state.channels c room m))) in
          elim (Bool-cases (admits id client c key)) [
            | inl t ↦ (
              (v, true),
              ground (arith, room, checked, went, t),
              sym t ∙ ap (lets_in id client key) (sym room),
              enter-IsEntered id name client c told v w.state same (λ j. ap (is_member_of j) room)
                  went,
            )
            | inr f ↦ (
              (told, false),
              ground (arith, room, checked, f),
              sym f ∙ ap (lets_in id client key) (sym room),
              same,
            )
          ]
    ]
