-- ===== src/State/Members.antt =====
-- Who is in the channels when a client leaves the server: `remove_client` of src/state/mod.rs.
use ellidri.Prelude.{
  ◌==◌, if◌then◌else◌, ==_iff, Bool-cases, is_empty, any, all, Text, get-delete, ==-IsSame,
  contains_key-delete_iff, empty_has_none, contains_key, delete, ℕ, ◌≡◌, refl, sym, ap, ◌∙◌, inl,
  inr, Bool, true, false, not, none, some, List, [], ◌∷◌, arith,
}
use mathlib.Core.Path.{subst}
use ellidri.Channel.{Channel}
use ellidri.Client.{Client}
use ellidri.Client.Connection.{is_registered}
use ellidri.State.{State, World, client_of, leave_channels, remove_client}
use ellidri.State.Owners.{without, remove_client-state}

-- The client is a member of one of the channels.
abbrev pub is_in : ℕ → List (Text × Channel) → Bool
is_in id channels = any (λ e. contains_key ◌==◌ id e.1.members) channels

-- Every member of a channel is a registered client.
abbrev pub IsJoined : State → Type 0
IsJoined s =
    (id : ℕ)
    → is_in id s.channels ≡ true
    → (c : Client) × (client_of id s ≡ some c) × (is_registered c.state ≡ true)

abbrev pub IsPeopled : List (Text × Channel) → Type 0
IsPeopled channels = all (λ e. not (is_empty e.1.members)) channels ≡ true

is_in-leave_channels :
    (id j : ℕ) (channels : List (Text × Channel))
    → is_in j (leave_channels id channels) ≡ (if id == j then false else is_in j channels)
unfolding leave_channels
is_in-leave_channels id j [] = ground arith
is_in-leave_channels id j ((name, c) ∷ rest) = ground (
  arith,
  is_in-leave_channels id j rest,
  contains_key-delete_iff ==-IsSame id j c.members,
  empty_has_none ◌==◌ j (delete ◌==◌ id c.members),
)

leave_channels-IsPeopled :
    (id : ℕ) (channels : List (Text × Channel)) → IsPeopled (leave_channels id channels)
unfolding leave_channels
leave_channels-IsPeopled id [] = refl
leave_channels-IsPeopled id ((name, c) ∷ rest) = ground (arith, leave_channels-IsPeopled id rest)

-- The three facts of a state without a client that was in it.
record IsLeft (id : ℕ) (s : State) : Type 0 where
  no_client : client_of id s ≡ none
  in_no_channel : is_in id s.channels ≡ false
  joined : IsJoined s

is_in-apart :
    (id j : ℕ) (b : Bool) → (if id == j then false else b) ≡ true → ((id == j) ≡ false) × (b ≡ true)
is_in-apart id j b h = ground arith

unregistered-in_none :
    (id : ℕ) (client : Client) (s : State)
    → IsJoined s
    → client_of id s ≡ some client
    → is_registered client.state ≡ false
    → is_in id s.channels ≡ false
unregistered-in_none id client s joined found unreg = elim (Bool-cases (is_in id s.channels)) [
  | inl h ↦ let (c, at, reg) = joined id h in ground (arith, sym found ∙ at)
  | inr h ↦ h
]

is_in-without :
    (id j : ℕ) (client : Client) (s : State)
    → IsJoined s
    → client_of id s ≡ some client
    → is_in j (without id client s).channels ≡ (if id == j then false else is_in j s.channels)
unfolding without
is_in-without id j client s joined found = elim (Bool-cases (is_registered client.state)) [
  | inl reg ↦ ground (arith, reg, is_in-leave_channels id j s.channels)
  | inr unreg ↦
      let out = unregistered-in_none id client s joined found unreg in
      ground (arith, unreg, out, ap (λ k. is_in k s.channels), ==_iff id j)
]

without-IsLeft :
    (id : ℕ) (client : Client) (s : State)
    → IsJoined s
    → client_of id s ≡ some client
    → IsLeft id (without id client s)
unfolding without
without-IsLeft id client s joined found = record {
  no_client = ground (arith, get-delete ==-IsSame id id s.clients);
  in_no_channel = ground (arith, is_in-without id id client s joined found);
  joined = λ j h.
      let moved = is_in-without id j client s joined found in
      let apart = is_in-apart id j (is_in j s.channels) (sym moved ∙ h) in
      let (c, at, reg) = joined j apart.1 in
      (c, ground (arith, get-delete ==-IsSame id j s.clients, apart.0), reg);
}

-- When a client is removed it is in no channel any more, whether it was registered or not, and the
-- members of the channels are still registered clients.
pub remove_client-IsJoined :
    (id : ℕ) (m o : Text) (w : World) (client : Client)
    → IsJoined w.state
    → client_of id w.state ≡ some client
    → (client_of id (remove_client id m o w).state ≡ none)
      × (is_in id (remove_client id m o w).state.channels ≡ false)
      × IsJoined (remove_client id m o w).state
remove_client-IsJoined id m o w client joined found = elim (remove_client-state id m o w) [
  | inl (e, same) ↦ ground (arith, sym e ∙ found)
  | inr (c, e, same) ↦
      let left = subst (IsLeft id) (sym same) (without-IsLeft id c w.state joined e) in
      (left.no_client, left.in_no_channel, left.joined)
]

-- When a registered client is removed, no channel is left empty.
pub remove_client-IsPeopled :
    (id : ℕ) (m o : Text) (w : World) (client : Client)
    → client_of id w.state ≡ some client
    → is_registered client.state ≡ true
    → IsPeopled (remove_client id m o w).state.channels
unfolding without
remove_client-IsPeopled id m o w client found reg = elim (remove_client-state id m o w) [
  | inl (e, same) ↦ ground (arith, sym e ∙ found)
  | inr (c, e, same) ↦ ground (
    arith,
    sym e ∙ found,
    ap (λ s. s.channels) same,
    leave_channels-IsPeopled id w.state.channels,
  )
]
