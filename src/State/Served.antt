-- ===== src/State/Served.antt =====
-- The invariant of the state of src/state/mod.rs, and the changes to the state that keep it.
pub mod Clients
pub mod Rooms
pub mod Moding
pub mod Profile
pub mod Entering
pub mod Total
pub mod Kicks
pub mod Completes
pub mod Answers
pub mod Lift
pub mod Early
pub mod Privilege
pub mod Operators
pub mod Reach
pub mod Messages
pub mod Requests
pub mod Talking
pub mod Leaving
pub mod Join
pub mod Joining
pub mod Modes
pub mod Guests
use ellidri.Prelude.{
  ◌==◌, ==_iff, Bool-cases, Text, get-put, ==-IsSame, get, contains_key, put, ℕ, ◌≡◌, refl, sym, ap,
  inl, inr, true, some, List, arith,
}
use mathlib.Core.Path.{subst}
use ellidri.Channel.{Channel}
use ellidri.Client.{Client}
use ellidri.Client
use ellidri.Client.Connection.{is_registered}
use ellidri.State.{State, World, same_name, client_of, remove_client}
use ellidri.State.Owners.{IsOwned, put-IsOwned, remove_client-IsOwned, remove_client-state}
use ellidri.State.Members.{is_in, IsJoined, remove_client-IsJoined}
use ellidri.State.Parting.{is_in-get, is_in-put}
use ellidri.State.Session.{renamed}

-- Every nickname leads to a client that has it, and every member of a channel is a registered client.
pub record IsServed (s : State) : Type 0 where
  pub owned : IsOwned s
  pub joined : IsJoined s

-- The state with another client at an identifier.
abbrev pub replaced : ℕ → Client → State → State
replaced id d s = record s { clients = put ◌==◌ id d s.clients }

replaced-IsOwned :
    (s : State) (id : ℕ) (c d : Client)
    → client_of id s ≡ some c
    → d.nick ≡ c.nick
    → IsOwned s
    → IsOwned (replaced id d s)
replaced-IsOwned s id c d at named own n j h =
    let (e, found, same) = own n j h in
    elim (Bool-cases (id == j)) [
      | inl i ↦
          let one = ap (λ k. client_of k s) ((==_iff id j).0 i) in
          (
            d,
            ground (arith, get-put ==-IsSame id j d s.clients),
            subst (λ x. same_name n x ≡ true) (sym named) (ground (arith, one, at, found, same)),
          )
      | inr i ↦ (e, ground (arith, get-put ==-IsSame id j d s.clients), same)
    ]

-- A registered client of a state.
abbrev pub IsMember : ℕ → State → Type 0
IsMember j s = (c : Client) × (client_of j s ≡ some c) × (is_registered c.state ≡ true)

replaced-IsMember :
    (s : State) (id j : ℕ) (c d : Client)
    → client_of id s ≡ some c
    → (is_registered c.state ≡ true → is_registered d.state ≡ true)
    → IsMember j s
    → IsMember j (replaced id d s)
replaced-IsMember s id j c d at reg (e, found, registered) = elim (Bool-cases (id == j)) [
  | inl i ↦
      let one = ap (λ k. client_of k s) ((==_iff id j).0 i) in
      (
        d,
        ground (arith, get-put ==-IsSame id j d s.clients),
        reg (ground (arith, one, at, found, registered)),
      )
  | inr i ↦ (e, ground (arith, get-put ==-IsSame id j d s.clients), registered)
]

-- A client may change as long as it keeps its nickname and stays registered.
pub replaced-IsServed :
    (s : State) (id : ℕ) (c d : Client)
    → client_of id s ≡ some c
    → d.nick ≡ c.nick
    → (is_registered c.state ≡ true → is_registered d.state ≡ true)
    → IsServed s
    → IsServed (replaced id d s)
replaced-IsServed s id c d at named reg served = record {
  owned = replaced-IsOwned s id c d at named served.owned;
  joined = λ j h. replaced-IsMember s id j c d at reg (served.joined j h);
}

pub renamed-IsServed :
    (s : State) (id : ℕ) (nick : Text) (c : Client)
    → client_of id s ≡ some c
    → IsServed s
    → IsServed (renamed id nick c s)
unfolding Client.set_nick Client.update_full_name
renamed-IsServed s id nick c at served = record {
  owned = put-IsOwned s id nick c (Client.set_nick nick c) served.owned at refl;
  joined =
      λ j h. replaced-IsMember s id j c (Client.set_nick nick c) at (λ r. r) (served.joined j h);
}

-- The state with other channels.
abbrev pub rechanneled : List (Text × Channel) → State → State
rechanneled channels s = record s { channels = channels }

-- Channels may change as long as who is in them was, or is a registered client.
pub rechanneled-IsServed :
    (s : State) (channels : List (Text × Channel))
    → ((j : ℕ) → is_in j channels ≡ true → IsMember j s)
    → IsServed s
    → IsServed (rechanneled channels s)
rechanneled-IsServed s channels known served = record { owned = served.owned; joined = known }

-- A channel may change as long as nobody new is in it but registered clients.
pub channel_put-IsServed :
    (s : State) (name : Text) (d : Channel)
    → ((j : ℕ) → contains_key ◌==◌ j d.members ≡ true → IsMember j s)
    → IsServed s
    → IsServed (rechanneled (put same_name name d s.channels) s)
channel_put-IsServed s name d known served =
    rechanneled-IsServed s (put same_name name d s.channels)
      (λ j h. elim (Bool-cases (contains_key ◌==◌ j d.members)) [
        | inl m ↦ known j m
        | inr m ↦ served.joined j (ground (arith, is_in-put j name d s.channels h))
      ])
      served

-- A channel of the state may lose members.
pub channel_cut-IsServed :
    (s : State) (name : Text) (c d : Channel)
    → get same_name name s.channels ≡ some c
    → ((j : ℕ) → contains_key ◌==◌ j d.members ≡ true → contains_key ◌==◌ j c.members ≡ true)
    → IsServed s
    → IsServed (rechanneled (put same_name name d s.channels) s)
channel_cut-IsServed s name c d at fewer served =
    channel_put-IsServed s name d
      (λ j h. served.joined j (is_in-get j name s.channels c at (fewer j h))) served

-- A client may be removed.
pub remove_client-IsServed :
    (id : ℕ) (m o : Text) (w : World) → IsServed w.state → IsServed (remove_client id m o w).state
remove_client-IsServed id m o w served = record {
  owned = remove_client-IsOwned id m o w served.owned;
  joined = elim (remove_client-state id m o w) [
    | inl (e, same) ↦ subst IsJoined (sym same) served.joined
    | inr (c, e, same) ↦ (remove_client-IsJoined id m o w c served.joined e).2
  ];
}
