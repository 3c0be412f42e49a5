-- ===== src/State/Owners.antt =====
-- Who owns a nickname, over the handlers of a session: the map `nicks` of src/state/mod.rs.
use ellidri.Prelude.{
  ◌==◌, if◌then◌else◌, ==_iff, Bool-cases, Option-cases, Text, IsSame, get-put, get-delete,
  ==-IsSame, get-delete-some, get, put, delete, ℕ, ◌≡◌, refl, sym, ap, ◌≢◌, ◌⊎◌, inl, inr, Bool,
  true, false, none, some, arith,
}
use ellidri.Unicase.Laws.{unicase_eq_refl, unicase_eq_sym, unicase_eq_trans}
use ellidri.Unicase.{ascii}
use ellidri.Client.{Client}
use ellidri.Client
use ellidri.State.{
  State, World, same_name, client_of, send_notification, remove_client, quit_channels,
  leave_channels,
}
use ellidri.State.Session.{cmd_nick, cmd_nick_of, take_nick, renamed}
use ellidri.Client.Connection.{is_registered}
use mathlib.Core.Path.{subst}

pub same_name-IsSame : IsSame same_name
unfolding same_name
same_name-IsSame = record {
  same_refl = unicase_eq_refl ascii;
  same_sym = unicase_eq_sym ascii;
  same_trans = unicase_eq_trans ascii;
}

-- Every nickname of the index is the nickname, up to case, of the client it leads to.
abbrev pub IsOwned : State → Type 0
IsOwned s =
    (n : Text) (id : ℕ)
    → get same_name n s.nicks ≡ some id
    → (c : Client) × (client_of id s ≡ some c) × (same_name n c.nick ≡ true)

-- Two identifiers that lead to clients with different nicknames are different.
other_client :
    (s : State) (id j : ℕ) (client c : Client) (n : Text)
    → client_of id s ≡ some client
    → client_of j s ≡ some c
    → same_name n c.nick ≡ true
    → same_name client.nick n ≡ false
    → (id == j) ≡ false
other_client s id j client c n found at same other = elim (Bool-cases (id == j)) [
  | inl e ↦
      let one = ap (λ k. client_of k s) ((==_iff id j).0 e) in
      ground (arith, one, same_name-IsSame.same_sym n c.nick same)
  | inr e ↦ e
]

-- The index after a client was removed.
pub delete-IsOwned :
    (s : State) (id : ℕ) (client : Client)
    → IsOwned s
    → client_of id s ≡ some client
    → IsOwned (record s {
      clients = delete ◌==◌ id s.clients;
      nicks = delete same_name client.nick s.nicks;
    })
delete-IsOwned s id client own found n j h =
    let (other, left) = get-delete-some same_name-IsSame client.nick n s.nicks j h in
    let (c, at, same) = own n j left in
    let apart = other_client s id j client c n found at same other in
    (c, ground (arith, get-delete ==-IsSame id j s.clients), same)

-- The index after a client was given a nickname.
pub put-IsOwned :
    (s : State) (id : ℕ) (nick : Text) (issuer c : Client)
    → IsOwned s
    → client_of id s ≡ some issuer
    → c.nick ≡ nick
    → IsOwned (record s {
      nicks = put same_name nick id (delete same_name issuer.nick s.nicks);
      clients = put ◌==◌ id c s.clients;
    })
put-IsOwned s id nick issuer c own found named n j h =
    let moved = get-put same_name-IsSame nick n id (delete same_name issuer.nick s.nicks) in
    elim (Bool-cases (same_name nick n)) [
      | inl e ↦ (
        c,
        ground (arith, get-put ==-IsSame id j c s.clients),
        ground (arith, same_name-IsSame.same_sym nick n e),
      )
      | inr e ↦
          let (other, left) =
            get-delete-some same_name-IsSame issuer.nick n s.nicks j (ground arith) in
          let (d, at, same) = own n j left in
          let apart = other_client s id j issuer d n found at same other in
          (d, ground (arith, get-put ==-IsSame id j c s.clients), same)
    ]

-- What `take_nick` does to the state does not depend on whether its client is registered.
pub take_nick-state :
    (id : ℕ) (nick : Text) (issuer : Client) (w : World)
    → (take_nick id nick issuer w).state ≡ renamed id nick issuer w.state
unfolding take_nick send_notification
take_nick-state id nick issuer w = ground arith

-- NICK either leaves the state alone or gives the nickname to its client.
pub cmd_nick_of-state :
    (id : ℕ) (nick : Text) (issuer : Client) (w : World)
    → ((cmd_nick_of id nick issuer w).0.state ≡ w.state)
      ⊎ ((cmd_nick_of id nick issuer w).0.state ≡ renamed id nick issuer w.state)
unfolding cmd_nick_of
cmd_nick_of-state id nick issuer w = ground (arith, take_nick-state id nick issuer w)

-- NICK of a connected client does not panic, and afterwards every nickname of the index is still the
-- nickname, up to case, of the client it leads to.
pub cmd_nick-IsOwned :
    (id : ℕ) (nick : Text) (w : World) (issuer : Client)
    → IsOwned w.state
    → client_of id w.state ≡ some issuer
    → (r : World × Bool) × (cmd_nick id nick w ≡ some r) × IsOwned r.0.state
unfolding cmd_nick Client.set_nick Client.update_full_name
cmd_nick-IsOwned id nick w issuer own found =
    let taken = put-IsOwned w.state id nick issuer (Client.set_nick nick issuer) own found refl in
    (
      cmd_nick_of id nick issuer w,
      ground (arith, found),
      elim (cmd_nick_of-state id nick issuer w) [
        | inl e ↦ subst IsOwned (sym e) own
        | inr e ↦ subst IsOwned (sym e) taken
      ],
    )

-- The state without a client.
unfoldable pub without : ℕ → Client → State → State
unfolding leave_channels
without id client s = record s {
  clients = delete ◌==◌ id s.clients;
  nicks = delete same_name client.nick s.nicks;
  channels = if is_registered client.state then leave_channels id s.channels else s.channels;
}

-- What `remove_client` does to the state.
pub remove_client-state :
    (id : ℕ) (m o : Text) (w : World)
    → ((client_of id w.state ≡ none) × ((remove_client id m o w).state ≡ w.state))
      ⊎ ((client : Client) × (client_of id w.state ≡ some client)
          × ((remove_client id m o w).state ≡ without id client w.state))
unfolding remove_client quit_channels send_notification without
remove_client-state id m o w = elim (Option-cases (client_of id w.state)) [
  | inl e ↦ inl (e, ground (arith, e))
  | inr (client, e) ↦ inr (client, e, ground (arith, e))
]

-- When a client is removed, every nickname that is left in the index is the nickname, up to case, of
-- a client that is left.
pub remove_client-IsOwned :
    (id : ℕ) (m o : Text) (w : World) → IsOwned w.state → IsOwned (remove_client id m o w).state
unfolding without
remove_client-IsOwned id m o w own = elim (remove_client-state id m o w) [
  | inl (e, same) ↦ subst IsOwned (sym same) own
  | inr (client, e, same) ↦ subst IsOwned (sym same) (delete-IsOwned w.state id client own e)
]

cmd_nick_of-refused :
    (id : ℕ) (nick : Text) (issuer : Client) (w : World)
    → (cmd_nick_of id nick issuer w).1 ≡ false
    → (other : ℕ) × (get same_name nick w.state.nicks ≡ some other)
      × (other ≢ id)
      × ((cmd_nick_of id nick issuer w).0.state ≡ w.state)
unfolding cmd_nick_of
cmd_nick_of-refused id nick issuer w h = elim (Option-cases (get same_name nick w.state.nicks)) [
  | inl e ↦ ground (arith, e)
  | inr (other, e) ↦ (other, e, ground (arith, e, ==_iff other id), ground (arith, e))
]

cmd_nick_of-taken :
    (id : ℕ) (nick : Text) (issuer : Client) (w : World) (other : ℕ)
    → get same_name nick w.state.nicks ≡ some other
    → other ≢ id
    → (cmd_nick_of id nick issuer w).1 ≡ false
unfolding cmd_nick_of
cmd_nick_of-taken id nick issuer w other e apart = ground (arith, e, ==_iff other id)

cmd_nick_of-accepted :
    (id : ℕ) (nick : Text) (issuer : Client) (w : World)
    → (cmd_nick_of id nick issuer w).1 ≡ true
    → get same_name nick (cmd_nick_of id nick issuer w).0.state.nicks ≡ some id
unfolding cmd_nick_of
cmd_nick_of-accepted id nick issuer w h =
    let taken =
      get-put same_name-IsSame nick nick id (delete same_name issuer.nick w.state.nicks) in
    ground (
      arith,
      taken,
      same_name-IsSame.same_refl nick,
      take_nick-state id nick issuer w,
      ap (λ s. get same_name nick s.nicks) (take_nick-state id nick issuer w),
    )

-- NICK of a connected client fails exactly when the nickname leads to another client, and then
-- changes nothing of the state; where it does not fail, the nickname leads to the client afterwards.
pub cmd_nick_lem :
    (id : ℕ) (nick : Text) (w : World) (issuer : Client)
    → client_of id w.state ≡ some issuer
    → (r : World × Bool) × (cmd_nick id nick w ≡ some r)
      × (r.1 ≡ false
          → ((other : ℕ) × (get same_name nick w.state.nicks ≡ some other)
              × (other ≢ id)
              × (r.0.state ≡ w.state)))
      × ((other : ℕ) → get same_name nick w.state.nicks ≡ some other → other ≢ id → r.1 ≡ false)
      × (r.1 ≡ true → get same_name nick r.0.state.nicks ≡ some id)
unfolding cmd_nick
cmd_nick_lem id nick w issuer found = (
  cmd_nick_of id nick issuer w,
  ground (arith, found),
  cmd_nick_of-refused id nick issuer w,
  cmd_nick_of-taken id nick issuer w,
  cmd_nick_of-accepted id nick issuer w,
)
