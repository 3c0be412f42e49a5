-- ===== src/State/Served/Join.antt =====
-- JOIN of a registered client keeps the invariant of the state: `cmd_join` of src/state/v1.rs.
use ellidri.Prelude.{
  ◌==◌, ==_iff, Option-cases, Text, empty_has_none, get, contains_key, put, ℕ, ◌≡◌, refl, sym, ap,
  ◌∙◌, ◌⊎◌, inl, inr, Bool, true, false, ◌||◌, Option, none, some, List, [], ◌∷◌, arith,
}
use mathlib.Core.Path.{subst}
use ellidri.Client.{Client}
use ellidri.Channel.{Channel, add_member}
use ellidri.Channel.Modes
use ellidri.Channel.Modes.Defaults.{new_total}
use ellidri.Buffers.{lr_batch_begin}
use ellidri.State.{State, World, same_name, client_of}
use ellidri.State.Rooms.{about, with_channels}
use ellidri.State.Join.{check_masks, check_join}
use ellidri.State.Entry.{
  send_join_to, send_join, welcome, enter, join_one, join_each, touch, cmd_join,
}
use ellidri.State.Parting.{is_in-get}
use ellidri.State.Served.{IsServed, IsMember, rechanneled, channel_put-IsServed}
use ellidri.State.Served.Clients.{IsEdited-IsServed, touch-IsEdited}

pub check_join-state :
    (id : ℕ) (client : Client) (c : Channel) (name : Text) (key : Option Text) (w : World)
    (r : World × Bool)
    → check_join id client c name key w ≡ some r
    → r.0.state ≡ w.state
unfolding check_join check_masks about
check_join-state id client c name key w r h = ground arith

send_join_to-state :
    (id : ℕ) (name : Text) (client : Client) (c : Channel) (w v : World)
    → send_join_to id name client c w ≡ some v
    → v.state ≡ w.state
unfolding send_join_to
send_join_to-state id name client c w v h = ground arith

pub send_join-state :
    (id : ℕ) (name : Text) (client : Client) (w v : World)
    → send_join id name client w ≡ some v
    → v.state ≡ w.state
unfolding send_join
send_join-state id name client w v h = elim (Option-cases (get same_name name w.state.channels)) [
  | inl e ↦ ground (arith, e)
  | inr (c, e) ↦ send_join_to-state id name client c w v (ground (arith, e, h))
]

welcome-state :
    (id : ℕ) (name : Text) (w v : World) → welcome id name w ≡ some v → v.state ≡ w.state
unfolding welcome
welcome-state id name w v h = ground arith

pub enter-state :
    (id : ℕ) (name : Text) (client : Client) (c : Channel) (w v : World)
    → enter id name client c w ≡ some v
    → v.state ≡ rechanneled (put same_name name (add_member id c) w.state.channels) w.state
unfolding enter
enter-state id name client c w v h =
    let joined = add_member id c in
    let inside = with_channels (put same_name name joined w.state.channels) w in
    let begun = record inside { rb = lr_batch_begin w.rb } in
    elim (Option-cases (send_join id name client begun)) [
      | inl e ↦ ground (arith, e)
      | inr (u, e) ↦
          welcome-state id name u v (ground (arith, e, h))
          ∙ send_join-state id name client begun u e
    ]

put_member :
    {V : Type 0} (id j : ℕ) (v : V) (m : List (ℕ × V))
    → contains_key ◌==◌ j (put ◌==◌ id v m) ≡ true
    → (j ≡ id) ⊎ (contains_key ◌==◌ j m ≡ true)
put_member id j v [] h = ground (arith, ==_iff id j)
put_member id j v ((k, w) ∷ m) h = ground (arith, put_member id j v m)

add_member-member :
    (id j : ℕ) (c : Channel)
    → contains_key ◌==◌ j (add_member id c).members ≡ true
    → (j ≡ id) ⊎ (contains_key ◌==◌ j c.members ≡ true)
unfolding add_member
add_member-member id j c h = put_member id j _ c.members h

pub entered :
    (id : ℕ) (c : Channel) (s : State)
    → IsMember id s
    → ((j : ℕ) → contains_key ◌==◌ j c.members ≡ true → IsMember j s)
    → (j : ℕ) → contains_key ◌==◌ j (add_member id c).members ≡ true
    → IsMember j s
entered id c s member known j m = elim (add_member-member id j c m) as (λ _. IsMember j s) [
  | inl e ↦ subst (λ k. IsMember k s) (sym e) member
  | inr n ↦ known j n
]

-- Who enters a channel is a registered client.
pub entered-IsServed :
    (id : ℕ) (name : Text) (c : Channel) (s : State)
    → IsServed s
    → IsMember id s
    → ((j : ℕ) → contains_key ◌==◌ j c.members ≡ true → IsMember j s)
    → IsServed (rechanneled (put same_name name (add_member id c) s.channels) s)
entered-IsServed id name c s served member known =
    channel_put-IsServed s name (add_member id c) (entered id c s member known) served

enter-IsServed :
    (id : ℕ) (name : Text) (client : Client) (c : Channel) (w v : World)
    → IsServed w.state
    → IsMember id w.state
    → ((j : ℕ) → contains_key ◌==◌ j c.members ≡ true → IsMember j w.state)
    → enter id name client c w ≡ some v
    → IsServed v.state × (v.state.clients ≡ w.state.clients)
enter-IsServed id name client c w v served member known h =
    let moved = enter-state id name client c w v h in
    (
      subst IsServed (sym moved) (entered-IsServed id name c w.state served member known),
      ap (λ s. s.clients) moved,
    )

check_join-IsServed :
    (id : ℕ) (name : Text) (key : Option Text) (client : Client) (c : Channel) (w u : World)
    (r : World × Bool)
    → IsServed w.state
    → IsMember id w.state
    → get same_name name w.state.channels ≡ some c
    → check_join id client c name key w ≡ some (u, true)
    → enter id name client c u ≡ some r.0
    → IsServed r.0.state × (r.0.state.clients ≡ w.state.clients)
check_join-IsServed id name key client c w u r served member room checked h =
    let same = check_join-state id client c name key w (u, true) checked in
    let (kept, clients) =
      enter-IsServed id name client c u r.0 (subst IsServed (sym same) served)
        (subst (IsMember id) (sym same) member)
        (λ j m.
          subst (IsMember j) (sym same)
            (served.joined j (is_in-get j name w.state.channels c room m)))
        h in
    (kept, clients ∙ ap (λ s. s.clients) same)

Pair-cases : (r : World × Bool) → ((v : World) × (r ≡ (v, true))) ⊎ ((v : World) × (r ≡ (v, false)))
Pair-cases (v, true) = inl (v, refl)
Pair-cases (v, false) = inr (v, refl)

join_found :
    (id : ℕ) (client : Client) (name : Text) (key : Option Text) (c : Channel) (w : World)
    (r : World × Bool)
    → get same_name name w.state.channels ≡ some c
    → join_one id client name key w ≡ some r
    → (r.0.state ≡ w.state)
      ⊎ ((u : World) × (check_join id client c name key w ≡ some (u, true))
          × (enter id name client c u ≡ some r.0))
unfolding join_one
join_found id client name key c w r room h =
    elim (Option-cases (check_join id client c name key w)) [
      | inl e ↦ ground (arith, room, e)
      | inr (q, e) ↦ elim (Pair-cases q) [
        | inl (u, t) ↦ inr (u, ground (arith, e, t), ground (arith, room, e, t))
        | inr (u, f) ↦ inl (ground (arith, room, e, f, check_join-state id client c name key w q e))
      ]
    ]

join_new :
    (id : ℕ) (client : Client) (name : Text) (key : Option Text) (c : Channel) (w : World)
    (r : World × Bool)
    → get same_name name w.state.channels ≡ none
    → Modes.new w.state.default_chan_mode ≡ some c
    → join_one id client name key w ≡ some r
    → enter id name client c w ≡ some r.0
unfolding join_one
join_new id client name key c w r room made h = ground (arith, room, made)

pub join_one-IsServed :
    (id : ℕ) (client : Client) (name : Text) (key : Option Text) (w : World) (r : World × Bool)
    → IsServed w.state
    → IsMember id w.state
    → join_one id client name key w ≡ some r
    → IsServed r.0.state × (r.0.state.clients ≡ w.state.clients)
join_one-IsServed id client name key w r served member h =
    elim (Option-cases (get same_name name w.state.channels)) [
      | inl room ↦
          let (c, made, fresh) = new_total w.state.default_chan_mode in
          enter-IsServed id name client c w r.0 served member
            (λ j m. ground (
              arith,
              empty_has_none ◌==◌ j c.members,
              fresh.no_members,
              subst (λ ms. contains_key ◌==◌ j ms ≡ true) fresh.no_members m,
            ))
            (join_new id client name key c w r room made h)
      | inr (c, room) ↦ elim (join_found id client name key c w r room h) [
        | inl same ↦ (subst IsServed (sym same) served, ap (λ s. s.clients) same)
        | inr (u, checked, went) ↦
            check_join-IsServed id name key client c w u r served member room checked went
      ]
    ]

pub IsMember-clients :
    (id : ℕ) (s t : State) → t.clients ≡ s.clients → IsMember id s → IsMember id t
IsMember-clients id s t same (c, at, reg) = (c, ap (get ◌==◌ id) same ∙ at, reg)

pub join_each-IsServed :
    (id : ℕ) (client : Client) (list : List (Text × Option Text)) (p r : World × Bool)
    → IsServed p.0.state
    → IsMember id p.0.state
    → join_each id client list p ≡ some r
    → IsServed r.0.state × (r.0.state.clients ≡ p.0.state.clients)
unfolding join_each
join_each-IsServed id client [] p r served member h =
    let ends : p ≡ r = ground arith in
    (subst (λ q. IsServed q.0.state) ends served, ap (λ q. q.0.state.clients) (sym ends))
join_each-IsServed id client ((name, key) ∷ list) p r served member h =
    elim (Option-cases (join_one id client name key p.0)) [
      | inl e ↦ ground (arith, e)
      | inr (q, e) ↦
          let (kept, same) = join_one-IsServed id client name key p.0 q served member e in
          let rest =
            join_each-IsServed id client list (q.0, p.1 || q.1) r kept
              (IsMember-clients id p.0.state q.0.state same member) (ground (arith, e)) in
          (rest.0, rest.1 ∙ same)
    ]

pub cmd_join-cases :
    (now id : ℕ) (list : List (Text × Option Text)) (w : World) (client : Client)
    (q r : World × Bool)
    → client_of id w.state ≡ some client
    → join_each id client list (w, false) ≡ some q
    → cmd_join now id list w ≡ some r
    → (r.0 ≡ q.0) ⊎ (touch now id q.0 ≡ some r.0)
unfolding cmd_join
cmd_join-cases now id list w client q r at e h = elim (Pair-cases q) [
  | inl (v, t) ↦ inr (ground (arith, at, e, t))
  | inr (v, f) ↦ inl (ground (arith, at, e, f))
]

-- JOIN of a registered client keeps the invariant, whatever channels and keys it names.
pub cmd_join-IsServed :
    (now id : ℕ) (list : List (Text × Option Text)) (w : World) (r : World × Bool)
    → IsServed w.state
    → IsMember id w.state
    → cmd_join now id list w ≡ some r
    → IsServed r.0.state
unfolding cmd_join
cmd_join-IsServed now id list w r served (client, at, reg) h =
    elim (Option-cases (join_each id client list (w, false))) [
      | inl e ↦ ground (arith, at, e)
      | inr (q, e) ↦
          let (kept, same) =
            join_each-IsServed id client list (w, false) q served (client, at, reg) e in
          elim (cmd_join-cases now id list w client q r at e h) [
            | inl ends ↦ subst (λ v. IsServed v.state) (sym ends) kept
            | inr touched ↦
                let there = ap (get ◌==◌ id) same ∙ at in
                IsEdited-IsServed id client q.0.state r.0.state there
                  (touch-IsEdited now id q.0 client r.0 there touched) kept
          ]
    ]
