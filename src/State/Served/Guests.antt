-- ===== src/State/Served/Guests.antt =====
-- KICK and INVITE of src/state/v1.rs keep the invariant of the state.
use ellidri.Prelude.{
  ◌==◌, Bool-cases, Option-cases, Text, ==-IsSame, contains_key-delete_iff, get, contains_key, put,
  delete, add, ℕ, ◌≡◌, refl, ap, ◌∙◌, ◌⊎◌, inl, inr, Bool, true, Option, none, some, List, [], ◌∷◌,
  arith,
}
use mathlib.Core.Path.{subst}
use ellidri.Client.{Client}
use ellidri.Channel.{Channel}
use ellidri.State.{World, same_name}
use ellidri.State.Rooms.{no_such_nick, found_nick, find_nick, find_member, about}
use ellidri.State.Guests.{
  kick_one, kick_each, cut_reason, kick, cmd_kick, send_kick, not_in_channel, invite,
  invite_guarded, cmd_invite,
}
use ellidri.State.Served.{rechanneled}
use ellidri.State.Served.Rooms.{
  IsRoomChange, Guard-cases, Nick-cases, find_member-passed, find_member-refused,
}

send_kick-state :
    (id : ℕ) (name nick : Text) (reason : Option Text) (left : Channel) (w v : World)
    → send_kick id name nick reason left w ≡ some v
    → v.state ≡ w.state
unfolding send_kick
send_kick-state id name nick reason left w v h = ground arith

pub find_nick-missing :
    (nick : Text) (w v : World) → find_nick nick w ≡ no_such_nick v → v.state ≡ w.state
unfolding find_nick about
find_nick-missing nick w v h = ground arith

-- What an iteration of KICK leaves: the state, and nobody new in the channel.
pub record IsKicked (c : Channel) (w : World) (r : Channel × World) : Type 0 where
  pub same_state : r.1.state ≡ w.state
  pub fewer :
      (j : ℕ) → contains_key ◌==◌ j r.0.members ≡ true → contains_key ◌==◌ j c.members ≡ true

kick_found :
    (id : ℕ) (name : Text) (reason : Option Text) (nick : Text) (c : Channel) (w : World) (k : ℕ)
    (d : Client) (r : Channel × World)
    → find_nick nick w ≡ found_nick k d
    → kick_one id name reason nick c w ≡ some r
    → (r.1.state ≡ w.state) × ((r.0 ≡ c) ⊎ (r.0 ≡ record c { members = delete ◌==◌ k c.members }))
unfolding kick_one not_in_channel
kick_found id name reason nick c w k d r e h =
    let left = record c { members = delete ◌==◌ k c.members } in
    elim (Option-cases (send_kick id name nick reason left w)) [
      | inl told ↦ ground (arith, e, told)
      | inr (v, told) ↦ ground (arith, e, told, send_kick-state id name nick reason left w v told)
    ]

kick_missing :
    (id : ℕ) (name : Text) (reason : Option Text) (nick : Text) (c : Channel) (w v : World)
    (r : Channel × World)
    → find_nick nick w ≡ no_such_nick v
    → kick_one id name reason nick c w ≡ some r
    → (r.1.state ≡ w.state) × (r.0 ≡ c)
unfolding kick_one not_in_channel
kick_missing id name reason nick c w v r e h = ground (arith, e, find_nick-missing nick w v e)

pub kick_one-IsKicked :
    (id : ℕ) (name : Text) (reason : Option Text) (nick : Text) (c : Channel) (w : World)
    (r : Channel × World)
    → kick_one id name reason nick c w ≡ some r
    → IsKicked c w r
unfolding kick_one not_in_channel
kick_one-IsKicked id name reason nick c w r h = elim (Nick-cases (find_nick nick w)) [
  | inl e ↦ ground (arith, e)
  | inr (inl (v, e)) ↦
      let (same, kept) = kick_missing id name reason nick c w v r e h in
      record {
        same_state = same;
        fewer = λ j m. subst (λ x. contains_key ◌==◌ j x.members ≡ true) kept m;
      }
  | inr (inr (k, d, e)) ↦
      let (same, how) = kick_found id name reason nick c w k d r e h in
      record {
        same_state = same;
        fewer = λ j m. elim how [
          | inl kept ↦ subst (λ x. contains_key ◌==◌ j x.members ≡ true) kept m
          | inr cut ↦ ground (
            arith,
            contains_key-delete_iff ==-IsSame k j c.members,
            subst (λ x. contains_key ◌==◌ j x.members ≡ true) cut m,
          )
        ];
      }
]

kick_each-IsKicked :
    (id : ℕ) (name : Text) (reason : Option Text) (nicks : List Text) (c : Channel) (w : World)
    (r : Channel × World)
    → kick_each id name reason nicks c w ≡ some r
    → IsKicked c w r
unfolding kick_each
kick_each-IsKicked id name reason [] c w r h =
    let ends : (c, w) ≡ r = ground arith in
    subst (IsKicked c w) ends (record { same_state = refl; fewer = λ j m. m })
kick_each-IsKicked id name reason (nick ∷ nicks) c w r h =
    elim (Option-cases (kick_one id name reason nick c w)) [
      | inl e ↦ ground (arith, e)
      | inr (q, e) ↦
          let first = kick_one-IsKicked id name reason nick c w q e in
          let rest = kick_each-IsKicked id name reason nicks q.0 q.1 r (ground (arith, e)) in
          record {
            same_state = rest.same_state ∙ first.same_state;
            fewer = λ j m. first.fewer j (rest.fewer j m);
          }
    ]

kick-state :
    (id : ℕ) (name : Text) (who : List Text) (cut : Option Text) (reason : Option Text)
    (c : Channel) (w : World) (q : Channel × World) (r : World × Bool)
    → cut_reason w.state.kicklen reason ≡ some cut
    → kick_each id name cut who c w ≡ some q
    → kick id name who reason c w ≡ some r
    → r.0.state ≡ rechanneled (put same_name name q.0 q.1.state.channels) q.1.state
unfolding kick
kick-state id name who cut reason c w q r e f h = ground (arith, e, f)

kick-IsRoomChange :
    (id : ℕ) (name : Text) (who : List Text) (reason : Option Text) (c : Channel) (w : World)
    (r : World × Bool)
    → get same_name name w.state.channels ≡ some c
    → kick id name who reason c w ≡ some r
    → IsRoomChange name w.state r.0.state
unfolding kick
kick-IsRoomChange id name who reason c w r room h =
    elim (Option-cases (cut_reason w.state.kicklen reason)) [
      | inl e ↦ ground (arith, e)
      | inr (cut, e) ↦ elim (Option-cases (kick_each id name cut who c w)) [
        | inl f ↦ ground (arith, e, f)
        | inr (q, f) ↦
            let done = kick_each-IsKicked id name cut who c w q f in
            let ends = kick-state id name who cut reason c w q r e f h in
            inr (
              c,
              q.0,
              room,
              ends ∙ ap (λ s. rechanneled (put same_name name q.0 s.channels) s) done.same_state,
              done.fewer,
            )
      ]
    ]

pub cmd_kick-IsRoomChange :
    (id : ℕ) (name : Text) (who : List Text) (reason : Option Text) (w : World) (r : World × Bool)
    → cmd_kick id name who reason w ≡ some r
    → IsRoomChange name w.state r.0.state
unfolding cmd_kick about
cmd_kick-IsRoomChange id name who reason w r h = elim (Guard-cases (find_member id name w)) [
  | inl (v, e) ↦ inl (ground (arith, e, find_member-refused id name w v e))
  | inr (c, m, e) ↦ elim (Bool-cases m.operator) [
    | inl op ↦
        kick-IsRoomChange id name who reason c w r (find_member-passed id name w c m e)
          (ground (arith, e, op))
    | inr op ↦ inl (ground (arith, e, op))
  ]
]

invite-state :
    (id : ℕ) (who : Text) (who_id : ℕ) (invited : Client) (name : Text) (c : Channel) (w : World)
    (r : World × Bool)
    → invite id who who_id invited name c w ≡ some r
    → r.0.state
      ≡ rechanneled
          (put same_name name (record c { invites = add ◌==◌ who_id c.invites }) w.state.channels)
          w.state
unfolding invite
invite-state id who who_id invited name c w r h = ground arith

invite_guarded-state :
    (id : ℕ) (who : Text) (who_id : ℕ) (invited : Client) (name : Text) (c : Channel) (w : World)
    (r : World × Bool)
    → invite_guarded id who who_id invited name c w ≡ some r
    → (r.0.state ≡ w.state) ⊎ (invite id who who_id invited name c w ≡ some r)
unfolding invite_guarded about
invite_guarded-state id who who_id invited name c w r h = ground arith

cmd_invite-missing :
    (id : ℕ) (who name : Text) (w : World) (r : World × Bool)
    → get same_name name w.state.channels ≡ none
    → cmd_invite id who name w ≡ some r
    → r.0.state ≡ w.state
unfolding cmd_invite about
cmd_invite-missing id who name w r room h = elim (Nick-cases (find_nick who w)) [
  | inl e ↦ ground (arith, e)
  | inr (inl (v, e)) ↦ ground (arith, e, find_nick-missing who w v e)
  | inr (inr (k, d, e)) ↦ ground (arith, e, room)
]

pub cmd_invite-IsRoomChange :
    (id : ℕ) (who name : Text) (w : World) (r : World × Bool)
    → cmd_invite id who name w ≡ some r
    → IsRoomChange name w.state r.0.state
unfolding cmd_invite
cmd_invite-IsRoomChange id who name w r h =
    elim (Option-cases (get same_name name w.state.channels)) [
      | inl room ↦ inl (cmd_invite-missing id who name w r room h)
      | inr (c, room) ↦ elim (Nick-cases (find_nick who w)) [
        | inl e ↦ ground (arith, e)
        | inr (inl (v, e)) ↦ inl (ground (arith, e, find_nick-missing who w v e))
        | inr (inr (k, d, e)) ↦
            elim (invite_guarded-state id who k d name c w r (ground (arith, e, room))) [
              | inl same ↦ inl same
              | inr went ↦ inr (
                c,
                record c { invites = add ◌==◌ k c.invites },
                room,
                invite-state id who k d name c w r went,
                λ j m. m,
              )
            ]
      ]
    ]
