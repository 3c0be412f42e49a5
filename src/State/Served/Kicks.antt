-- ===== src/State/Served/Kicks.antt =====
-- KICK of src/state/v1.rs does not panic where the state has its invariant and the reason is ASCII.
use ellidri.Prelude.{
  ◌==◌, Option-cases, Text, ==-IsSame, contains_key-delete_iff, delete, ℕ, ◌≡◌, refl, sym, ap, ◌∙◌,
  inl, inr, true, not, Option, none, some, List, [], ◌∷◌, arith,
}
use mathlib.Core.Path.{subst}
use ellidri.Command.{Command}
use ellidri.Mask.Match.Search.{IsAscii}
use ellidri.Client.{Client}
use ellidri.Channel.{Channel}
use ellidri.Buffers.{is_some, param}
use ellidri.State.{World, client_of, item_of}
use ellidri.State.Rooms.{with_reason, find_nick, find_member}
use ellidri.State.Guests.{cut_reason, send_kick, kick_one, kick_each, kick, cmd_kick}
use ellidri.State.Served.{IsServed}
use ellidri.State.Served.Answers.{AreClients, members-AreClients}
use ellidri.State.Served.Rooms.{Guard-cases, Nick-cases, find_member-passed}
use ellidri.State.Served.Guests.{kick_one-IsKicked}
use ellidri.State.Served.Completes.{ascii-IsCut, tell-returns, find_nick-found}

send_kick-returns :
    (id : ℕ) (name nick : Text) (reason : Option Text) (left : Channel) (w : World) (c : Client)
    → AreClients w.state.clients left.members
    → client_of id w.state ≡ some c
    → is_some (send_kick id name nick reason left w) ≡ true
unfolding send_kick
send_kick-returns id name nick reason left w c known at = ground (
  arith,
  at,
  tell-returns
      (item_of c.full_name Command.kick (λ b. with_reason reason (param nick (param name b))))
      (λ m d. not (m == id)) w.state left.members w.sent known,
)

kick_one-returns :
    (id : ℕ) (name : Text) (reason : Option Text) (nick : Text) (d : Channel) (w : World)
    (c : Client)
    → IsServed w.state
    → AreClients w.state.clients d.members
    → client_of id w.state ≡ some c
    → is_some (kick_one id name reason nick d w) ≡ true
unfolding kick_one
kick_one-returns id name reason nick d w c served known at = elim (Nick-cases (find_nick nick w)) [
  | inl e ↦ absurd (find_nick-found nick w served e)
  | inr (inl (v, e)) ↦ ground (arith, e)
  | inr (inr (k, e', e)) ↦
      let left = record d { members = delete ◌==◌ k d.members } in
      let sent =
        send_kick-returns id name nick reason left w c
          (λ j m. known j (ground (arith, contains_key-delete_iff ==-IsSame k j d.members))) at in
      ground (arith, e, sent)
]

kick_each-returns :
    (id : ℕ) (name : Text) (reason : Option Text) (nicks : List Text) (d : Channel) (w : World)
    (c : Client)
    → IsServed w.state
    → AreClients w.state.clients d.members
    → client_of id w.state ≡ some c
    → is_some (kick_each id name reason nicks d w) ≡ true
unfolding kick_each
kick_each-returns id name reason [] d w c served known at = refl
kick_each-returns id name reason (nick ∷ nicks) d w c served known at =
    let first = kick_one-returns id name reason nick d w c served known at in
    elim (Option-cases (kick_one id name reason nick d w)) [
      | inl e ↦ ground (arith, first, e)
      | inr (q, e) ↦
          let done = kick_one-IsKicked id name reason nick d w q e in
          let rest =
            kick_each-returns id name reason nicks q.0 q.1 c
              (subst IsServed (sym done.same_state) served)
              (λ j m.
                let (x, found) = known j (done.fewer j m) in
                (x, ap (client_of j) done.same_state ∙ found))
              (ap (client_of id) done.same_state ∙ at) in
          ground (arith, e, rest)
    ]

kick-returns :
    (id : ℕ) (name : Text) (who : List Text) (reason cut : Option Text) (d : Channel) (w : World)
    (c : Client)
    → IsServed w.state
    → AreClients w.state.clients d.members
    → client_of id w.state ≡ some c
    → cut_reason w.state.kicklen reason ≡ some cut
    → is_some (kick id name who reason d w) ≡ true
unfolding kick
kick-returns id name who reason cut d w c served known at e =
    ground (arith, e, kick_each-returns id name cut who d w c served known at)

cut_reason-returns :
    (k : ℕ) (reason : Option Text)
    → ((t : Text) → reason ≡ some t → IsAscii t)
    → (cut : Option Text) × (cut_reason k reason ≡ some cut)
unfolding cut_reason
cut_reason-returns k none ascii = (none, refl)
cut_reason-returns k (some t) ascii =
    let (r, cut, size) = ascii-IsCut t k (ascii t refl) in (some r, ground (arith, cut))

pub cmd_kick-returns :
    (id : ℕ) (name : Text) (who : List Text) (reason : Option Text) (w : World) (c : Client)
    → IsServed w.state
    → client_of id w.state ≡ some c
    → ((t : Text) → reason ≡ some t → IsAscii t)
    → is_some (cmd_kick id name who reason w) ≡ true
unfolding cmd_kick
cmd_kick-returns id name who reason w c served at ascii =
    elim (Guard-cases (find_member id name w)) [
      | inl (v, e) ↦ ground (arith, e)
      | inr (d, m, e) ↦
          let room = find_member-passed id name w d m e in
          let (cut, short) = cut_reason-returns w.state.kicklen reason ascii in
          let kicked =
            kick-returns id name who reason cut d w c served
              (members-AreClients w.state name d served.joined room) at short in
          ground (arith, e, kicked)
    ]
