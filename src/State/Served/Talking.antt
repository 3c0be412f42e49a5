-- ===== src/State/Served/Talking.antt =====
-- PRIVMSG and NOTICE, NICK, QUIT and PART of src/state/v1.rs keep the invariant of the state.
use ellidri.Prelude.{
  ◌==◌, Bool-cases, Option-cases, Text, get, keys, ℕ, ◌≡◌, refl, sym, ap, ◌∙◌, inl, inr, Bool, true,
  Option, some, List, arith,
}
use mathlib.Core.Path.{subst}
use ellidri.Request.{Request, Talk}
use ellidri.Cap.{is_capable_of}
use ellidri.Client.{Client, can_issue_request}
use ellidri.Client.Connection.{apply, is_registered}
use ellidri.Channel.{can_talk}
use ellidri.State.{World, same_name, client_of, send}
use ellidri.State.Rooms.{find_nick, cmd_part, about}
use ellidri.State.Session.{cmd_nick, cmd_nick_of, cmd_quit}
use ellidri.State.Owners.{cmd_nick_of-state}
use ellidri.State.Parting.{cmd_part-IsParted}
use ellidri.State.Info.{Env}
use ellidri.State.Entry.{touch}
use ellidri.State.Talk.{
  done_at, cmd_message_channel, cmd_message_user, message_item, with_content, echo, talk_each,
  away_reply,
}
use ellidri.State.Served.{IsServed, renamed-IsServed, remove_client-IsServed}
use ellidri.State.Served.Rooms.{Nick-cases}
use ellidri.State.Served.Guests.{find_nick-missing}
use ellidri.State.Served.Clients.{IsEdited, touch-IsEdited}

pub some-same : {A : Type 0} {a b : A} → some a ≡ some b → a ≡ b
some-same h = ground (arith, h)

done_at-IsEdited :
    (now id : ℕ) (w v : World) (c : Client) (r : World × Bool)
    → v.state ≡ w.state
    → client_of id w.state ≡ some c
    → done_at now id v ≡ some r
    → IsEdited id c w.state r.0.state
done_at-IsEdited now id w v c r same at h =
    let there = ap (λ s. client_of id s) same ∙ at in
    elim (Option-cases (touch now id v)) [
      | inl e ↦ ground (arith, e)
      | inr (u, e) ↦
          let ends : u ≡ r.0 = ground (arith, e) in
          subst (λ s. IsEdited id c s r.0.state) same
            (subst (λ x. IsEdited id c v.state x.state) ends (touch-IsEdited now id v c u there e))
    ]

pub cmd_message_channel-IsEdited :
    (env : Env) (id : ℕ) (args : Talk) (w : World) (c : Client) (r : World × Bool)
    → client_of id w.state ≡ some c
    → cmd_message_channel env id args w ≡ some r
    → IsEdited id c w.state r.0.state
unfolding cmd_message_channel about
cmd_message_channel-IsEdited env id args w c r at h =
    elim (Option-cases (get same_name args.to w.state.channels)) [
      | inl room ↦ inl (ground (arith, room))
      | inr (d, room) ↦ elim (Bool-cases (can_talk id d)) [
        | inr mute ↦ inl (ground (arith, room, mute))
        | inl may ↦
            let rest = with_content args.content args.to in
            let msg = message_item env c args.command rest in
            done_at-IsEdited env.now id w
              (record w {
                rb = echo env c args.command rest w.rb;
                sent = talk_each id args.command msg w.state.clients (keys d.members) w.sent;
              })
              c r refl at (ground (arith, room, may, at))
      ]
    ]

pub cmd_message_user-IsEdited :
    (env : Env) (id : ℕ) (args : Talk) (w : World) (c : Client) (r : World × Bool)
    → client_of id w.state ≡ some c
    → cmd_message_user env id args w ≡ some r
    → IsEdited id c w.state r.0.state
unfolding cmd_message_user
cmd_message_user-IsEdited env id args w c r at h = elim (Nick-cases (find_nick args.to w)) [
  | inl e ↦ ground (arith, e)
  | inr (inl (v, e)) ↦ inl (ground (arith, e, find_nick-missing args.to w v e))
  | inr (inr (k, d, e)) ↦ elim (Bool-cases (is_capable_of d.cap_enabled args.command)) [
    | inr deaf ↦ inl (ground (arith, e, deaf))
    | inl able ↦
        let rest = with_content args.content args.to in
        let msg = message_item env c args.command rest in
        done_at-IsEdited env.now id w
          (record w {
            rb = away_reply args.to d (echo env c args.command rest w.rb);
            sent = send k d msg w.sent;
          })
          c r refl at (ground (arith, e, able, at))
  ]
]

pub cmd_nick-IsServed :
    (id : ℕ) (nick : Text) (w : World) (c : Client) (r : World × Bool)
    → IsServed w.state
    → client_of id w.state ≡ some c
    → cmd_nick id nick w ≡ some r
    → IsServed r.0.state
unfolding cmd_nick
cmd_nick-IsServed id nick w c r served at h =
    let ends : cmd_nick_of id nick c w ≡ r = ground (arith, at) in
    subst (λ q. IsServed q.0.state) ends
      (elim (cmd_nick_of-state id nick c w) as (λ _. IsServed (cmd_nick_of id nick c w).0.state) [
        | inl e ↦ subst IsServed (sym e) served
        | inr e ↦ subst IsServed (sym e) (renamed-IsServed w.state id nick c at served)
      ])

pub cmd_quit-IsServed :
    (id : ℕ) (reason : Option Text) (w : World)
    → IsServed w.state
    → IsServed (cmd_quit id reason w).0.state
unfolding cmd_quit
cmd_quit-IsServed id reason w served = remove_client-IsServed id _ _ w served

pub cmd_part-IsServed :
    (id : ℕ) (from : List Text) (reason : Option Text) (w : World) (c : Client) (r : World × Bool)
    → IsServed w.state
    → client_of id w.state ≡ some c
    → cmd_part id from reason w ≡ some r
    → IsServed r.0.state
cmd_part-IsServed id from reason w c r served at h =
    let (q, ends, parted, gone, joined) = cmd_part-IsParted id from reason w c served.joined at in
    subst (λ p. IsServed p.0.state) (some-same (sym ends ∙ h))
      (record {
        owned = λ n j found.
            let (d, there, same) =
              served.owned n j (ap (get same_name n) (sym parted.same_nicks) ∙ found) in
            (d, ap (get ◌==◌ j) parted.same_clients ∙ there, same);
        joined = joined;
      })

-- Only a registered connection may issue a JOIN.
pub join-registered :
    (names keys : Text) (c : Client)
    → can_issue_request (Request.join names keys) c ≡ true
    → is_registered c.state ≡ true
unfolding can_issue_request apply is_registered
join-registered names keys c h = ground arith
