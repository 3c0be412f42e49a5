-- ===== src/State/Served/Entering.antt =====
-- JOIN of src/state/v1.rs does not panic where the state has its invariant and the nickname and the full
-- name of the client are ASCII.
use ellidri.Prelude.{
  ◌==◌, if◌then◌else◌, ==_self, Bool-cases, Option-cases, keep, Text, empty_has_none, get, get-put,
  contains_key, put, keys, contains, ℕ, ◌≡◌, refl, sym, ap, ◌∙◌, inl, inr, Bool, true, false, not,
  ◌||◌, Option, some, List, [], ◌∷◌, arith,
}
use mathlib.Core.Path.{subst}
use ellidri.Cap.{Cap}
use ellidri.Command.{Command}
use ellidri.Mask.Match.Search.{IsAscii}
use ellidri.Client.{Client, Item}
use ellidri.Client.Connection.{is_registered}
use ellidri.Channel.{Channel, add_member}
use ellidri.Channel.Modes.Defaults.{new_total}
use ellidri.Buffers.{is_some, param, trailing_param, lr_batch_begin, reply_message}
use ellidri.State.{World, same_name, client_of, item_of, send}
use ellidri.State.Rooms.{with_channels}
use ellidri.State.Lists.{send_names, send_topic, topic_lines}
use ellidri.State.Join.Laws.{admits, check_join_iff}
use ellidri.State.Entry.{
  extended_text, announce, announce_away, send_join_to, send_join, welcome, enter, join_one,
  join_each, cmd_join,
}
use ellidri.State.Owners.{same_name-IsSame}
use ellidri.State.Parting.{tell_total, contains-keys, is_in-get}
use ellidri.State.Served.{IsServed, IsMember}
use ellidri.State.Served.Answers.{AreClients, send_names-returns}
use ellidri.State.Served.Completes.{contains-keep, touch-returns}
use ellidri.State.Served.Join.{
  entered, entered-IsServed, send_join-state, join_one-IsServed, join_each-IsServed,
  IsMember-clients,
}

-- The clients of a list are all there.
abbrev AreThere : List (ℕ × Client) → List ℕ → Type 0
AreThere clients ms =
    (m : ℕ) → contains ◌==◌ m ms ≡ true → (c : Client) × (get ◌==◌ m clients ≡ some c)

announce-returns :
    (plain extended : Item) (clients : List (ℕ × Client)) (ms : List ℕ) (sent : List (ℕ × Item))
    → AreThere clients ms
    → (out : List (ℕ × Item)) × (announce plain extended clients ms sent ≡ some out)
unfolding announce
announce-returns plain extended clients [] sent known = (sent, refl)
announce-returns plain extended clients (m ∷ ms) sent known =
    let (c, at) = known m (ground (arith, ==_self m)) in
    let (out, told) =
      announce-returns plain extended clients ms
        (send m c (if c.cap_enabled Cap.extended_join then extended else plain) sent)
        (λ k h. known k (ground arith)) in
    (out, ground (arith, at, told))

announce_away-returns :
    (client : Client) (clients : List (ℕ × Client)) (ms : List ℕ) (sent : List (ℕ × Item))
    → AreThere clients ms
    → (out : List (ℕ × Item)) × (announce_away client clients ms sent ≡ some out)
unfolding announce_away
announce_away-returns client clients ms sent known = elim (Option-cases client.away_message) [
  | inl e ↦ (sent, ground (arith, e))
  | inr (m, e) ↦
      let (out, told) =
        tell_total (item_of client.full_name Command.away (trailing_param m))
          (λ t c. c.cap_enabled Cap.away_notify) clients ms sent known in
      (out, ground (arith, e, told))
]

send_join_to-returns :
    (id : ℕ) (name : Text) (client : Client) (c : Channel) (w : World)
    → AreClients w.state.clients c.members
    → (v : World) × (send_join_to id name client c w ≡ some v)
unfolding send_join_to
send_join_to-returns id name client c w known =
    let others = keep (λ m. not (m == id)) (keys c.members) in
    let there = λ (m : ℕ) (h : contains ◌==◌ m others ≡ true).
      known m (
        sym (contains-keys m c.members)
        ∙ contains-keep (λ k. not (k == id)) m (keys c.members) h) in
    let (told, heard) =
      announce-returns (item_of client.full_name Command.join (param name))
        (item_of client.full_name Command.join (extended_text name client)) w.state.clients others
        w.sent there in
    let (sent, gone) = announce_away-returns client w.state.clients others told there in
    (
      record w { rb = reply_message client.full_name Command.join (param name) w.rb; sent = sent },
      ground (arith, heard, gone),
    )

send_join-returns :
    (id : ℕ) (name : Text) (client : Client) (c : Channel) (w : World)
    → get same_name name w.state.channels ≡ some c
    → AreClients w.state.clients c.members
    → (v : World) × (send_join id name client w ≡ some v)
unfolding send_join
send_join-returns id name client c w at known =
    let (v, told) = send_join_to-returns id name client c w known in (v, ground (arith, at, told))

-- The channel whose name was just put in the map is there.
get-put_self :
    (name : Text) (c : Channel) (channels : List (Text × Channel))
    → get same_name name (put same_name name c channels) ≡ some c
get-put_self name c channels =
    get-put same_name-IsSame name name c channels ∙ rw (same_name-IsSame.same_refl name) refl

welcome-returns :
    (id : ℕ) (name : Text) (w : World) (c : Channel) (d : Client)
    → get same_name name w.state.channels ≡ some c
    → IsServed w.state
    → client_of id w.state ≡ some d
    → (v : World) × (welcome id name w ≡ some v)
unfolding welcome send_topic
welcome-returns id name w c d room served at =
    let begun = topic_lines name false c w.rb in
    let names = send_names-returns id name w.state begun d served at in
    elim (Option-cases (send_names id name w.state begun)) [
      | inl e ↦ ground (arith, names, e)
      | inr (rb, e) ↦ (record w { rb = rb }, ground (arith, room, e))
    ]

pub enter-returns :
    (id : ℕ) (name : Text) (client : Client) (c : Channel) (w : World)
    → IsServed w.state
    → IsMember id w.state
    → ((j : ℕ) → contains_key ◌==◌ j c.members ≡ true → IsMember j w.state)
    → (v : World) × (enter id name client c w ≡ some v)
unfolding enter
enter-returns id name client c w served member known =
    let joined = add_member id c in
    let inside = with_channels (put same_name name joined w.state.channels) w in
    let begun : World = record inside { rb = lr_batch_begin w.rb } in
    let room = get-put_self name joined w.state.channels in
    let (v, told) =
      send_join-returns id name client joined begun room
        (λ j m. let (d, at, reg) = entered id c w.state member known j m in (d, at)) in
    let same = send_join-state id name client begun v told in
    let (d, at, reg) = member in
    let kept = subst IsServed (sym same) (entered-IsServed id name c w.state served member known) in
    let (out, welcomed) =
      welcome-returns id name v joined d (ap (λ s. get same_name name s.channels) same ∙ room) kept
        (ap (client_of id) same ∙ at) in
    (out, ground (arith, told, welcomed))

join_one-returns :
    (id : ℕ) (client : Client) (name : Text) (key : Option Text) (w : World)
    → IsServed w.state
    → IsMember id w.state
    → IsAscii client.nick
    → IsAscii client.full_name
    → is_some (join_one id client name key w) ≡ true
unfolding join_one
join_one-returns id client name key w served member a b =
    elim (Option-cases (get same_name name w.state.channels)) [
      | inl room ↦
          let (c, made, fresh) = new_total w.state.default_chan_mode in
          let (v, went) = enter-returns id name client c w served member (λ j m. ground (
            arith,
            empty_has_none ◌==◌ j c.members,
            fresh.no_members,
            subst (λ ms. contains_key ◌==◌ j ms ≡ true) fresh.no_members m,
          )) in
          ground (arith, room, made, went)
      | inr (c, room) ↦
          let (told, checked, same) = check_join_iff id client c name key w a b in
          let (v, went) =
            enter-returns id name client c told (subst IsServed (sym same) served)
              (subst (IsMember id) (sym same) member)
              (λ j m.
                subst (IsMember j) (sym same)
                  (served.joined j (is_in-get j name w.state.channels c room m))) in
          elim (Bool-cases (admits id client c key)) [
            | inl t ↦ ground (arith, room, checked, went, t)
            | inr f ↦ ground (arith, room, checked, f)
          ]
    ]

join_each-returns :
    (id : ℕ) (client : Client) (list : List (Text × Option Text)) (p : World × Bool)
    → IsServed p.0.state
    → IsMember id p.0.state
    → IsAscii client.nick
    → IsAscii client.full_name
    → is_some (join_each id client list p) ≡ true
unfolding join_each
join_each-returns id client [] p served member a b = refl
join_each-returns id client ((name, key) ∷ list) p served member a b =
    let first = join_one-returns id client name key p.0 served member a b in
    elim (Option-cases (join_one id client name key p.0)) [
      | inl e ↦ ground (arith, first, e)
      | inr (q, e) ↦
          let (kept, same) = join_one-IsServed id client name key p.0 q served member e in
          let rest =
            join_each-returns id client list (q.0, p.1 || q.1) kept
              (IsMember-clients id p.0.state q.0.state same member) a b in
          ground (arith, e, rest)
    ]

pub cmd_join-returns :
    (now id : ℕ) (list : List (Text × Option Text)) (w : World) (client : Client)
    → IsServed w.state
    → client_of id w.state ≡ some client
    → is_registered client.state ≡ true
    → IsAscii client.nick
    → IsAscii client.full_name
    → is_some (cmd_join now id list w) ≡ true
unfolding cmd_join
cmd_join-returns now id list w client served at reg a b =
    let all = join_each-returns id client list (w, false) served (client, at, reg) a b in
    elim (Option-cases (join_each id client list (w, false))) [
      | inl e ↦ ground (arith, all, e)
      | inr (q, e) ↦
          let (kept, same) =
            join_each-IsServed id client list (w, false) q served (client, at, reg) e in
          let touched = touch-returns now id q.0 client (ap (get ◌==◌ id) same ∙ at) in
          elim (Bool-cases q.1) [
            | inl t ↦ ground (arith, at, e, touched, t)
            | inr f ↦ ground (arith, at, e, f)
          ]
    ]
