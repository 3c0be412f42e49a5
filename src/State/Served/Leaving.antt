-- ===== src/State/Served/Leaving.antt =====
-- `cmd_part_all` and `cmd_kill` of src/state/v1.rs keep the invariant of the state.
use ellidri.Prelude.{
  ◌==◌, if◌then◌else◌, ==_iff, Bool-cases, Option-cases, is_empty, Text, text, ==-IsSame,
  contains_key-delete_iff, empty_has_none, get, contains_key, delete, keys, ℕ, ◌≡◌, refl, sym, ap,
  ◌∙◌, ◌⊎◌, inl, inr, Bool, true, false, not, some, List, [], ◌∷◌, ◌++◌, arith,
}
use mathlib.Core.Path.{subst}
use ellidri.Client.{Client, Item}
use ellidri.Channel.{Channel}
use ellidri.Command
use ellidri.Buffers.{ReplyBuffer, reply_message, lr_batch_begin}
use ellidri.State.{World, client_of, item_of, remove_client}
use ellidri.State.Rooms.{everyone, with_channels, find_nick}
use ellidri.State.Account.{cmd_kill}
use ellidri.State.Entry.{part_all_text, part_channels, cmd_part_all}
use ellidri.State.Members.{is_in}
use ellidri.State.Parting.{tell_total, contains-keys}
use ellidri.State.Served.{IsServed, rechanneled, rechanneled-IsServed, remove_client-IsServed}
use ellidri.State.Served.Rooms.{Nick-cases}
use ellidri.State.Served.Guests.{find_nick-missing}

-- The channels when a client is out of them: nothing is left of a channel where it was alone, and the
-- channels that it was not in are as they were.
abbrev pub channels_without : ℕ → List (Text × Channel) → List (Text × Channel)
channels_without id [] = []
channels_without id ((name, c) ∷ rest) =
    let others = channels_without id rest in
    let left = delete ◌==◌ id c.members in
    if not (contains_key ◌==◌ id c.members)
    then (name, c) ∷ others
    else if is_empty left
    then others
    else (name, record c { members = left }) ∷ others

-- What PART of all channels leaves: the client is out of them, and the others stay where they were.
record IsOut (id : ℕ) (before after : List (Text × Channel)) : Type 0 where
  exact : after ≡ channels_without id before
  members : (j : ℕ) → is_in j after ≡ (if id == j then false else is_in j before)

part_channels_total :
    (id : ℕ) (issuer : Client) (clients : List (ℕ × Client)) (channels : List (Text × Channel))
    (rb : ReplyBuffer) (sent : List (ℕ × Item))
    → ((j : ℕ) → is_in j channels ≡ true → (c : Client) × (get ◌==◌ j clients ≡ some c))
    → (r : List (Text × Channel) × ReplyBuffer × List (ℕ × Item)) × (part_channels id issuer clients
          channels rb sent
        ≡ some r)
      × IsOut id channels r.0
unfolding part_channels
part_channels_total id issuer clients [] rb sent known =
    (([], rb, sent), refl, record { exact = refl; members = λ j. ground arith })
part_channels_total id issuer clients ((name, c) ∷ rest) rb sent known =
    let left = delete ◌==◌ id c.members in
    let parted =
      reply_message issuer.full_name Command.part (part_all_text name) (lr_batch_begin rb) in
    let notice = item_of issuer.full_name Command.part (part_all_text name) in
    let others = λ (j : ℕ) (h : is_in j rest ≡ true). known j (ground arith) in
    elim (Bool-cases (contains_key ◌==◌ id c.members)) [
      | inr out ↦
          let (r, ends, moved) = part_channels_total id issuer clients rest rb sent others in
          (
            ((name, c) ∷ r.0, r.1, r.2),
            ground (arith, out, ends),
            record {
              exact = rw out (ap (λ cs. (name, c) ∷ cs) moved.exact);
              members = λ j. ground (arith, moved.members j, out, ==_iff id j);
            },
          )
      | inl inside ↦ elim (Bool-cases (is_empty left)) [
        | inl last ↦
            let (r, ends, moved) = part_channels_total id issuer clients rest parted sent others in
            (
              r,
              ground (arith, inside, last, ends),
              record {
                exact = rw (inside, last) moved.exact;
                members = λ j. ground (
                  arith,
                  moved.members j,
                  contains_key-delete_iff ==-IsSame id j c.members,
                  empty_has_none ◌==◌ j left,
                  last,
                );
              },
            )
        | inr more ↦
            let (told, heard) = tell_total notice everyone clients (keys left) sent (λ m h.
              known m (
                ground (
                  arith,
                  h,
                  contains-keys m left,
                  contains_key-delete_iff ==-IsSame id m c.members,
                ))) in
            let (r, ends, moved) = part_channels_total id issuer clients rest parted told others in
            (
              ((name, record c { members = left }) ∷ r.0, r.1, r.2),
              ground (arith, inside, more, heard, ends),
              record {
                exact =
                    rw (inside, more)
                      (ap (λ cs. (name, record c { members = left }) ∷ cs) moved.exact);
                members = λ j.
                    ground
                      (arith, moved.members j, contains_key-delete_iff ==-IsSame id j c.members);
              },
            )
      ]
    ]

cmd_part_all-state :
    (id : ℕ) (w : World) (issuer : Client)
    (q : List (Text × Channel) × ReplyBuffer × List (ℕ × Item))
    → client_of id w.state ≡ some issuer
    → part_channels id issuer w.state.clients w.state.channels w.rb w.sent ≡ some q
    → (r : World × Bool) × (cmd_part_all id w ≡ some r) × (r.0.state ≡ rechanneled q.0 w.state)
unfolding cmd_part_all
cmd_part_all-state id w issuer q at e =
    ((record (with_channels q.0 w) { rb = q.1; sent = q.2 }, true), ground (arith, at, e), refl)

-- `JOIN 0` of a connected client does not panic where nicknames lead to their clients and members are
-- registered. Of the state it changes the channels only: each channel the client was in loses it and
-- nobody else, and is gone where nobody is left; the other channels are as they were. So the client
-- is in no channel, nicknames still lead to their clients, and members are registered.
pub cmd_part_all-IsServed :
    (id : ℕ) (w : World) (issuer : Client)
    → IsServed w.state
    → client_of id w.state ≡ some issuer
    → (r : World × Bool) × (cmd_part_all id w ≡ some r)
      × (r.0.state ≡ rechanneled (channels_without id w.state.channels) w.state)
      × ((j : ℕ)
          → is_in j r.0.state.channels ≡ (if id == j then false else is_in j w.state.channels))
      × IsServed r.0.state
cmd_part_all-IsServed id w issuer served at =
    let (q, ends, moved) =
      part_channels_total id issuer w.state.clients w.state.channels w.rb w.sent
        (λ j h. let (c, found, reg) = served.joined j h in (c, found)) in
    let (r, done, how) = cmd_part_all-state id w issuer q at ends in
    (
      r,
      done,
      how ∙ ap (λ cs. rechanneled cs w.state) moved.exact,
      λ j. ap (λ s. is_in j s.channels) how ∙ moved.members j,
      subst IsServed (sym how) (
          rechanneled-IsServed w.state q.0
            (λ j h. served.joined j (ground (arith, moved.members j))) served),
    )

pub cmd_kill-cases :
    (id : ℕ) (who reason : Text) (w : World) (r : World × Bool)
    → cmd_kill id who reason w ≡ some r
    → (r.0.state ≡ w.state)
      ⊎ ((k : ℕ) × (r.0 ≡ remove_client k (text "Killed: " ++ reason) (text "Killed") w))
unfolding cmd_kill
cmd_kill-cases id who reason w r h = elim (Option-cases (client_of id w.state)) [
  | inl e ↦ ground (arith, e)
  | inr (c, e) ↦ elim (Bool-cases c.operator) [
    | inr op ↦ inl (ground (arith, e, op))
    | inl op ↦ elim (Nick-cases (find_nick who w)) [
      | inl f ↦ ground (arith, e, op, f)
      | inr (inl (v, f)) ↦ inl (ground (arith, e, op, f, find_nick-missing who w v f))
      | inr (inr (k, d, f)) ↦ inr (k, ground (arith, e, op, f))
    ]
  ]
]

pub cmd_kill-IsServed :
    (id : ℕ) (who reason : Text) (w : World) (r : World × Bool)
    → IsServed w.state
    → cmd_kill id who reason w ≡ some r
    → IsServed r.0.state
cmd_kill-IsServed id who reason w r served h = elim (cmd_kill-cases id who reason w r h) [
  | inl same ↦ subst IsServed (sym same) served
  | inr (k, gone) ↦
      subst (λ v. IsServed v.state) (sym gone)
        (remove_client-IsServed k (text "Killed: " ++ reason) (text "Killed") w served)
]
