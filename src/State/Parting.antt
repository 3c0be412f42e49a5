-- ===== src/State/Parting.antt =====
-- PART on a state whose members are clients: `cmd_part` of src/state/v1.rs.
use ellidri.Prelude.{
  ◌==◌, if◌then◌else◌, ==_self, Bool-cases, Option-cases, is_empty, Text, text, ==-IsSame,
  contains_key-delete_iff, empty_has_none, get-delete, get-put, get-same, any, get, contains_key,
  put, delete, keys, contains, ℕ, ◌≡◌, refl, sym, ap, ◌∙◌, ◌⊎◌, inl, inr, Bool, true, false, ◌&&◌,
  ◌||◌, Option, none, some, List, [], ◌∷◌, arith,
}
use mathlib.Core.Path.{subst}
use ellidri.Channel.{Channel}
use ellidri.Client.{Client, Item}
use ellidri.State.{State, World, same_name, client_of, send}
use ellidri.State.Owners.{same_name-IsSame}
use ellidri.State.Members.{is_in, IsJoined}
use ellidri.State.Rooms.{
  tell, part_text, not_on_channel, part_notice, part_from, part_one, part_each, cmd_part, about,
  everyone, with_channels,
}
use ellidri.Buffers.{reply_message, lr_batch_begin}
use ellidri.Command

-- Telling members that are all clients does not panic.
pub tell_total :
    (i : Item) (filter : ℕ → Client → Bool) (clients : List (ℕ × Client)) (ms : List ℕ)
    (sent : List (ℕ × Item))
    → ((m : ℕ) → contains ◌==◌ m ms ≡ true → (c : Client) × (get ◌==◌ m clients ≡ some c))
    → (out : List (ℕ × Item)) × (tell i filter clients ms sent ≡ some out)
unfolding tell
tell_total i filter clients [] sent known = (sent, refl)
tell_total i filter clients (m ∷ ms) sent known =
    let (c, at) = known m (ground (arith, ==_self m)) in
    let rest =
      tell_total i filter clients ms (if filter m c then send m c i sent else sent)
        (λ k h. known k (ground arith)) in
    (rest.0, ground (arith, at, rest.1))

pub contains-keys :
    {V : Type 0} (j : ℕ) (m : List (ℕ × V)) → contains ◌==◌ j (keys m) ≡ contains_key ◌==◌ j m
contains-keys j [] = refl
contains-keys j (e ∷ m) = ground (arith, contains-keys j m)

pub is_in-get :
    (j : ℕ) (name : Text) (channels : List (Text × Channel)) (c : Channel)
    → get same_name name channels ≡ some c
    → contains_key ◌==◌ j c.members ≡ true
    → is_in j channels ≡ true
is_in-get j name [] c h k = ground arith
is_in-get j name ((other, d) ∷ rest) c h k = elim (Bool-cases (same_name other name)) [
  | inl e ↦
      let one = ap (λ o. elim o [ none ↦ false | some x ↦ contains_key ◌==◌ j x.members ]) h in
      ground (arith, one)
  | inr e ↦ ground (arith, is_in-get j name rest c (ground arith) k)
]

pub is_in-delete :
    (j : ℕ) (name : Text) (channels : List (Text × Channel))
    → is_in j (delete same_name name channels) ≡ true
    → is_in j channels ≡ true
is_in-delete j name [] h = h
is_in-delete j name ((other, d) ∷ rest) h = ground (arith, is_in-delete j name rest)

pub is_in-put :
    (j : ℕ) (name : Text) (left : Channel) (channels : List (Text × Channel))
    → is_in j (put same_name name left channels) ≡ true
    → (contains_key ◌==◌ j left.members || is_in j channels) ≡ true
is_in-put j name left [] h = ground arith
is_in-put j name left ((other, d) ∷ rest) h = ground (arith, is_in-put j name left rest)

abbrev pub is_member_of : ℕ → Option Channel → Bool
is_member_of j none = false
is_member_of j (some c) = contains_key ◌==◌ j c.members

-- The client is a member of the channel with a name.
abbrev pub in_room : ℕ → Text → List (Text × Channel) → Bool
in_room j name channels = is_member_of j (get same_name name channels)

-- How a state may change when a client leaves channels: for every name of a channel, everyone else
-- is a member of that channel if and only if they were, and the client only if it was.
pub record IsParted (id : ℕ) (s t : State) : Type 0 where
  pub same_clients : t.clients ≡ s.clients
  pub same_nicks : t.nicks ≡ s.nicks
  pub fewer : (j : ℕ) → is_in j t.channels ≡ true → is_in j s.channels ≡ true
  pub others :
      (j : ℕ) (name : Text)
      → (id == j) ≡ false
      → in_room j name t.channels ≡ in_room j name s.channels
  pub own : (name : Text) → in_room id name t.channels ≡ true → in_room id name s.channels ≡ true

IsParted-refl : (id : ℕ) (s : State) → IsParted id s s
IsParted-refl id s = record {
  same_clients = refl;
  same_nicks = refl;
  fewer = λ j h. h;
  others = λ j name h. refl;
  own = λ name h. h;
}

IsParted-trans : (id : ℕ) (s t u : State) → IsParted id s t → IsParted id t u → IsParted id s u
IsParted-trans id s t u p q = record {
  same_clients = q.same_clients ∙ p.same_clients;
  same_nicks = q.same_nicks ∙ p.same_nicks;
  fewer = λ j h. p.fewer j (q.fewer j h);
  others = λ j name h. q.others j name h ∙ p.others j name h;
  own = λ name h. p.own name (q.own name h);
}

IsParted-IsJoined : (id : ℕ) (s t : State) → IsParted id s t → IsJoined s → IsJoined t
IsParted-IsJoined id s t p joined j h =
    let (c, at, reg) = joined j (p.fewer j h) in
    (c, ap (λ cs. get ◌==◌ j cs) p.same_clients ∙ at, reg)

-- What a channel becomes that the client leaves: it goes when it is empty.
abbrev rest_of : Channel → Option Channel
rest_of left = if is_empty left.members then none else some left

in_rest_of :
    (j : ℕ) (left : Channel) → is_member_of j (rest_of left) ≡ contains_key ◌==◌ j left.members
in_rest_of j left = ground (arith, empty_has_none ◌==◌ j left.members)

-- Who is in the channel with the name `n` when the client has left the one with the name `name`.
in_room-rest :
    (id j : ℕ) (name n : Text) (c : Channel) (channels after : List (Text × Channel))
    → get same_name name channels ≡ some c
    → get same_name n after ≡ (
        if same_name name n
        then rest_of (record c { members = delete ◌==◌ id c.members })
        else get same_name n channels)
    → in_room j n after ≡ (if same_name name n && id == j then false else in_room j n channels)
in_room-rest id j name n c channels after at e = elim (Bool-cases (same_name name n)) [
  | inl h ↦
      let left = record c { members = delete ◌==◌ id c.members } in
      let there : in_room j n channels ≡ contains_key ◌==◌ j c.members =
        ap (is_member_of j) (get-same same_name-IsSame name n channels h ∙ at) in
      let found : get same_name n after ≡ rest_of left = e ∙ rw h refl in
      let here : in_room j n after ≡ contains_key ◌==◌ j left.members =
        ap (is_member_of j) found ∙ in_rest_of j left in
      rw (h, here, there) (contains_key-delete_iff ==-IsSame id j c.members)
  | inr h ↦
      let found : get same_name n after ≡ get same_name n channels = e ∙ rw h refl in
      rw h (ap (is_member_of j) found)
]

part_from-state :
    (issuer : Client) (reason : Option Text) (name : Text) (left : Channel) (w : World)
    (out : List (ℕ × Item))
    → tell (part_notice issuer reason name) everyone w.state.clients (keys left.members) w.sent
      ≡ some out
    → (r : World × Bool) × (part_from issuer reason name left w ≡ some r)
      × (((is_empty left.members ≡ true)
            × (r.0.state ≡ record w.state { channels = delete same_name name w.state.channels }))
          ⊎ ((is_empty left.members ≡ false)
              × (r.0.state
                  ≡ record w.state { channels = put same_name name left w.state.channels })))
unfolding part_from
part_from-state issuer reason name left w out told =
    let rb = reply_message issuer.full_name Command.part (part_text reason name) w.rb in
    elim (Bool-cases (is_empty left.members)) [
      | inl e ↦ (
        (record (with_channels (delete same_name name w.state.channels) w) { rb = rb }, true),
        ground (arith, e),
        inl (e, refl),
      )
      | inr e ↦ (
        (
          record (with_channels (put same_name name left w.state.channels) w) {
            rb = rb;
            sent = out;
          },
          true,
        ),
        ground (arith, e, told),
        inr (e, refl),
      )
    ]

-- The client has left the channel with a name, and nothing else has changed.
record IsLeft (id : ℕ) (name : Text) (s t : State) : Type 0 where
  parted : IsParted id s t
  gone : (n : Text) → same_name name n ≡ true → in_room id n t.channels ≡ false

IsLeft-rest :
    (id : ℕ) (name : Text) (c : Channel) (s : State) (after : List (Text × Channel))
    → get same_name name s.channels ≡ some c
    → ((j : ℕ) → is_in j after ≡ true → is_in j s.channels ≡ true)
    → ((n : Text)
        → get same_name n after ≡ (
            if same_name name n
            then rest_of (record c { members = delete ◌==◌ id c.members })
            else get same_name n s.channels))
    → IsLeft id name s (record s { channels = after })
IsLeft-rest id name c s after at fewer found =
    let room = λ (j : ℕ) (n : Text). in_room-rest id j name n c s.channels after at (found n) in
    record {
      parted = record {
        same_clients = refl;
        same_nicks = refl;
        fewer = fewer;
        others = λ j n h. ground (arith, room j n, h);
        own = λ n h. ground (arith, room id n, h);
      };
      gone = λ n h. ground (arith, room id n, h, ==_self id);
    }

IsLeft-to : (id : ℕ) (name : Text) (s t u : State) → u ≡ t → IsLeft id name s t → IsLeft id name s u
IsLeft-to id name s t u e left = subst (IsLeft id name s) (sym e) left

part_from-IsLeft :
    (id : ℕ) (issuer : Client) (reason : Option Text) (name : Text) (c : Channel) (w : World)
    → get same_name name w.state.channels ≡ some c
    → IsJoined w.state
    → (r : World × Bool) × (part_from issuer reason name
          (record c { members = delete ◌==◌ id c.members })
          w
        ≡ some r)
      × IsLeft id name w.state r.0.state
part_from-IsLeft id issuer reason name c w at joined =
    let left = record c { members = delete ◌==◌ id c.members } in
    let channels = w.state.channels in
    let smaller = λ (j : ℕ) (h : contains_key ◌==◌ j left.members ≡ true).
      is_in-get j name channels c at
        (ground (arith, contains_key-delete_iff ==-IsSame id j c.members)) in
    let (out, told) =
      tell_total (part_notice issuer reason name) everyone w.state.clients (keys left.members)
        w.sent
        (λ m h.
          let (d, found, reg) = joined m (smaller m (sym (contains-keys m left.members) ∙ h)) in
          (d, found)) in
    let (r, ends, how) = part_from-state issuer reason name left w out told in
    (
      r,
      ends,
      elim how [
        | inl (empty, e) ↦ IsLeft-to id name w.state _ r.0.state e (
            IsLeft-rest id name c w.state (delete same_name name channels) at
              (λ j h. is_in-delete j name channels h)
              (λ n. rw empty (get-delete same_name-IsSame name n channels)))
        | inr (kept, e) ↦ IsLeft-to id name w.state _ r.0.state e (
            IsLeft-rest id name c w.state (put same_name name left channels) at
              (λ j h. ground (arith, is_in-put j name left channels h, smaller j))
              (λ n. rw kept (get-put same_name-IsSame name n left channels)))
      ],
    )

not_in_room :
    (id : ℕ) (name : Text) (s : State) → in_room id name s.channels ≡ false → IsLeft id name s s
not_in_room id name s h = record {
  parted = IsParted-refl id s;
  gone = λ n e. ap (is_member_of id) (get-same same_name-IsSame name n s.channels e) ∙ h;
}

part_one-IsLeft :
    (id : ℕ) (issuer : Client) (reason : Option Text) (name : Text) (w : World)
    → IsJoined w.state
    → (r : World × Bool) × (part_one id issuer reason name w ≡ some r)
      × IsLeft id name w.state r.0.state
unfolding part_one about
part_one-IsLeft id issuer reason name w joined =
    let begun = record w { rb = lr_batch_begin w.rb } in
    let absent : World × Bool = (about (text "442") name not_on_channel begun, false) in
    elim (Option-cases (get same_name name w.state.channels)) [
      | inl e ↦ (absent, ground (arith, e), not_in_room id name w.state (ap (is_member_of id) e))
      | inr (c, e) ↦ elim (Bool-cases (contains_key ◌==◌ id c.members)) [
        | inl m ↦
            let (r, ends, left) = part_from-IsLeft id issuer reason name c begun e joined in
            (r, ground (arith, e, m, ends), left)
        | inr m ↦
            (absent, ground (arith, e, m), not_in_room id name w.state (ap (is_member_of id) e ∙ m))
      ]
    ]

-- One of the names is the name `n`, up to case.
abbrev pub is_named : Text → List Text → Bool
is_named n names = any (λ name. same_name name n) names

false-unless : (b c : Bool) → (b ≡ true → c ≡ true) → c ≡ false → b ≡ false
false-unless b c h e = ground (arith, h)

part_each-IsParted :
    (id : ℕ) (issuer : Client) (reason : Option Text) (names : List Text) (r : World × Bool)
    → IsJoined r.0.state
    → (out : World × Bool) × (part_each id issuer reason names r ≡ some out)
      × IsParted id r.0.state out.0.state
      × ((n : Text) → is_named n names ≡ true → in_room id n out.0.state.channels ≡ false)
unfolding part_each
part_each-IsParted id issuer reason [] r joined = (r, refl, IsParted-refl id r.0.state, λ n h. cc)
part_each-IsParted id issuer reason (name ∷ names) r joined =
    let (next, ends, left) = part_one-IsLeft id issuer reason name r.0 joined in
    let (out, all_end, rest, gone) =
      part_each-IsParted id issuer reason names (next.0, r.1 && next.1)
        (IsParted-IsJoined id r.0.state next.0.state left.parted joined) in
    (
      out,
      ground (arith, ends, all_end),
      IsParted-trans id r.0.state next.0.state out.0.state left.parted rest,
      λ n h. elim (Bool-cases (same_name name n)) [
        | inl e ↦ false-unless _ _ (rest.own n) (left.gone n e)
        | inr e ↦ gone n (ground (arith, h, e))
      ],
    )

-- Where the members of the channels are registered clients, PART of a connected client does not
-- panic, whatever channels it names, and changes no client and no nickname. Afterwards the client is
-- in none of the channels with those names, and has entered none; everyone else is a member of the
-- channel with any name exactly if they were before; and the members of the channels are still
-- registered clients.
pub cmd_part-IsParted :
    (id : ℕ) (from : List Text) (reason : Option Text) (w : World) (issuer : Client)
    → IsJoined w.state
    → client_of id w.state ≡ some issuer
    → (r : World × Bool) × (cmd_part id from reason w ≡ some r)
      × IsParted id w.state r.0.state
      × ((n : Text) → is_named n from ≡ true → in_room id n r.0.state.channels ≡ false)
      × IsJoined r.0.state
unfolding cmd_part
cmd_part-IsParted id from reason w issuer joined found =
    let (r, ends, parted, gone) = part_each-IsParted id issuer reason from (w, true) joined in
    (
      r,
      ground (arith, found, ends),
      parted,
      gone,
      IsParted-IsJoined id w.state r.0.state parted joined,
    )
