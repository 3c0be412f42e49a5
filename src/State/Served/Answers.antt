-- ===== src/State/Served/Answers.antt =====
-- The handlers that only read the state do not panic where it has its invariant: NAMES, LIST, TOPIC, WHO,
-- WHOIS, MODE and REHASH of src/state/v1.rs.
use ellidri.Prelude.{
  ◌==◌, if◌then◌else◌, ==_self, Option-cases, Text, get, contains_key, ℕ, ◌≡◌, refl, inl, inr, Bool,
  true, not, ◌&&◌, ◌||◌, some, List, [], ◌∷◌, arith,
}
use ellidri.Cap.{Capabilities}
use ellidri.Request.{Who}
use ellidri.Client.{Client}
use ellidri.Channel.{Channel}
use ellidri.Channel.Members.{MemberModes}
use ellidri.Buffers.{ReplyBuffer, is_some, lr_batch_begin}
use ellidri.State.{State, same_name, client_of}
use ellidri.State.Info.{Env}
use ellidri.State.Lists.{
  names_text, names_of, send_names, names_each, cmd_names, cmd_list, cmd_list_all, cmd_topic_get,
  cmd_mode_channel_get, cmd_mode_user_get,
}
use ellidri.State.Who.{
  who_line, who_done, who_user, who_members, cmd_who_channel, cmd_who_user, cmd_whois,
}
use ellidri.State.Members.{IsJoined}
use ellidri.State.Parting.{is_in-get}
use ellidri.State.Served.{IsServed}

-- Every member is a client.
abbrev pub AreClients : List (ℕ × Client) → List (ℕ × MemberModes) → Type 0
AreClients clients ms =
    (j : ℕ) → contains_key ◌==◌ j ms ≡ true → (c : Client) × (get ◌==◌ j clients ≡ some c)

pub members-AreClients :
    (s : State) (name : Text) (c : Channel)
    → IsJoined s
    → get same_name name s.channels ≡ some c
    → AreClients s.clients c.members
members-AreClients s name c joined room j m =
    let (d, at, reg) = joined j (is_in-get j name s.channels c room m) in (d, at)

pub names_text-returns :
    (caps : Capabilities) (clients : List (ℕ × Client)) (ms : List (ℕ × MemberModes))
    → AreClients clients ms
    → is_some (names_text caps clients ms) ≡ true
unfolding names_text
names_text-returns caps clients [] known = refl
names_text-returns caps clients ((id, modes) ∷ ms) known =
    let (c, at) = known id (ground (arith, ==_self id)) in
    let rest = names_text-returns caps clients ms (λ j h. known j (ground arith)) in
    elim (Option-cases (names_text caps clients ms)) [
      | inl e ↦ ground (arith, rest, e)
      | inr (t, e) ↦ ground (arith, at, e)
    ]

names_of-returns :
    (id : ℕ) (name : Text) (c : Channel) (s : State) (rb : ReplyBuffer) (client : Client)
    → AreClients s.clients c.members
    → client_of id s ≡ some client
    → is_some (names_of id name c s rb) ≡ true
unfolding names_of
names_of-returns id name c s rb client known at =
    let told = names_text-returns client.cap_enabled s.clients c.members known in
    elim (Option-cases (names_text client.cap_enabled s.clients c.members)) [
      | inl e ↦ ground (arith, told, e)
      | inr (t, e) ↦ ground (arith, at, e)
    ]

pub send_names-returns :
    (id : ℕ) (name : Text) (s : State) (rb : ReplyBuffer) (client : Client)
    → IsServed s
    → client_of id s ≡ some client
    → is_some (send_names id name s rb) ≡ true
unfolding send_names
send_names-returns id name s rb client served at =
    elim (Option-cases (get same_name name s.channels)) [
      | inl e ↦ ground (arith, e)
      | inr (c, e) ↦
          let told =
            names_of-returns id name c s rb client (members-AreClients s name c served.joined e)
              at in
          ground (arith, e, told)
    ]

names_each-returns :
    (id : ℕ) (names : List Text) (s : State) (rb : ReplyBuffer) (client : Client)
    → IsServed s
    → client_of id s ≡ some client
    → is_some (names_each id names s rb) ≡ true
unfolding names_each
names_each-returns id [] s rb client served at = refl
names_each-returns id (name ∷ names) s rb client served at =
    let first = send_names-returns id name s rb client served at in
    elim (Option-cases (send_names id name s rb)) [
      | inl e ↦ ground (arith, first, e)
      | inr (told, e) ↦ ground (arith, e, names_each-returns id names s told client served at)
    ]

who_members-returns :
    (id : ℕ) (issuer : Client) (filter in_channel : Bool) (name : Text) (s : State)
    (ms : List (ℕ × MemberModes)) (rb : ReplyBuffer)
    → AreClients s.clients ms
    → is_some (who_members id issuer filter in_channel name s ms rb) ≡ true
unfolding who_members
who_members-returns id issuer filter in_channel name s [] rb known = refl
who_members-returns id issuer filter in_channel name s ((m, modes) ∷ ms) rb known =
    let (c, at) = known m (ground (arith, ==_self m)) in
    let others = λ (j : ℕ) (h : contains_key ◌==◌ j ms ≡ true). known j (ground arith) in
    let hidden = not issuer.operator && c.is_invisible && not in_channel && not (m == id) in
    let told =
      if (filter && not c.operator) || hidden then rb else who_line issuer c name modes s rb in
    ground (arith, at, who_members-returns id issuer filter in_channel name s ms told others)

pub cmd_names-returns :
    (id : ℕ) (names : List Text) (s : State) (rb : ReplyBuffer) (client : Client)
    → IsServed s
    → client_of id s ≡ some client
    → is_some (cmd_names id names s rb) ≡ true
unfolding cmd_names
cmd_names-returns id names s rb client served at =
    ground (arith, names_each-returns id names s (lr_batch_begin rb) client served at)

pub cmd_list-returns :
    (id : ℕ) (targets : List Text) (s : State) (rb : ReplyBuffer) (client : Client)
    → client_of id s ≡ some client
    → (is_some (cmd_list id targets s rb) ≡ true) × (is_some (cmd_list_all id s rb) ≡ true)
unfolding cmd_list cmd_list_all
cmd_list-returns id targets s rb client at = (ground (arith, at), ground (arith, at))

pub cmd_topic_get-returns :
    (id : ℕ) (name : Text) (s : State) (rb : ReplyBuffer)
    → is_some (cmd_topic_get id name s rb) ≡ true
unfolding cmd_topic_get
cmd_topic_get-returns id name s rb = ground arith

pub cmd_mode_get-returns :
    (id : ℕ) (name : Text) (s : State) (rb : ReplyBuffer) (client : Client)
    → client_of id s ≡ some client
    → (is_some (cmd_mode_channel_get id name s rb) ≡ true)
      × (is_some (cmd_mode_user_get id name s rb) ≡ true)
unfolding cmd_mode_channel_get cmd_mode_user_get
cmd_mode_get-returns id name s rb client at = (ground (arith, at), ground (arith, at))

pub cmd_who_channel-returns :
    (id : ℕ) (args : Who) (s : State) (rb : ReplyBuffer) (client : Client)
    → IsServed s
    → client_of id s ≡ some client
    → is_some (cmd_who_channel id args s rb) ≡ true
unfolding cmd_who_channel who_done
cmd_who_channel-returns id args s rb client served at =
    elim (Option-cases (get same_name args.mask s.channels)) [
      | inl e ↦ ground (arith, e)
      | inr (c, e) ↦
          let told =
            who_members-returns id client args.operator (contains_key ◌==◌ id c.members) args.mask s
              c.members (lr_batch_begin rb) (members-AreClients s args.mask c served.joined e) in
          ground (arith, e, at, told)
    ]

who_user-returns :
    (id : ℕ) (issuer : Client) (target : ℕ) (filter : Bool) (s : State) (rb : ReplyBuffer)
    (c : Client)
    → client_of target s ≡ some c
    → is_some (who_user id issuer target filter s rb) ≡ true
unfolding who_user
who_user-returns id issuer target filter s rb c at = ground (arith, at)

pub cmd_who_user-returns :
    (id : ℕ) (args : Who) (s : State) (rb : ReplyBuffer) (client : Client)
    → IsServed s
    → client_of id s ≡ some client
    → is_some (cmd_who_user id args s rb) ≡ true
unfolding cmd_who_user who_done
cmd_who_user-returns id args s rb client served at =
    elim (Option-cases (get same_name args.mask s.nicks)) [
      | inl e ↦ ground (arith, e)
      | inr (target, e) ↦
          let (c, found, same) = served.owned args.mask target e in
          let told =
            who_user-returns id client target args.operator s (lr_batch_begin rb) c found in
          ground (arith, e, at, told)
    ]

pub cmd_whois-returns :
    (env : Env) (nick : Text) (s : State) (rb : ReplyBuffer)
    → IsServed s
    → is_some (cmd_whois env nick s rb) ≡ true
unfolding cmd_whois
cmd_whois-returns env nick s rb served = elim (Option-cases (get same_name nick s.nicks)) [
  | inl e ↦ ground (arith, e)
  | inr (target, e) ↦ let (c, found, same) = served.owned nick target e in ground (arith, e, found)
]
