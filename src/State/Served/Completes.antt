-- ===== src/State/Served/Completes.antt =====
-- The handlers that change the state do not panic where it has its invariant: PRIVMSG, INVITE, KICK,
-- TOPIC, KILL, AWAY and USER of src/state/v1.rs. A text that a handler cuts is ASCII.
use ellidri.Prelude.{
  ◌==◌, Bool-cases, Option-cases, keep, Text, len, slice_to, get, keys, contains, add, ℕ, zero, suc,
  ◌≤◌, min, ◌≡◌, refl, sym, ap, ◌∙◌, ◌≢◌, inl, inr, Bool, true, not, ◌&&◌, Option, none, some, List,
  [], ◌∷◌, arith,
}
use ellidri.Cap.{Cap}
use ellidri.Command.{Command}
use ellidri.Mask.Match.Search.{IsAscii}
use ellidri.Request.{Talk}
use ellidri.Client.{Client, Item}
use ellidri.Client.Connection.{is_registered}
use ellidri.Channel.{Channel, can_invite}
use ellidri.Channel.Members.{MemberModes}
use ellidri.Buffers.{is_some, param, trailing_param}
use ellidri.State.{State, World, same_name, client_of, item_of, send}
use ellidri.State.Info.{Env}
use ellidri.State.Rooms.{tell, everyone, find_nick, lost, find_member, set_topic, cmd_topic_set}
use ellidri.State.Session.{introduce, cmd_user}
use ellidri.State.Guests.{invite, invite_guarded, cmd_invite}
use ellidri.State.Account.{cut_to, cmd_away, cmd_kill}
use ellidri.State.Entry.{touch}
use ellidri.State.Talk.{cmd_message_channel, cmd_message_user}
use ellidri.State.Parting.{tell_total, contains-keys}
use ellidri.State.Served.{IsServed}
use ellidri.State.Served.Answers.{AreClients, members-AreClients}
use ellidri.State.Served.Rooms.{Guard-cases, Nick-cases, find_member-passed}

-- A cut of an ASCII text does not panic, and has as many bytes as asked for.
pub slice_to-IsAscii :
    (t : Text) (n : ℕ) → IsAscii t → n ≤ len t → (r : Text) × (slice_to t n ≡ some r) × (len r ≡ n)
slice_to-IsAscii t zero a h = ([], refl, refl)
slice_to-IsAscii [] (suc n) a h = ground arith
slice_to-IsAscii (c ∷ t) (suc n) a h =
    let (r, cut, size) = slice_to-IsAscii t n a.1 (ground (arith, a.0)) in
    (c ∷ r, ground (arith, a.0, cut), ground (arith, a.0, size))

abbrev pub IsCut : ℕ → Text → Type 0
IsCut k t = (r : Text) × (slice_to t (min (len t) k) ≡ some r) × (len r ≤ k)

pub ascii-IsCut : (t : Text) (k : ℕ) → IsAscii t → IsCut k t
ascii-IsCut t k a =
    let (r, cut, size) = slice_to-IsAscii t (min (len t) k) a (ground arith) in
    (r, cut, ground (arith, size))

pub tell-returns :
    (i : Item) (filter : ℕ → Client → Bool) (s : State) (ms : List (ℕ × MemberModes))
    (sent : List (ℕ × Item))
    → AreClients s.clients ms
    → is_some (tell i filter s.clients (keys ms) sent) ≡ true
tell-returns i filter s ms sent known =
    let (out, told) =
      tell_total i filter s.clients (keys ms) sent
        (λ m h. known m (sym (contains-keys m ms) ∙ h)) in
    ap is_some told

-- A nickname is looked up without a panic.
pub find_nick-found : (nick : Text) (w : World) → IsServed w.state → find_nick nick w ≢ lost
unfolding find_nick
find_nick-found nick w served h = elim (Option-cases (get same_name nick w.state.nicks)) [
  | inl e ↦ ground (arith, e)
  | inr (k, e) ↦
      let (c, at, same) = served.owned nick k e in
      elim (Bool-cases (is_registered c.state)) [
        | inl r ↦ ground (arith, e, at, r)
        | inr r ↦ ground (arith, e, at, r)
      ]
]

pub cmd_kill-returns :
    (id : ℕ) (who reason : Text) (w : World) (c : Client)
    → IsServed w.state
    → client_of id w.state ≡ some c
    → is_some (cmd_kill id who reason w) ≡ true
unfolding cmd_kill
cmd_kill-returns id who reason w c served at = elim (Nick-cases (find_nick who w)) [
  | inl e ↦ absurd (find_nick-found who w served e)
  | inr (inl (v, e)) ↦ ground (arith, at, e)
  | inr (inr (k, d, e)) ↦ ground (arith, at, e)
]

pub touch-returns :
    (now id : ℕ) (w : World) (c : Client)
    → client_of id w.state ≡ some c
    → is_some (touch now id w) ≡ true
unfolding touch
touch-returns now id w c at = ground (arith, at)

pub cmd_message_channel-returns :
    (env : Env) (id : ℕ) (args : Talk) (w : World) (c : Client)
    → client_of id w.state ≡ some c
    → is_some (cmd_message_channel env id args w) ≡ true
unfolding cmd_message_channel touch
cmd_message_channel-returns env id args w c at =
    elim (Option-cases (get same_name args.to w.state.channels)) [
      | inl e ↦ ground (arith, e)
      | inr (d, e) ↦ ground (arith, e, at)
    ]

pub cmd_message_user-returns :
    (env : Env) (id : ℕ) (args : Talk) (w : World) (c : Client)
    → IsServed w.state
    → client_of id w.state ≡ some c
    → is_some (cmd_message_user env id args w) ≡ true
unfolding cmd_message_user touch
cmd_message_user-returns env id args w c served at = elim (Nick-cases (find_nick args.to w)) [
  | inl e ↦ absurd (find_nick-found args.to w served e)
  | inr (inl (v, e)) ↦ ground (arith, e)
  | inr (inr (k, d, e)) ↦ ground (arith, e, at)
]

invite-returns :
    (id : ℕ) (who : Text) (who_id : ℕ) (invited : Client) (name : Text) (d : Channel) (w : World)
    (c : Client)
    → AreClients w.state.clients d.members
    → client_of id w.state ≡ some c
    → is_some (invite id who who_id invited name d w) ≡ true
unfolding invite
invite-returns id who who_id invited name d w c known at = ground (
  arith,
  at,
  tell-returns (item_of c.full_name Command.invite (λ b. param name (param who b)))
      (λ m e.
        not (m == id)
        && e.cap_enabled Cap.invite_notify
        && can_invite m (record d { invites = add ◌==◌ who_id d.invites }))
      w.state d.members
      (send who_id invited (item_of c.full_name Command.invite (λ b. param name (param who b)))
        w.sent)
      known,
)

pub cmd_invite-returns :
    (id : ℕ) (who name : Text) (w : World) (c : Client)
    → IsServed w.state
    → client_of id w.state ≡ some c
    → is_some (cmd_invite id who name w) ≡ true
unfolding cmd_invite invite_guarded
cmd_invite-returns id who name w c served at = elim (Nick-cases (find_nick who w)) [
  | inl e ↦ absurd (find_nick-found who w served e)
  | inr (inl (v, e)) ↦ ground (arith, e)
  | inr (inr (k, d, e)) ↦ elim (Option-cases (get same_name name w.state.channels)) [
    | inl room ↦ ground (arith, e, room)
    | inr (ch, room) ↦
        let sent =
          invite-returns id who k d name ch w c
            (members-AreClients w.state name ch served.joined room) at in
        ground (arith, e, room, sent)
  ]
]

pub cmd_away-returns :
    (id : ℕ) (reason : Option Text) (w : World) (c : Client)
    → client_of id w.state ≡ some c
    → ((t : Text) → reason ≡ some t → IsAscii t)
    → is_some (cmd_away id reason w) ≡ true
unfolding cmd_away cut_to
cmd_away-returns id none w c at ascii = ground (arith, at)
cmd_away-returns id (some t) w c at ascii =
    let (r, cut, size) = ascii-IsCut t w.state.awaylen (ascii t refl) in ground (arith, at, cut)

pub cmd_user-returns :
    (id : ℕ) (username realname : Text) (w : World) (c : Client)
    → client_of id w.state ≡ some c
    → IsAscii username
    → IsAscii realname
    → is_some (cmd_user id username realname w) ≡ true
unfolding cmd_user introduce
cmd_user-returns id username realname w c at a b =
    let (r, cut, size) = ascii-IsCut username w.state.userlen a in
    let (s, short, size') = ascii-IsCut realname w.state.namelen b in ground (arith, at, cut, short)

pub contains-keep :
    (f : ℕ → Bool) (k : ℕ) (ks : List ℕ)
    → contains ◌==◌ k (keep f ks) ≡ true
    → contains ◌==◌ k ks ≡ true
contains-keep f k [] h = h
contains-keep f k (j ∷ ks) h = ground (arith, contains-keep f k ks)

set_topic-returns :
    (now id : ℕ) (name given : Text) (d : Channel) (w : World) (c : Client)
    → AreClients w.state.clients d.members
    → client_of id w.state ≡ some c
    → IsAscii given
    → is_some (set_topic now id name given d w) ≡ true
unfolding set_topic
set_topic-returns now id name given d w c known at ascii =
    let (content, cut, size) = ascii-IsCut given w.state.topiclen ascii in
    let (out, told) =
      tell_total (item_of c.full_name Command.topic (λ b. trailing_param content (param name b)))
        everyone w.state.clients (keep (λ m. not (m == id)) (keys d.members)) w.sent
        (λ m h. known m (
          sym (contains-keys m d.members)
          ∙ contains-keep (λ k. not (k == id)) m (keys d.members) h)) in
    ground (arith, at, cut, told)

pub cmd_topic_set-returns :
    (now id : ℕ) (name topic : Text) (w : World) (c : Client)
    → IsServed w.state
    → client_of id w.state ≡ some c
    → IsAscii topic
    → is_some (cmd_topic_set now id name topic w) ≡ true
unfolding cmd_topic_set
cmd_topic_set-returns now id name topic w c served at ascii =
    elim (Guard-cases (find_member id name w)) [
      | inl (v, e) ↦ ground (arith, e)
      | inr (d, m, e) ↦
          let room = find_member-passed id name w d m e in
          let set =
            set_topic-returns now id name topic d w c
              (members-AreClients w.state name d served.joined room) at ascii in
          ground (arith, e, set)
    ]
