-- ===== src/Tests/Server.antt =====
-- A server with two registered clients in one channel, for the handlers of src/state.
use ellidri.Prelude.{
  ◌==◌, Bool-cases, Text, text, get, ℕ, ◌≡◌, refl, ◌≢◌, inl, inr, Bool, true, false, none, some, [],
  ◌∷◌, ◌++◌, arith,
}
use ellidri.Cap.{v300}
use ellidri.Client.{Client}
use ellidri.Client.Connection.{registered, is_registered}
use ellidri.Channel.{Channel, blank, operator_modes}
use ellidri.Channel.Members.{no_modes}
use ellidri.Unicase
use ellidri.State.{State, World, same_name, client_of, remove_client}
use ellidri.State.Session.{cmd_nick, cmd_user}
use ellidri.State.Owners.{same_name-IsSame, IsOwned, cmd_nick_lem}
use ellidri.State.Members.{is_in, IsJoined, remove_client-IsJoined}
use ellidri.State.Rooms.{cmd_part, cmd_topic_set}
use ellidri.State.Join.{check_join, same_key}
use ellidri.State.Join.Laws.{admits, check_join_iff}
use ellidri.State.Guests.{cmd_kick}
use ellidri.State.Parting.{IsParted, is_named, in_room, cmd_part-IsParted}
use ellidri.State.Rights.{
  IsRefused, cmd_kick_needs_operator, cmd_topic_set_needs_operator, cmd_user_needs_password,
}

abbrev pub someone : Text → Client
someone nick = record {
  domain = text "ellidri.localdomain";
  cap_version = v300;
  cap_enabled = λ c. false;
  state = registered;
  auth_buffer = [];
  auth_buffer_complete = false;
  auth_id = none;
  nick = nick;
  user = text "u";
  real = text "r";
  host = text "127.0.0.1";
  account = none;
  full_name = nick ++ text "!~u@127.0.0.1";
  signon_time = 0;
  last_action_time = 0;
  has_given_password = false;
  away_message = none;
  is_invisible = false;
  operator = false;
}

abbrev pub alice : Client
alice = someone (text "alice")

abbrev pub bob : Client
bob = someone (text "bob")

-- Alice is the operator of the channel, Bob is not; its topic is restricted.
abbrev pub lounge : Channel
lounge = record blank {
  members = (1, operator_modes) ∷ (2, no_modes) ∷ [];
  topic_restricted = true;
}

abbrev pub server : State
server = record {
  clients = (1, alice) ∷ (2, bob) ∷ [];
  nicks = (text "alice", 1) ∷ (text "bob", 2) ∷ [];
  channels = (text "#lounge", lounge) ∷ [];
  domain = text "ellidri.localdomain";
  org_name = text "org";
  org_location = text "here";
  org_mail = text "admin@localdomain";
  created_at = text "today";
  motd = some (text "Hello\nthere");
  password = text "secret";
  default_chan_mode = text "+nt";
  opers = (text "root", text "toor") ∷ [];
  awaylen = 300;
  channellen = 50;
  keylen = 24;
  kicklen = 300;
  namelen = 64;
  nicklen = 30;
  topiclen = 300;
  userlen = 64;
  reload_asked = false;
}

abbrev pub world : World
world = record {
  state = server;
  rb = record {
    buf = [];
    batch = none;
    has_label = false;
    domain = text "ellidri.localdomain";
    nickname = text "bob";
    label = [];
  };
  sent = [];
}

pub server-IsOwned : IsOwned server
server-IsOwned n id h = elim (Bool-cases (same_name (text "alice") n)) [
  | inl e ↦ (alice, ground (arith, e), same_name-IsSame.same_sym (text "alice") n e)
  | inr e ↦ elim (Bool-cases (same_name (text "bob") n)) [
    | inl f ↦ (bob, ground (arith, e, f), same_name-IsSame.same_sym (text "bob") n f)
    | inr f ↦ ground (arith, e, f)
  ]
]

pub server-IsJoined : IsJoined server
unfolding is_registered
server-IsJoined id h = elim (Bool-cases (1 == id)) [
  | inl e ↦ (alice, ground (arith, e), refl)
  | inr e ↦ elim (Bool-cases (2 == id)) [
    | inl f ↦ (bob, ground (arith, e, f), refl)
    | inr f ↦ ground (arith, e, f)
  ]
]

-- Bob asks for the nickname of Alice in another case.
cmd_nick_lem_example :
    (r : World × Bool) × (cmd_nick 2 (text "ALICE") world ≡ some r)
    × (r.1 ≡ false
        → ((other : ℕ) × (get same_name (text "ALICE") server.nicks ≡ some other)
            × (other ≢ 2)
            × (r.0.state ≡ server)))
    × ((other : ℕ)
        → get same_name (text "ALICE") server.nicks ≡ some other
        → other ≢ 2
        → r.1 ≡ false)
    × (r.1 ≡ true → get same_name (text "ALICE") r.0.state.nicks ≡ some 2)
cmd_nick_lem_example = cmd_nick_lem 2 (text "ALICE") world bob refl

remove_client-IsJoined_example :
    (client_of 2 (remove_client 2 (text "bye") (text "left") world).state ≡ none)
    × (is_in 2 (remove_client 2 (text "bye") (text "left") world).state.channels ≡ false)
    × IsJoined (remove_client 2 (text "bye") (text "left") world).state
remove_client-IsJoined_example =
    remove_client-IsJoined 2 (text "bye") (text "left") world bob server-IsJoined refl

cmd_part-IsParted_example :
    (r : World × Bool) × (cmd_part 2 (text "#lounge" ∷ text "#void" ∷ []) none world ≡ some r)
    × IsParted 2 server r.0.state
    × ((n : Text)
        → is_named n (text "#lounge" ∷ text "#void" ∷ []) ≡ true
        → in_room 2 n r.0.state.channels ≡ false)
    × IsJoined r.0.state
cmd_part-IsParted_example =
    cmd_part-IsParted 2 (text "#lounge" ∷ text "#void" ∷ []) none world bob server-IsJoined refl

cmd_kick_needs_operator_example :
    IsRefused 2 (text "#lounge") world (cmd_kick 2 (text "#lounge") (text "alice" ∷ []) none world)
unfolding same_name Unicase.unicase_eq Unicase.ascii
cmd_kick_needs_operator_example =
    cmd_kick_needs_operator 2 (text "#lounge") (text "alice" ∷ []) none world refl

cmd_topic_set_needs_operator_example :
    IsRefused 2 (text "#lounge") world (cmd_topic_set 0 2 (text "#lounge") (text "hi") world)
unfolding same_name Unicase.unicase_eq Unicase.ascii
cmd_topic_set_needs_operator_example =
    cmd_topic_set_needs_operator 0 2 (text "#lounge") (text "hi") world lounge refl refl refl

cmd_user_needs_password_example :
    (r : World × Bool) × (cmd_user 2 (text "b") (text "Bob") world ≡ some r)
    × (r.1 ≡ false)
    × (client_of 2 r.0.state ≡ none)
cmd_user_needs_password_example =
    cmd_user_needs_password 2 (text "b") (text "Bob") world bob refl refl refl

-- Carol comes to the lounge, which has no key, with a key.
check_join_iff_example :
    (told : World) × (check_join 3
        (someone (text "carol"))
        lounge
        (text "#lounge")
        (some (text "k"))
        world
      ≡ some (told, admits 3 (someone (text "carol")) lounge (some (text "k"))))
    × (told.state ≡ server)
check_join_iff_example =
    check_join_iff 3 (someone (text "carol")) lounge (text "#lounge") (some (text "k")) world
      (ground arith) (ground arith)

keyless_refuses_key : same_key lounge.key (some (text "k")) ≡ false
unfolding same_key
keyless_refuses_key = refl
