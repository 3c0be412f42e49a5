-- ===== src/State/Server.antt =====
-- The state as the tasks of src/control.rs and src/net.rs drive it: its creation, the reload of the
-- configuration, connections that come and go, and messages, from src/state/mod.rs.
use ellidri.Prelude.{
  false, ◌==◌, if◌then◌else◌, is_empty, Text, text, put, ℕ, ◌≡◌, Option, none, some, List, [],
}
use ellidri.Message.{Message}
use ellidri.Client
use ellidri.Client.{Client, Item}
use ellidri.Client.Connection.{is_registered}
use ellidri.State.{State, World, client_of, remove_client}
use ellidri.State.Info.{Env}
use ellidri.State.Dispatch.{Outcome, handle_message}

-- `config::State`, less the timeout.
pub record Config : Type 0 where
  pub domain : Text
  pub org_name : Text
  pub org_location : Text
  pub org_mail : Text
  pub motd_file : Text
  pub password : Text
  pub default_chan_mode : Text
  pub opers : List (Text × Text)
  pub awaylen : ℕ
  pub channellen : ℕ
  pub keylen : ℕ
  pub kicklen : ℕ
  pub namelen : ℕ
  pub nicklen : ℕ
  pub topiclen : ℕ
  pub userlen : ℕ

-- `StateInner::new`, with what the file of the message of the day holds, if it can be read.
unfoldable pub new : Config → Option Text → Text → State
new config motd created_at = record {
  clients = [];
  nicks = [];
  channels = [];
  domain = config.domain;
  org_name = config.org_name;
  org_location = config.org_location;
  org_mail = config.org_mail;
  created_at = created_at;
  motd = motd;
  password = config.password;
  default_chan_mode = config.default_chan_mode;
  opers = config.opers;
  awaylen = config.awaylen;
  channellen = config.channellen;
  keylen = config.keylen;
  kicklen = config.kicklen;
  namelen = config.namelen;
  nicklen = config.nicklen;
  topiclen = config.topiclen;
  userlen = config.userlen;
  reload_asked = false;
}

-- `StateInner::rehash`. The limits of channel names and nicknames: only the first is reloaded.
unfoldable pub rehash : Config → State → State
rehash config s = record s {
  domain = config.domain;
  org_name = config.org_name;
  org_location = config.org_location;
  org_mail = config.org_mail;
  motd = if is_empty config.motd_file then none else some config.motd_file;
  password = config.password;
  default_chan_mode = config.default_chan_mode;
  opers = config.opers;
  awaylen = config.awaylen;
  channellen = config.channellen;
  keylen = config.keylen;
  kicklen = config.kicklen;
  namelen = config.namelen;
  topiclen = config.topiclen;
  userlen = config.userlen;
}

-- `peer_joined`: a client of its own at the identifier that the slab gives it, which is free.
unfoldable pub peer_joined : ℕ → ℕ → Text → State → State
peer_joined now id host s = record s {
  clients = put ◌==◌ id (Client.new s.domain host now) s.clients;
}

unfoldable pub peer_quit : ℕ → Option Text → World → World
peer_quit id none w =
    remove_client id (text "Bye bye senpai!") (text "This senpai left without saying anything...") w
peer_quit id (some err) w = remove_client id err err w

unfoldable pub remove_if_unregistered : ℕ → World → World
remove_if_unregistered id w = elim (client_of id w.state) [
  | none ↦ w
  | some c ↦
      if is_registered c.state
      then w
      else remove_client id (text "Senpai is such a slowpoke... baka") [] w
]

-- What the tasks may do to the state, one call at a time, as the lock lets them. The control task
-- takes the permit of a REHASH, and reloads for that or for a signal. A message whose handler panics is
-- no step: what it had changed by then is not covered.
pub data Step : State → State → Type 0 where
  reloaded : (config : Config) (s : State) → Step s (rehash config s)
  permit_taken : (s : State) → Step s (record s { reload_asked = false })
  connected :
      (now id : ℕ) (host : Text) (s : State)
      → client_of id s ≡ none
      → Step s (peer_joined now id host s)
  disconnected : (id : ℕ) (err : Option Text) (w : World) → Step w.state (peer_quit id err w).state
  timed_out : (id : ℕ) (w : World) → Step w.state (remove_if_unregistered id w).state
  handled :
      (env : Env) (id : ℕ) (m : Message) (s : State) (sent : List (ℕ × Item)) (out : Outcome)
      → handle_message env id m s sent ≡ some out
      → Step s out.state

-- The states that a server reaches.
pub data Reach (s : State) : State → Type 0 where
  start : Reach s s
  next : {t u : State} → Reach s t → Step t u → Reach s u
