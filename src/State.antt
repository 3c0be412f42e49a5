-- ===== src/State.antt =====
-- The state of the server: src/state/mod.rs. `World` is what a handler sees: the state, the reply
-- buffer of the client it serves, and what was sent to the queues of the clients, in order.
pub mod Info
pub mod Lists
pub mod Who
pub mod Session
pub mod Account
pub mod Entry
pub mod Moding
pub mod Talk
pub mod Dispatch
pub mod Owners
pub mod Members
pub mod Rooms
pub mod Guests
pub mod Parting
pub mod Rights
pub mod Join
pub mod Served
pub mod Server
use ellidri.Prelude.{
  ◌==◌, if◌then◌else◌, is_empty, Text, text, get, contains_key, delete, keys, add, ℕ, Bool, true,
  not, ◌||◌, Option, none, some, List, [], ◌∷◌, ◌++◌,
}
use ellidri.Unicase.{unicase_eq, ascii}
use ellidri.Command
use ellidri.Command.{Command}
use ellidri.Client.{Client, Item, queued}
use ellidri.Client.Connection.{is_registered}
use ellidri.Channel.{Channel}
use ellidri.Buffers.{ReplyBuffer, message, trailing_param}

-- `u`: names are keys up to the case of ASCII letters.
unfoldable pub same_name : Text → Text → Bool
same_name a b = unicase_eq ascii a b

-- `StateInner`, less the timeout and the channel of `Notify`.
-- `reload_asked` is whether the `Notify` of `rehash` holds a permit.
pub record State : Type 0 where
  pub clients : List (ℕ × Client)
  pub nicks : List (Text × ℕ)
  pub channels : List (Text × Channel)
  pub domain : Text
  pub org_name : Text
  pub org_location : Text
  pub org_mail : Text
  pub created_at : Text
  pub motd : Option Text
  pub password : Text
  pub default_chan_mode : Text
  pub opers : List (Text × Text)
  pub awaylen : ℕ
  pub channellen : ℕ
  pub keylen : ℕ
  pub kicklen : ℕ
  pub namelen : ℕ
  pub nicklen : ℕ
  pub topiclen : ℕ
  pub userlen : ℕ
  pub reload_asked : Bool

pub record World : Type 0 where
  pub state : State
  pub rb : ReplyBuffer
  pub sent : List (ℕ × Item)

-- `MessageQueueItem::from` of a buffer with one message.
unfoldable pub item_of : Text → Command → (Text → Text) → Item
unfolding message
item_of prefix command rest = record { start = 0; buf = message prefix command rest [] }

abbrev pub client_of : ℕ → State → Option Client
client_of id s = get ◌==◌ id s.clients

-- `Client::send` of the client with an identifier.
unfoldable pub send : ℕ → Client → Item → List (ℕ × Item) → List (ℕ × Item)
unfolding queued
send id c i sent = sent ++ (id, queued c i) ∷ []

abbrev add_all : List ℕ → List ℕ → List ℕ
add_all [] out = out
add_all (k ∷ ks) out = add_all ks (add ◌==◌ k out)

-- The set `noticed`: the members of the channels of the issuer.
unfoldable pub noticed : ℕ → List (Text × Channel) → List ℕ → List ℕ
noticed issuer [] out = out
noticed issuer ((name, c) ∷ rest) out =
    noticed issuer rest
      (if contains_key ◌==◌ issuer c.members then add_all (keys c.members) out else out)

-- The loop of `send_notification` over the targets.
unfoldable pub notify_each :
    ℕ → Item → (ℕ → Client → Bool) → List (ℕ × Client) → List ℕ → List (ℕ × Item) → List (ℕ × Item)
unfolding send
notify_each issuer i filter clients [] sent = sent
notify_each issuer i filter clients (target ∷ rest) sent =
    notify_each issuer i filter clients rest (elim (get ◌==◌ target clients) [
      | none ↦ sent
      | some c ↦ if issuer == target || not (filter target c) then sent else send target c i sent
    ])

unfoldable pub send_notification : ℕ → Item → (ℕ → Client → Bool) → World → World
unfolding noticed notify_each
send_notification issuer i filter w = record w {
  sent = notify_each issuer i filter w.state.clients (noticed issuer w.state.channels []) w.sent;
}

-- The closure of `retain` in `remove_client`: the channels without a client, less those left empty.
unfoldable pub leave_channels : ℕ → List (Text × Channel) → List (Text × Channel)
leave_channels id [] = []
leave_channels id ((name, c) ∷ rest) =
    let left = delete ◌==◌ id c.members in
    let others = leave_channels id rest in
    if is_empty left then others else (name, record c { members = left }) ∷ others

-- The part of `remove_client` for a client that was registered.
unfoldable pub quit_channels : ℕ → Client → Text → World → World
unfolding item_of send send_notification leave_channels
quit_channels id client msg_to_others w =
    let notice = item_of client.full_name Command.quit (trailing_param msg_to_others) in
    let told =
      send_notification id notice (λ t c. true)
        (record w { sent = send id client notice w.sent }) in
    record told { state = record told.state { channels = leave_channels id told.state.channels } }

unfoldable pub remove_client : ℕ → Text → Text → World → World
unfolding same_name quit_channels item_of send
remove_client id msg_to_client msg_to_others w = elim (client_of id w.state) [
  | none ↦ w
  | some client ↦
      let removed = record w.state {
        clients = delete ◌==◌ id w.state.clients;
        nicks = delete same_name client.nick w.state.nicks;
      } in
      let gone = record w { state = removed } in
      let out =
        if is_registered client.state then quit_channels id client msg_to_others gone else gone in
      let error = item_of [] (Command.reply (text "ERROR")) (trailing_param msg_to_client) in
      record out { sent = send id client error out.sent }
]
