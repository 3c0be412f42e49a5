-- ===== src/State/Entry.antt =====
-- JOIN, and PART of every channel: src/state/v1.rs. A result of `none` is a panic; its Boolean is
-- whether the handler returned `Ok`.
use ellidri.Prelude.{
  ◌==◌, if◌then◌else◌, is_empty, keep, Text, text, get, contains_key, put, delete, keys, ℕ, Bool,
  true, false, not, ◌||◌, Option, none, some, List, [], ◌∷◌,
}
use ellidri.Cap
use ellidri.Command.{Command}
use ellidri.Client
use ellidri.Client.{Client, Item}
use ellidri.Channel.{Channel, add_member}
use ellidri.Channel.Modes
use ellidri.Buffers.{ReplyBuffer, param, trailing_param, reply_message, lr_batch_begin}
use ellidri.State.{World, same_name, client_of, item_of, send}
use ellidri.State.Session.{with_client}
use ellidri.State.Rooms.{tell, everyone, with_channels}
use ellidri.State.Lists.{send_names, send_topic}
use ellidri.State.Join.{check_join}

-- The parameters of JOIN as members with `extended-join` get them.
unfoldable pub extended_text : Text → Client → Text → Text
extended_text name client b =
    trailing_param client.real
      (param (elim client.account [ none ↦ text "*" | some a ↦ a ]) (param name b))

-- The first loop of `send_join`: each member gets the form it asked for.
unfoldable pub announce :
    Item → Item → List (ℕ × Client) → List ℕ → List (ℕ × Item) → Option (List (ℕ × Item))
announce plain extended clients [] sent = some sent
announce plain extended clients (m ∷ ms) sent = elim (get ◌==◌ m clients) [
  | none ↦ none
  | some c ↦
      announce plain extended clients ms
        (send m c (if c.cap_enabled Cap.extended_join then extended else plain) sent)
]

-- The second loop, where the client is away.
unfoldable pub announce_away :
    Client → List (ℕ × Client) → List ℕ → List (ℕ × Item) → Option (List (ℕ × Item))
announce_away client clients ms sent = elim client.away_message [
  | none ↦ some sent
  | some m ↦
      tell (item_of client.full_name Command.away (trailing_param m))
        (λ t c. c.cap_enabled Cap.away_notify) clients ms sent
]

-- `send_join`, from the channel that it has found.
unfoldable pub send_join_to : ℕ → Text → Client → Channel → World → Option World
unfolding extended_text
send_join_to id name client c w =
    let others = keep (λ m. not (m == id)) (keys c.members) in
    let plain = item_of client.full_name Command.join (param name) in
    let extended = item_of client.full_name Command.join (extended_text name client) in
    let rb = reply_message client.full_name Command.join (param name) w.rb in
    elim (announce plain extended w.state.clients others w.sent) [
      | none ↦ none
      | some told ↦ elim (announce_away client w.state.clients others told) [
        | none ↦ none
        | some sent ↦ some (record w { rb = rb; sent = sent })
      ]
    ]

-- `send_join`: it indexes the map of channels.
unfoldable pub send_join : ℕ → Text → Client → World → Option World
send_join id name client w = elim (get same_name name w.state.channels) [
  | none ↦ none
  | some c ↦ send_join_to id name client c w
]

-- `send_topic` and `send_names`, for who has joined.
unfoldable pub welcome : ℕ → Text → World → Option World
welcome id name w = elim (send_topic name false w.state w.rb) [
  | none ↦ none
  | some rb ↦ elim (send_names id name w.state rb) [
    | none ↦ none
    | some out ↦ some (record w { rb = out })
  ]
]

-- The client enters the channel `c`, found or new, and gets its topic and names.
unfoldable pub enter : ℕ → Text → Client → Channel → World → Option World
enter id name client c w =
    let joined = add_member id c in
    let inside = with_channels (put same_name name joined w.state.channels) w in
    elim (send_join id name client (record inside { rb = lr_batch_begin w.rb })) [
      | none ↦ none
      | some told ↦ welcome id name told
    ]

-- An iteration of `cmd_join`; the Boolean is whether the client has joined.
unfoldable pub join_one : ℕ → Client → Text → Option Text → World → Option (World × Bool)
join_one id client name key w = elim (get same_name name w.state.channels) [
  | none ↦ elim (Modes.new w.state.default_chan_mode) [
    | none ↦ none
    | some c ↦ elim (enter id name client c w) [ none ↦ none | some v ↦ some (v, true) ]
  ]
  | some c ↦ elim (check_join id client c name key w) [
    | none ↦ none
    | some (told, false) ↦ some (told, false)
    | some (told, true) ↦ elim (enter id name client c told) [
      | none ↦ none
      | some v ↦ some (v, true)
    ]
  ]
]

unfoldable pub join_each :
    ℕ → Client → List (Text × Option Text) → World × Bool → Option (World × Bool)
join_each id client [] r = some r
join_each id client ((name, key) ∷ rest) r = elim (join_one id client name key r.0) [
  | none ↦ none
  | some next ↦ join_each id client rest (next.0, r.1 || next.1)
]

-- The end of `cmd_join`, which updates the idle time of who has joined.
unfoldable pub touch : ℕ → ℕ → World → Option World
touch now id w = elim (client_of id w.state) [
  | none ↦ none
  | some c ↦ some (with_client id (Client.update_idle_time now c) w)
]

unfoldable pub cmd_join : ℕ → ℕ → List (Text × Option Text) → World → Option (World × Bool)
cmd_join now id list w = elim (client_of id w.state) [
  | none ↦ none
  | some client ↦ elim (join_each id client list (w, false)) [
    | none ↦ none
    | some (v, false) ↦ some (v, true)
    | some (v, true) ↦ elim (touch now id v) [ none ↦ none | some u ↦ some (u, true) ]
  ]
]

abbrev pub part_all_text : Text → Text → Text
part_all_text name b = trailing_param (text "Baka!") (param name b)

-- The closure of `retain` in `cmd_part_all`, over the channels: those that are kept, the reply buffer
-- and what was sent.
unfoldable pub part_channels :
    ℕ
    → Client
    → List (ℕ × Client)
    → List (Text × Channel)
    → ReplyBuffer
    → List (ℕ × Item)
    → Option (List (Text × Channel) × ReplyBuffer × List (ℕ × Item))
part_channels id issuer clients [] rb sent = some ([], rb, sent)
part_channels id issuer clients ((name, c) ∷ rest) rb sent =
    let left = delete ◌==◌ id c.members in
    let parted =
      reply_message issuer.full_name Command.part (part_all_text name) (lr_batch_begin rb) in
    let notice = item_of issuer.full_name Command.part (part_all_text name) in
    elim (contains_key ◌==◌ id c.members) [
      | false ↦ elim (part_channels id issuer clients rest rb sent) [
        | none ↦ none
        | some r ↦ some ((name, c) ∷ r.0, r.1, r.2)
      ]
      | true ↦ elim (is_empty left) [
        | true ↦ part_channels id issuer clients rest parted sent
        | false ↦ elim (tell notice everyone clients (keys left) sent) [
          | none ↦ none
          | some told ↦ elim (part_channels id issuer clients rest parted told) [
            | none ↦ none
            | some r ↦ some ((name, record c { members = left }) ∷ r.0, r.1, r.2)
          ]
        ]
      ]
    ]

unfoldable pub cmd_part_all : ℕ → World → Option (World × Bool)
cmd_part_all id w = elim (client_of id w.state) [
  | none ↦ none
  | some issuer ↦ elim (part_channels id issuer w.state.clients w.state.channels w.rb w.sent) [
    | none ↦ none
    | some r ↦ some (record (with_channels r.0 w) { rb = r.1; sent = r.2 }, true)
  ]
]
