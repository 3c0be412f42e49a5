-- ===== src/State/Rooms.antt =====
-- The handlers of PART, KICK, INVITE and TOPIC: src/state/v1.rs. A result of `none` is a panic; its
-- Boolean is whether the handler returned `Ok`. A list of names is what its iterator gives.
use ellidri.Prelude.{
  ◌==◌, if◌then◌else◌, is_empty, keep, Text, text, len, slice_to, get, contains_key, put, delete,
  keys, ℕ, min, Bool, true, false, not, ◌&&◌, Option, none, some, List, [], ◌∷◌,
}
use ellidri.Command.{Command}
use ellidri.Client.{Client, Item}
use ellidri.Client.Connection.{is_registered}
use ellidri.Channel.{Channel, Topic}
use ellidri.Channel.Members.{MemberModes}
use ellidri.Buffers.{param, trailing_param, reply_with, reply_message, lr_batch_begin}
use ellidri.State.{World, same_name, client_of, item_of, send}

-- The loops that send one item to the members that pass a test; a member that is no client makes the
-- index panic.
unfoldable pub tell :
    Item
    → (ℕ → Client → Bool)
    → List (ℕ × Client)
    → List ℕ
    → List (ℕ × Item)
    → Option (List (ℕ × Item))
unfolding send
tell i filter clients [] sent = some sent
tell i filter clients (m ∷ ms) sent = elim (get ◌==◌ m clients) [
  | none ↦ none
  | some c ↦ tell i filter clients ms (if filter m c then send m c i sent else sent)
]

abbrev pub everyone : ℕ → Client → Bool
everyone m c = true

unfoldable pub with_reason : Option Text → Text → Text
with_reason none b = b
with_reason (some reason) b = trailing_param reason b

-- A numeric reply about a channel.
unfoldable pub about : Text → Text → Text → World → World
unfolding reply_with
about numeric name line w = record w {
  rb = reply_with numeric (λ b. trailing_param line (param name b)) w.rb;
}

abbrev pub not_on_channel : Text
not_on_channel = text "Senpai... I can't do that if you're not on the channel!"

abbrev pub with_channels : List (Text × Channel) → World → World
with_channels channels w = record w { state = record w.state { channels = channels } }

abbrev pub part_text : Option Text → Text → Text → Text
part_text reason name b = with_reason reason (param name b)

-- The notice that the members who stay get.
unfoldable pub part_notice : Client → Option Text → Text → Item
unfolding item_of with_reason
part_notice issuer reason name = item_of issuer.full_name Command.part (part_text reason name)

-- The end of an iteration of `cmd_part`, once the issuer is out of the channel.
unfoldable pub part_from : Client → Option Text → Text → Channel → World → Option (World × Bool)
unfolding same_name tell part_notice with_reason reply_message
part_from issuer reason name left w =
    let rb = reply_message issuer.full_name Command.part (part_text reason name) w.rb in
    let emptied = with_channels (delete same_name name w.state.channels) w in
    let parted = with_channels (put same_name name left w.state.channels) w in
    if is_empty left.members
    then some (record emptied { rb = rb }, true)
    else elim (tell (part_notice issuer reason name) everyone w.state.clients (keys left.members)
        w.sent) [ none ↦ none | some sent ↦ some (record parted { rb = rb; sent = sent }, true) ]

-- An iteration of `cmd_part`; the Boolean is false where it sets `res` to `Err(())`.
unfoldable pub part_one : ℕ → Client → Option Text → Text → World → Option (World × Bool)
unfolding same_name part_from about lr_batch_begin
part_one id issuer reason name w =
    let begun = record w { rb = lr_batch_begin w.rb } in
    elim (get same_name name w.state.channels) [
      | none ↦ some (about (text "442") name not_on_channel begun, false)
      | some c ↦
          if contains_key ◌==◌ id c.members
          then part_from issuer reason name (record c { members = delete ◌==◌ id c.members }) begun
          else some (about (text "442") name not_on_channel begun, false)
    ]

unfoldable pub part_each :
    ℕ → Client → Option Text → List Text → World × Bool → Option (World × Bool)
unfolding part_one
part_each id issuer reason [] r = some r
part_each id issuer reason (name ∷ names) r = elim (part_one id issuer reason name r.0) [
  | none ↦ none
  | some next ↦ part_each id issuer reason names (next.0, r.1 && next.1)
]

unfoldable pub cmd_part : ℕ → List Text → Option Text → World → Option (World × Bool)
unfolding part_each
cmd_part id from reason w = elim (client_of id w.state) [
  | none ↦ none
  | some issuer ↦ part_each id issuer reason from (w, true)
]

-- The result of `find_nick`: a panic, no such nickname, or the client.
pub data Nick : Type 0 where
  lost : Nick
  no_such_nick : World → Nick
  found_nick : ℕ → Client → Nick

unfoldable pub find_nick : Text → World → Nick
unfolding same_name about
find_nick nick w =
    let missing = no_such_nick (about (text "401") nick (text "I can't find this senpai...") w) in
    elim (get same_name nick w.state.nicks) [
      | none ↦ missing
      | some id ↦ elim (client_of id w.state) [
        | none ↦ lost
        | some c ↦ if is_registered c.state then found_nick id c else missing
      ]
    ]

-- The result of a guard on a channel and the issuer's modes there: refused with a reply, or passed.
pub data Guard : Type 0 where
  refused : World → Guard
  passed : Channel → MemberModes → Guard

-- The look-up of the channel, and `find_member`.
unfoldable pub find_member : ℕ → Text → World → Guard
unfolding same_name about
find_member id name w = elim (get same_name name w.state.channels) [
  | none ↦ refused (about (text "403") name (text "I can't find this channel...") w)
  | some c ↦ elim (get ◌==◌ id c.members) [
    | none ↦ refused (about (text "442") name not_on_channel w)
    | some m ↦ passed c m
  ]
]

abbrev pub topic_of : Text → Text → ℕ → Option Topic
topic_of content who now =
    if is_empty content then none else some (record { content = content; who = who; time = now })

-- `cmd_topic_set` past its guards.
unfoldable pub set_topic : ℕ → ℕ → Text → Text → Channel → World → Option (World × Bool)
unfolding same_name tell item_of reply_message
set_topic now id name given c w = elim (client_of id w.state) [
  | none ↦ none
  | some client ↦ elim (slice_to given (min (len given) w.state.topiclen)) [
    | none ↦ none
    | some content ↦
        let said = λ (b : Text). trailing_param content (param name b) in
        let notice = item_of client.full_name Command.topic said in
        let changed = record c { topic = topic_of content client.nick now } in
        elim (tell notice everyone w.state.clients (keep (λ m. not (m == id)) (keys c.members))
          w.sent) [
            | none ↦ none
            | some sent ↦ some (
              record (with_channels (put same_name name changed w.state.channels) w) {
                rb = reply_message client.full_name Command.topic said w.rb;
                sent = sent;
              },
              true,
            )
          ]
  ]
]

unfoldable pub cmd_topic_set : ℕ → ℕ → Text → Text → World → Option (World × Bool)
unfolding find_member about set_topic
cmd_topic_set now id name topic w = elim (find_member id name w) [
  | refused w' ↦ some (w', false)
  | passed c m ↦
      if not m.operator && c.topic_restricted
      then some (about (text "482") name (text "You need to ask a channel operator") w, false)
      else set_topic now id name topic c w
]
