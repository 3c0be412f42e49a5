-- ===== src/State/Talk.antt =====
-- PRIVMSG, NOTICE and TAGMSG: src/state/v1.rs. A result of `none` is a panic; its Boolean is whether
-- the handler returned `Ok`.
use ellidri.Prelude.{
  ◌==◌, if◌then◌else◌, Text, text, get, keys, ℕ, Bool, true, false, Option, none, some, List, [],
  ◌∷◌,
}
use ellidri.Cap
use ellidri.Cap.{has_message_tags, is_capable_of}
use ellidri.Command.{Command}
use ellidri.Request.{Talk}
use ellidri.Client.{Client, Item}
use ellidri.Channel.{can_talk}
use ellidri.Buffers.{
  ReplyBuffer, TagBuffer, param, trailing_param, reply_message, write_tagged, tagged_message, tag,
  tag_len, prefixed_command, end_message,
}
use ellidri.State.{World, same_name, client_of, send}
use ellidri.State.Info.{Env, line_about}
use ellidri.State.Rooms.{about, find_nick, lost, no_such_nick, found_nick}
use ellidri.State.Entry.{touch}

-- The tags that the server adds to a message.
unfoldable pub message_tags : Env → Client → TagBuffer → TagBuffer
message_tags env issuer t =
    let dated =
      tag (text "time") (some env.time_precise) (tag (text "msgid") (some env.message_id) t) in
    elim issuer.account [ none ↦ dated | some a ↦ tag (text "account") (some a) dated ]

unfoldable pub with_content : Option Text → Text → Text → Text
with_content none to b = param to b
with_content (some content) to b = trailing_param content (param to b)

-- `ReplyBuffer::tagged_message` with the tags of a message.
unfoldable pub tagged_reply : Env → Client → Command → (Text → Text) → ReplyBuffer → ReplyBuffer
tagged_reply env issuer command rest rb =
    write_tagged env.client_tags (message_tags env issuer) issuer.full_name command rest rb

-- The echo of `message_build`.
unfoldable pub echo : Env → Client → Command → (Text → Text) → ReplyBuffer → ReplyBuffer
echo env issuer command rest rb =
    if issuer.cap_enabled Cap.echo_message
    then (if has_message_tags issuer.cap_enabled
        then tagged_reply env issuer command rest rb
        else reply_message issuer.full_name command rest rb)
    else rb

-- The item of `message_build`, whose `start` is the length of its tags.
unfoldable pub message_item : Env → Client → Command → (Text → Text) → Item
message_item env issuer command rest =
    let t = message_tags env issuer (tagged_message env.client_tags []) in
    record {
      start = tag_len t;
      buf = end_message (rest (prefixed_command issuer.full_name command t));
    }

-- The loop over the members of the channel, without who is gone or does not know the command.
unfoldable pub talk_each :
    ℕ → Command → Item → List (ℕ × Client) → List ℕ → List (ℕ × Item) → List (ℕ × Item)
talk_each id command i clients [] sent = sent
talk_each id command i clients (m ∷ ms) sent = talk_each id command i clients ms (
    if m == id then sent else elim (get ◌==◌ m clients) [
      | none ↦ sent
      | some c ↦ if is_capable_of c.cap_enabled command then send m c i sent else sent
    ])

abbrev pub done_at : ℕ → ℕ → World → Option (World × Bool)
done_at now id w = elim (touch now id w) [ none ↦ none | some v ↦ some (v, true) ]

unfoldable pub cmd_message_channel : Env → ℕ → Talk → World → Option (World × Bool)
cmd_message_channel env id args w = elim (get same_name args.to w.state.channels) [
  | none ↦ some (about (text "403") args.to (text "I can't find this channel...") w, false)
  | some c ↦
      if can_talk id c
      then elim (client_of id w.state) [
        | none ↦ none
        | some issuer ↦
            let rest = with_content args.content args.to in
            let msg = message_item env issuer args.command rest in
            done_at env.now id (record w {
              rb = echo env issuer args.command rest w.rb;
              sent = talk_each id args.command msg w.state.clients (keys c.members) w.sent;
            })
      ]
      else some
          (about (text "404") args.to (text "They can't hear you from here senpai...") w, false)
]

-- The reply that the target is away.
unfoldable pub away_reply : Text → Client → ReplyBuffer → ReplyBuffer
away_reply to target rb = elim target.away_message [
  | none ↦ rb
  | some m ↦ line_about (text "301") to m rb
]

unfoldable pub cmd_message_user : Env → ℕ → Talk → World → Option (World × Bool)
cmd_message_user env id args w = elim (find_nick args.to w) [
  | lost ↦ none
  | no_such_nick told ↦ some (told, false)
  | found_nick target_id target ↦
      if is_capable_of target.cap_enabled args.command
      then elim (client_of id w.state) [
        | none ↦ none
        | some issuer ↦
            let rest = with_content args.content args.to in
            let msg = message_item env issuer args.command rest in
            done_at env.now id (record w {
              rb = away_reply args.to target (echo env issuer args.command rest w.rb);
              sent = send target_id target msg w.sent;
            })
      ]
      else some (w, false)
]
