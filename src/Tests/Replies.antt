-- ===== src/Tests/Replies.antt =====
-- Messages, tags, capabilities and replies at concrete inputs.
use mathlib.Core.Option
use ellidri.Buffers.{
  new_reply, lr_end, reply_with, trailing_param, message, param, escaped, ReplyBuffer,
}
use ellidri.Buffers.Laws.{begin_batch, rename, write_all, lr_end_total}
use ellidri.Cap.{ls_common}
use ellidri.Command
use ellidri.Request
use ellidri.Request.Laws.{is_reached, new-parse}
use ellidri.Message.{Message, ParsedCommand, parse, unescape, unescape_value, parse_tag}
use ellidri.Message.Tags.{unescape-escaped}
use ellidri.Prelude.{is_empty, text, ◌≡◌, refl, ◌≢◌, true, false, none, some, [], ◌∷◌}

parses_params :
    Option.map (λ m. m.params) (parse (text ":ser PRIVMSG #fosdem :I'm Simon Sir\r\n"))
    ≡ some (text "#fosdem" ∷ text "I'm Simon Sir" ∷ [])
unfolding parse
parses_params = refl

parses_nothing : parse (text "  \r \n \t ") ≡ none
unfolding parse
parses_nothing = refl

no_command : parse (text ":prefix") ≡ none
unfolding parse
no_command = refl

unescapes :
    unescape_value (parse_tag (text "label=Newline:\\s\\nBackslash-n:\\s\\\\n"))
    ≡ text "Newline: \nBackslash-n: \\n"
unfolding unescape_value parse_tag
unescapes = refl

unescape-escaped_example : unescape false (escaped (text "a; b")) ≡ text "a; b"
unescape-escaped_example = unescape-escaped (text "a; b")

offered :
    ls_common
    ≡ text
        "account-notify account-tag away-notify batch cap-notify echo-message extended-join invite-notify labeled-response message-tags multi-prefix server-time setname userhost-in-names"
unfolding ls_common
offered = refl

trims_params :
    message (text "nick!user@127.0.0.1") Command.quit (λ b. param (text "  chiao ") (param [] b)) []
    ≡ text ":nick!user@127.0.0.1 QUIT chiao\r\n"
unfolding message param Command.as_str
trims_params = refl

labels_reply :
    (reply_with
      (text "305")
      (trailing_param (text "Hi"))
      (new_reply (text "dom") (text "nick") (text "l"))).buf
    ≡ text "@label=l :dom 305 nick :Hi\r\n"
unfolding reply_with new_reply trailing_param Command.as_str
labels_reply = refl

lr_end_total_example :
    (rb : ReplyBuffer) × (lr_end (
        write_all
          (begin_batch ∷ rename (text "b") ∷ [])
          (new_reply (text "d") (text "n") (text "l")))
      ≡ some rb)
    × (rb.batch ≡ none)
    × (rb.has_label ≡ false)
    × (text "l" ≢ [] → is_empty rb.buf ≡ false)
lr_end_total_example =
    lr_end_total (begin_batch ∷ rename (text "b") ∷ []) (text "d") (text "n") (text "l")

abbrev nick_message : Message
nick_message = record {
  tags = [];
  prefix = none;
  command = ParsedCommand.known Command.nick;
  num_params = 1;
  params = text "bob" ∷ [];
}

parses_nick : parse (text "NICK bob\r\n") ≡ some nick_message
unfolding parse
parses_nick = refl

new-parse_example : is_reached (Request.new nick_message) ≡ true
new-parse_example = new-parse (text "NICK bob\r\n") nick_message parses_nick
