-- ===== src/State/Lists.antt =====
-- The handlers that tell about channels: LIST, NAMES, and TOPIC and MODE where they ask, of
-- src/state/v1.rs, with `find_channel`, `send_names` and `send_topic` of src/state/mod.rs. They only
-- read the state; `none` is a panic, and the Boolean is whether the handler returned `Ok`.
use ellidri.Prelude.{
  ◌==◌, if◌then◌else◌, length, is_empty, Text, text, get, contains_key, ℕ, Bool, true, false, not,
  ◌&&◌, Option, none, some, List, [], ◌∷◌, ◌++◌,
}
use ellidri.Cap
use ellidri.Cap.{Capabilities}
use ellidri.Client.{Client, write_modes}
use ellidri.Channel.{Channel, Topic, mode_letters}
use ellidri.Channel
use ellidri.Channel.Members
use ellidri.Channel.Members.{MemberModes, all_symbols}
use ellidri.Buffers.{
  ReplyBuffer, param, fmt_param, trailing_param, reply_with, lr_batch_begin, decimal, pop,
}
use ellidri.State.{State, same_name, client_of}
use ellidri.State.Info.{line, line_about}

abbrev pub no_such_channel : Text → ReplyBuffer → ReplyBuffer
no_such_channel name rb = line_about (text "403") name (text "I can't find this channel...") rb

abbrev pub not_on : Text → ReplyBuffer → ReplyBuffer
not_on name rb =
    line_about (text "442") name (text "Senpai... I can't do that if you're not on the channel!") rb

-- `Channel::list_entry`
unfoldable pub list_entry : Channel → Text → Text
list_entry c b =
    trailing_param (elim c.topic [ none ↦ [] | some t ↦ t.content ])
      (fmt_param (decimal (length c.members)) b)

-- A line of LIST, where the client may see the channel.
unfoldable pub list_line : ℕ → Client → Text → Channel → ReplyBuffer → ReplyBuffer
list_line id client name c rb =
    if c.secret && not client.operator && not (contains_key ◌==◌ id c.members)
    then rb
    else reply_with (text "322") (λ b. list_entry c (param name b)) rb

list_lines : ℕ → Client → List (Text × Channel) → ReplyBuffer → ReplyBuffer
list_lines id client [] rb = rb
list_lines id client ((name, c) ∷ rest) rb =
    list_lines id client rest (list_line id client name c rb)

list_named : ℕ → Client → List (Text × Channel) → List Text → ReplyBuffer → ReplyBuffer
list_named id client channels [] rb = rb
list_named id client channels (name ∷ names) rb =
    list_named id client channels names
      (elim (get same_name name channels) [ none ↦ rb | some c ↦ list_line id client name c rb ])

abbrev list_end : ReplyBuffer → ReplyBuffer
list_end rb = line (text "323") (text "End of list") rb

unfoldable pub cmd_list_all : ℕ → State → ReplyBuffer → Option (ReplyBuffer × Bool)
unfolding list_lines
cmd_list_all id s rb = elim (client_of id s) [
  | none ↦ none
  | some client ↦ some (list_end (list_lines id client s.channels (lr_batch_begin rb)), true)
]

unfoldable pub cmd_list : ℕ → List Text → State → ReplyBuffer → Option (ReplyBuffer × Bool)
unfolding list_named
cmd_list id targets s rb = elim (client_of id s) [
  | none ↦ none
  | some client ↦
      some (list_end (list_named id client s.channels targets (lr_batch_begin rb)), true)
]

-- What `send_names` writes for one member.
unfoldable pub name_text : Capabilities → Client → MemberModes → Text
name_text caps member modes =
    (if caps Cap.multi_prefix
      then all_symbols modes
      else elim (Channel.Members.symbol modes) [ none ↦ [] | some s ↦ s ∷ [] ])
    ++ (if caps Cap.userhost_in_names then member.full_name else member.nick)
    ++ b' ' ∷ []

unfoldable pub names_text : Capabilities → List (ℕ × Client) → List (ℕ × MemberModes) → Option Text
names_text caps clients [] = some []
names_text caps clients ((id, modes) ∷ rest) = elim (get ◌==◌ id clients) [
  | none ↦ none
  | some member ↦ elim (names_text caps clients rest) [
    | none ↦ none
    | some more ↦ some (name_text caps member modes ++ more)
  ]
]

names_end : Text → ReplyBuffer → ReplyBuffer
names_end name rb = line_about (text "366") name (text "End of names") rb

-- `send_names` of a channel that the client may see.
unfoldable pub names_of : ℕ → Text → Channel → State → ReplyBuffer → Option ReplyBuffer
unfolding names_end
names_of id name c s rb =
    if is_empty c.members then some (names_end name rb) else elim (client_of id s) [
      | none ↦ none
      | some client ↦ elim (names_text client.cap_enabled s.clients c.members) [
        | none ↦ none
        | some names ↦ some (
            names_end name (
              reply_with (text "353")
                (λ b. trailing_param (pop names) (param name (param (Channel.symbol c) b))) rb))
      ]
    ]

unfoldable pub send_names : ℕ → Text → State → ReplyBuffer → Option ReplyBuffer
send_names id name s rb = elim (get same_name name s.channels) [
  | none ↦ some rb
  | some c ↦
      if c.secret && not (contains_key ◌==◌ id c.members) then some rb else names_of id name c s rb
]

unfoldable pub names_each : ℕ → List Text → State → ReplyBuffer → Option ReplyBuffer
names_each id [] s rb = some rb
names_each id (name ∷ names) s rb = elim (send_names id name s rb) [
  | none ↦ none
  | some told ↦ names_each id names s told
]

unfoldable pub cmd_names : ℕ → List Text → State → ReplyBuffer → Option (ReplyBuffer × Bool)
cmd_names id targets s rb = elim (names_each id targets s (lr_batch_begin rb)) [
  | none ↦ none
  | some told ↦ some (told, true)
]

unfoldable pub cmd_names_all : ReplyBuffer → ReplyBuffer
unfolding names_end
cmd_names_all rb = names_end (text "*") rb

-- `send_topic` of a channel.
unfoldable pub topic_lines : Text → Bool → Channel → ReplyBuffer → ReplyBuffer
topic_lines name send_error c rb = elim c.topic [
  | none ↦
      if send_error
      then line_about (text "331") name (text "It seems this channel doesn't have any topic") rb
      else rb
  | some t ↦
      reply_with (text "333") (λ b. fmt_param (decimal t.time) (param t.who (param name b)))
        (line_about (text "332") name t.content rb)
]

unfoldable pub send_topic : Text → Bool → State → ReplyBuffer → Option ReplyBuffer
send_topic name send_error s rb = elim (get same_name name s.channels) [
  | none ↦ none
  | some c ↦ some (topic_lines name send_error c rb)
]

unfoldable pub cmd_topic_get : ℕ → Text → State → ReplyBuffer → Option (ReplyBuffer × Bool)
cmd_topic_get id name s rb = elim (get same_name name s.channels) [
  | none ↦ some (no_such_channel name rb, false)
  | some c ↦ some (
      if c.secret && not (contains_key ◌==◌ id c.members)
      then (not_on name rb, false)
      else (topic_lines name true c rb, true))
]

-- `Channel::modes`, with the limit and the key for who may see them.
unfoldable pub modes_text : Channel → Bool → Text → Text
modes_text c full_info b =
    let letters = fmt_param (mode_letters c) b in
    let limited : Text = elim c.user_limit [
      | none ↦ letters
      | some n ↦ fmt_param (decimal n) letters
    ] in
    if full_info then elim c.key [ none ↦ limited | some k ↦ param k limited ] else letters

unfoldable pub cmd_mode_channel_get : ℕ → Text → State → ReplyBuffer → Option (ReplyBuffer × Bool)
cmd_mode_channel_get id name s rb = elim (get same_name name s.channels) [
  | none ↦ some (no_such_channel name rb, false)
  | some c ↦
      let told = λ (full_info : Bool).
        reply_with (text "324") (λ b. modes_text c full_info (param name b)) rb in
      if contains_key ◌==◌ id c.members
      then some (told true, true)
      else elim (client_of id s) [ none ↦ none | some client ↦ some (told client.operator, true) ]
]

unfoldable pub cmd_mode_user_get : ℕ → Text → State → ReplyBuffer → Option (ReplyBuffer × Bool)
cmd_mode_user_get id nick s rb = elim (client_of id s) [
  | none ↦ none
  | some client ↦ some (
      if same_name client.nick nick
      then (reply_with (text "221") (fmt_param (write_modes client)) rb, true)
      else (
        line_about (text "502") nick
            (text "Kyaaa! Peeking is bad senpai! Please don't do that again!") rb,
        false,
      ))
]
