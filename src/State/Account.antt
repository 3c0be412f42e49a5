-- ===== src/State/Account.antt =====
-- The handlers about the client itself: AWAY, KILL, OPER and MODE of a nickname of src/state/v1.rs,
-- CAP, AUTHENTICATE and SETNAME of src/state/v3.rs. A result of `none` is a panic; its Boolean is
-- whether the handler returned `Ok`.
use ellidri.Prelude.{
  ltb, if◌then◌else◌, is_empty, any, Text, text, len, str_eq, slice_to, ℕ, min, Bool, true, false,
  ◌&&◌, ◌||◌, Option, none, some, List, [], ◌∷◌, ◌++◌,
}
use ellidri.Cap
use ellidri.Cap.{Version, version_lt, ls_common, write_diff, write_enabled, update}
use ellidri.Command.{Command, reply}
use ellidri.Channel.Modes.{differ}
use ellidri.Mode
use ellidri.Mode.{UserChange, user_query, user_value, user_symbol}
use ellidri.Client
use ellidri.Client.{Client}
use ellidri.Buffers.{
  ReplyBuffer, param, fmt_param, trailing_param, reply_with, reply_message, prefixed_message,
  lr_batch_begin, is_some,
}
use ellidri.State.{World, same_name, client_of, item_of, send_notification, remove_client}
use ellidri.State.Info.{line, line_about}
use ellidri.State.Session.{with_client}
use ellidri.State.Rooms.{find_nick, lost, no_such_nick, found_nick}

-- The message cut to `awaylen` bytes; a cut inside a character panics.
unfoldable pub cut_to : ℕ → Option Text → Option (Option Text)
cut_to n none = some none
cut_to n (some r) = elim (slice_to r (min (len r) n)) [ none ↦ none | some cut ↦ some (some cut) ]

away_text : Option Text → Text → Text
away_text none b = b
away_text (some m) b = trailing_param m b

-- `cmd_away` past its guard, with the message cut.
unfoldable pub set_away : ℕ → Option Text → Client → World → World × Bool
unfolding away_text
set_away id message c w =
    let told =
      if is_some message
      then line (text "306") (text "See you later!") w.rb
      else line (text "305") (text "Welcome back!") w.rb in
    let notice = item_of c.full_name Command.away (away_text message) in
    let changed = with_client id (record c { away_message = message }) w in
    (
      send_notification id notice (λ t d. d.cap_enabled Cap.away_notify)
          (record changed { rb = told }),
      true,
    )

unfoldable pub cmd_away : ℕ → Option Text → World → Option (World × Bool)
unfolding cut_to
cmd_away id reason w = elim (client_of id w.state) [
  | none ↦ none
  | some c ↦
      if differ (is_some c.away_message) (is_some reason)
      then elim (cut_to w.state.awaylen reason) [
        | none ↦ none
        | some message ↦ some (set_away id message c w)
      ]
      else some (w, false)
]

abbrev no_privileges : ReplyBuffer → ReplyBuffer
no_privileges rb =
    line (text "481") (text "Senpai, could you stop doing that? ellidri doesn't like it...") rb

unfoldable pub cmd_kill : ℕ → Text → Text → World → Option (World × Bool)
cmd_kill id who reason w = elim (client_of id w.state) [
  | none ↦ none
  | some c ↦
      if c.operator
      then elim (find_nick who w) [
        | lost ↦ none
        | no_such_nick told ↦ some (told, false)
        | found_nick target d ↦
            some (remove_client target (text "Killed: " ++ reason) (text "Killed") w, true)
      ]
      else some (record w { rb = no_privileges w.rb }, false)
]

unfoldable pub cmd_oper : ℕ → Text → Text → World → Option (World × Bool)
cmd_oper id name password w =
    if any (λ o. str_eq o.0 name && str_eq o.1 password) w.state.opers
    then elim (client_of id w.state) [
      | none ↦ none
      | some c ↦
          let moded =
            prefixed_message Command.mode (λ b. param (text "+o") (param c.nick b))
              (lr_batch_begin w.rb) in
          let changed = with_client id (record c { operator = true }) w in
          some (
            record changed { rb = line (text "381") (text "You are now a BIG senpai!") moded },
            true,
          )
    ]
    else some (record w { rb = line (text "464") (text "Nope! Wrong password") w.rb }, false)

-- The loop of `cmd_mode_user_set`: the client, the reply buffer and what was applied.
unfoldable pub user_changes :
    List (Mode.Result UserChange) → Client → ReplyBuffer → Text → Client × ReplyBuffer × Text
user_changes [] c rb applied = (c, rb, applied)
user_changes (Mode.ok change ∷ rest) c rb applied =
    let (changed, done) = Client.apply_mode_change change c in
    user_changes rest changed rb (
      if done
      then applied ++ (if user_value change then b'+' else b'-') ∷ user_symbol change ∷ []
      else applied)
user_changes (Mode.err (Mode.unknown mode v) ∷ rest) c rb applied =
    user_changes rest c
      (reply_with (text "501")
        (λ b.
          trailing_param (text "This letter right here... what does it mean?")
            (fmt_param (mode ∷ []) b))
        rb)
      applied
user_changes (Mode.err e ∷ rest) c rb applied = user_changes rest c rb applied

unfoldable pub cmd_mode_user_set : ℕ → Text → Text → World → Option (World × Bool)
cmd_mode_user_set id nick modes w = elim (client_of id w.state) [
  | none ↦ none
  | some c ↦
      if same_name c.nick nick
      then (let (changed, rb, applied) = user_changes (user_query modes) c w.rb [] in
          some (
            record (with_client id changed w) {
              rb =
                  if is_empty applied
                  then rb
                  else reply_message c.full_name Command.mode (λ b. param applied (param nick b))
                      rb;
            },
            true,
          ))
      else some (
        record w {
          rb =
              line_about (text "502") nick
                (text "Kyaaa! Peeking is bad senpai! Please don't do that again!") w.rb;
        },
        false,
      )
]

-- `ReplyBuffer::reply` of a command.
unfoldable pub reply_command : Command → (Text → Text) → ReplyBuffer → ReplyBuffer
reply_command command rest rb = prefixed_message command (λ b. rest (param rb.nickname b)) rb

unfoldable pub cmd_cap_list : ℕ → World → Option (World × Bool)
cmd_cap_list id w = elim (client_of id w.state) [
  | none ↦ none
  | some c ↦ some (
    record w {
      rb =
          reply_command Command.cap
            (λ b. trailing_param (write_enabled c.cap_enabled) (param (text "LIST") b)) w.rb;
    },
    true,
  )
]

unfoldable pub cmd_cap_ls : ℕ → Version → World → Option (World × Bool)
cmd_cap_ls id version w = elim (client_of id w.state) [
  | none ↦ none
  | some c ↦
      let newest = if version_lt c.cap_version version then version else c.cap_version in
      some (
        record (with_client id (record c { cap_version = newest }) w) {
          rb = reply_command Command.cap (λ b. trailing_param ls_common (param (text "LS") b)) w.rb;
        },
        true,
      )
]

unfoldable pub cmd_cap_req : ℕ → Cap.Diff → World → Option (World × Bool)
cmd_cap_req id req w = elim (client_of id w.state) [
  | none ↦ none
  | some c ↦ some (
    record (with_client id (record c { cap_enabled = update c.cap_enabled req }) w) {
      rb =
          reply_command Command.cap (λ b. trailing_param (write_diff req) (param (text "ACK") b))
            w.rb;
    },
    true,
  )
]

unfoldable pub cmd_setname : ℕ → Text → World → Option (World × Bool)
cmd_setname id realname w = elim (client_of id w.state) [
  | none ↦ none
  | some c ↦
      if is_empty realname || ltb w.state.namelen (len realname)
      then some (
        record w {
          rb =
              reply_message [] (reply (text "FAIL"))
                (λ b.
                  trailing_param (text "Meh, this is obviously a bad realname...")
                    (param (text "INVALID_REALNAME") (param (text "SETNAME") b)))
                w.rb;
        },
        false,
      )
      else (let notice = item_of c.full_name Command.setname (param realname) in
          let rb = reply_message c.full_name Command.setname (param realname) w.rb in
          let changed = with_client id (Client.set_real realname c) w in
          some (
            send_notification id notice (λ t d. d.cap_enabled Cap.setname)
                (record changed { rb = rb }),
            true,
          ))
]
