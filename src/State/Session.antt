-- ===== src/State/Session.antt =====
-- The handlers of a client's session, NICK, USER, PASS and QUIT: src/state/v1.rs. A result of `none`
-- is a panic; its Boolean is whether the handler returned `Ok`.
use ellidri.Prelude.{
  ◌==◌, if◌then◌else◌, is_empty, Text, text, len, str_eq, slice_to, get, put, delete, ℕ, min, Bool,
  true, false, not, ◌&&◌, Option, none, some, [], ◌++◌,
}
use ellidri.Command.{Command}
use ellidri.Client.{Client}
use ellidri.Client
use ellidri.Client.Connection.{is_registered}
use ellidri.Buffers.{ReplyBuffer, param, trailing_param, reply_with, reply_message}
use ellidri.Buffers
use ellidri.State.{State, World, same_name, client_of, item_of, send_notification, remove_client}

-- The index `self.nicks` and the clients once the issuer has the nickname.
abbrev pub renamed : ℕ → Text → Client → State → State
renamed id nick issuer s = record s {
  nicks = put same_name nick id (delete same_name issuer.nick s.nicks);
  clients = put ◌==◌ id (Client.set_nick nick issuer) s.clients;
}

-- `cmd_nick` past its early returns.
unfoldable pub take_nick : ℕ → Text → Client → World → World
unfolding same_name Client.set_nick Buffers.set_nick item_of send_notification reply_message
take_nick id nick issuer w =
    let s = renamed id nick issuer w.state in
    let response = item_of issuer.full_name Command.nick (param nick) in
    let rb = reply_message issuer.full_name Command.nick (param nick) w.rb in
    if is_registered issuer.state
    then send_notification id response (λ t c. true)
        (record w { state = s; rb = Buffers.set_nick nick rb })
    else record w { state = s; rb = Buffers.set_nick nick w.rb }

-- `cmd_nick` for an issuer that is a client.
unfoldable pub cmd_nick_of : ℕ → Text → Client → World → World × Bool
unfolding same_name take_nick reply_with
cmd_nick_of id nick issuer w = elim (get same_name nick w.state.nicks) [
  | none ↦ (take_nick id nick issuer w, true)
  | some owner ↦
      if not (owner == id)
      then (
        record w {
          rb =
              reply_with (text "433")
                (λ b.
                  trailing_param (text "Another senpai already took this nickname...")
                    (param nick b))
                w.rb;
        },
        false,
      )
      else if str_eq issuer.nick nick
      then (w, true)
      else (take_nick id nick issuer w, true)
]

unfoldable pub cmd_nick : ℕ → Text → World → Option (World × Bool)
unfolding cmd_nick_of
cmd_nick id nick w = elim (client_of id w.state) [
  | none ↦ none
  | some issuer ↦ some (cmd_nick_of id nick issuer w)
]

unfoldable pub with_client : ℕ → Client → World → World
with_client id c w = record w { state = record w.state { clients = put ◌==◌ id c w.state.clients } }

-- The two slices of `cmd_user`, which panic inside a character.
unfoldable pub introduce : ℕ → Text → Text → Client → World → Option (World × Bool)
unfolding with_client Client.set_user Client.set_real
introduce id username realname client w =
    elim (slice_to username (min (len username) w.state.userlen)) [
      | none ↦ none
      | some user ↦ elim (slice_to realname (min (len realname) w.state.namelen)) [
        | none ↦ none
        | some real ↦
            some (with_client id (Client.set_real real (Client.set_user user client)) w, true)
      ]
    ]

unfoldable pub cmd_user : ℕ → Text → Text → World → Option (World × Bool)
unfolding remove_client reply_with introduce
cmd_user id username realname w = elim (client_of id w.state) [
  | none ↦ none
  | some client ↦
      if not (is_empty w.state.password) && not client.has_given_password
      then some (
        remove_client id (text "You're not senpai!") [] (record w {
          rb = reply_with (text "464") (trailing_param (text "Nope! Wrong password")) w.rb;
        }),
        false,
      )
      else introduce id username realname client w
]

unfoldable pub cmd_pass : ℕ → Text → World → Option (World × Bool)
unfolding with_client
cmd_pass id password w =
    if str_eq w.state.password password
    then elim (client_of id w.state) [
      | none ↦ none
      | some client ↦ some (with_client id (record client { has_given_password = true }) w, true)
    ]
    else some (w, true)

-- `lines::quit`
abbrev quit_text : Option Text → Text
quit_text none = text "This senpai left"
quit_text (some reason) = text "This senpai left a note: " ++ reason

unfoldable pub cmd_quit : ℕ → Option Text → World → World × Bool
unfolding remove_client
cmd_quit id reason w = (remove_client id (text "Bye bye senpai!") (quit_text reason) w, true)
