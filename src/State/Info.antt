-- ===== src/State/Info.antt =====
-- The handlers that tell about the server: ADMIN, INFO, LUSERS, MOTD, PING, REHASH, TIME and VERSION
-- of src/state/v1.rs, with `send_i_support`, `send_lusers`, `send_motd` and `send_welcome` of
-- src/state/mod.rs. But for REHASH they only read the state, so they are functions to the reply
-- buffer.
use ellidri.Prelude.{
  ltb, ◌==◌, if◌then◌else◌, length, keep, Text, text, split, contains_key, ℕ, ◌+◌, Bool, true,
  false, not, ◌&&◌, ◌||◌, Option, none, some, List, [], ◌∷◌, ◌++◌, map,
}
use ellidri.Command
use ellidri.Client.{Client}
use ellidri.Client.Connection.{is_registered}
use ellidri.Channel.{Channel}
use ellidri.Buffers.{
  ReplyBuffer, param, fmt_param, trailing_param, reply_with, prefixed_message, lr_batch_begin,
  decimal,
}
use ellidri.State.{State, World, client_of}

-- What the handlers take from the clock and the random generator, and the tags of the client.
pub record Env : Type 0 where
  pub now : ℕ
  pub time_str : Text
  pub time_precise : Text
  pub message_id : Text
  pub server_version : Text
  pub server_info : Text
  pub client_tags : Text

-- A reply with its last parameter alone, and with one parameter before it.
abbrev pub line : Text → Text → ReplyBuffer → ReplyBuffer
line code last rb = reply_with code (trailing_param last) rb

abbrev pub line_about : Text → Text → Text → ReplyBuffer → ReplyBuffer
line_about code first last rb = reply_with code (λ b. trailing_param last (param first b)) rb

unfoldable pub cmd_admin : State → ReplyBuffer → ReplyBuffer
cmd_admin s rb = line (text "259") s.org_mail (
    line (text "258") s.org_name (
      line (text "257") s.org_location
        (line_about (text "256") s.domain (text "Administrative info") (lr_batch_begin rb))))

-- `str::lines`: the parts between line feeds, without a carriage return at the end, and without an
-- empty part at the very end.
strip_cr : Text → Text
strip_cr [] = []
strip_cr (c ∷ []) = if c == 13 then [] else c ∷ []
strip_cr (c ∷ d ∷ s) = c ∷ strip_cr (d ∷ s)

drop_last_empty : List Text → List Text
drop_last_empty [] = []
drop_last_empty ([] ∷ []) = []
drop_last_empty ((c ∷ s) ∷ []) = (c ∷ s) ∷ []
drop_last_empty (s ∷ t ∷ ts) = s ∷ drop_last_empty (t ∷ ts)

unfoldable pub lines : Text → List Text
unfolding strip_cr drop_last_empty
lines s = map strip_cr (drop_last_empty (split 10 s))

-- One reply for each line, behind a prefix.
unfoldable pub say_lines : Text → Text → List Text → ReplyBuffer → ReplyBuffer
say_lines code before [] rb = rb
say_lines code before (l ∷ ls) rb = say_lines code before ls (line code (before ++ l) rb)

unfoldable pub cmd_info : Env → ReplyBuffer → ReplyBuffer
cmd_info env rb =
    line (text "374") (text "End of info")
      (say_lines (text "371") [] (lines env.server_info) (lr_batch_begin rb))

-- The numbers of operators and of clients that have not registered.
count_ops : List (ℕ × Client) → ℕ
count_ops [] = 0
count_ops ((id, c) ∷ rest) = (if is_registered c.state && c.operator then 1 else 0) + count_ops rest

count_unknown : List (ℕ × Client) → ℕ
count_unknown [] = 0
count_unknown ((id, c) ∷ rest) = (if is_registered c.state then 0 else 1) + count_unknown rest

-- The channels that a client may know of.
abbrev pub is_seen : ℕ → Channel → Bool
is_seen id c = not c.secret || contains_key ◌==◌ id c.members

-- A reply with a number, where it is not zero.
counted : Text → ℕ → Text → ReplyBuffer → ReplyBuffer
counted code n last rb =
    if ltb 0 n then reply_with code (λ b. trailing_param last (fmt_param (decimal n) b)) rb else rb

unfoldable pub send_lusers : ℕ → State → ReplyBuffer → ReplyBuffer
unfolding counted count_ops count_unknown
send_lusers id s rb =
    let clients = decimal (length s.clients) in
    let channels = length (keep (λ e. is_seen id e.1) s.channels) in
    line (text "255") (text "I have " ++ clients ++ text " senpai(s) and 0 servers") (
      counted (text "254") channels (text "channels created") (
        counted (text "253") (count_unknown s.clients) (text "unknown connection(s)") (
          counted (text "252") (count_ops s.clients) (text "operator(s) online") (
            line (text "251") (text "There are " ++ clients ++ text " senpai(s) on 1 server") rb))))

unfoldable pub cmd_lusers : ℕ → State → ReplyBuffer → ReplyBuffer
cmd_lusers id s rb = send_lusers id s (lr_batch_begin rb)

unfoldable pub send_motd : State → ReplyBuffer → ReplyBuffer
send_motd s rb = elim s.motd [
  | none ↦ line (text "422") (text "ellidri can't find the MOTD...") rb
  | some motd ↦ line (text "376") (text "End of MOTD") (
      say_lines (text "372") (text "- ") (lines motd)
        (line (text "375") (text "- " ++ s.domain ++ text " message of the day -") rb))
]

unfoldable pub cmd_motd : State → ReplyBuffer → ReplyBuffer
cmd_motd s rb = send_motd s (lr_batch_begin rb)

unfoldable pub cmd_ping : Text → ReplyBuffer → ReplyBuffer
cmd_ping payload rb = prefixed_message Command.pong (trailing_param payload) rb

-- `cmd_rehash`: it notifies the control task, which reloads the configuration.
unfoldable pub cmd_rehash : ℕ → World → Option (World × Bool)
cmd_rehash id w = elim (client_of id w.state) [
  | none ↦ none
  | some c ↦ some (
      if c.operator
      then (
        record w {
          rb =
              line_about (text "382") (text "--")
                (text "Oh~~!  Onwards to reload the configuration!") w.rb;
          state = record w.state { reload_asked = true };
        },
        true,
      )
      else (
        record w {
          rb =
              line (text "481")
                (text "Senpai, could you stop doing that? ellidri doesn't like it...") w.rb;
        },
        false,
      ))
]

unfoldable pub cmd_time : Env → State → ReplyBuffer → ReplyBuffer
cmd_time env s rb = line_about (text "391") s.domain env.time_str rb

-- A parameter with the value of a limit.
limit : Text → ℕ → Text → Text
limit name n b = fmt_param (name ++ decimal n) b

unfoldable pub send_i_support : State → ReplyBuffer → ReplyBuffer
unfolding limit
send_i_support s rb =
    let supported = text "are allowed by ellidri" in
    let first = λ (b : Text).
      param (text "TARGMAX=JOIN:,KICK:,LIST:,NAMES:,NOTICE:1,PART:,PRIVMSG:1,WHOIS:1") (
        param (text "SAFELIST") (
          param (text "PREFIX=(qaohv)~&@%+") (
            param (text "MODES") (
              param (text "INVEX") (
                param (text "HOSTLEN=39") (
                  param (text "EXCEPTS") (
                    param (text "CHANMODES=beI,k,l,imnst") (
                      param (text "CHANTYPES=#&") (
                        param (text "CHANLIMIT=#&:")
                          (param (text "CASEMAPPING=ascii") b)))))))))) in
    let lengths = λ (b : Text). limit (text "TOPICLEN=") s.topiclen (
      limit (text "NICKLEN=") s.nicklen (
        limit (text "NAMELEN=") s.namelen
          (limit (text "KICKLEN=") s.kicklen (limit (text "KEYLEN=") s.keylen b)))) in
    reply_with (text "005") (λ b. trailing_param supported (lengths b))
      (reply_with (text "005")
        (λ b.
          trailing_param supported
            (limit (text "CHANNELLEN=") s.channellen (limit (text "AWAYLEN=") s.awaylen (first b))))
        rb)

unfoldable pub cmd_version : Env → State → ReplyBuffer → ReplyBuffer
cmd_version env s rb =
    send_i_support s (
      reply_with (text "351") (λ b. param s.domain (param env.server_version b))
        (lr_batch_begin rb))

-- `send_welcome`, for a client that is in the state.
unfoldable pub welcome : Env → ℕ → Client → State → ReplyBuffer → ReplyBuffer
welcome env id client s rb =
    let greeted = line (text "001") (text "Welcome home, " ++ client.nick) (lr_batch_begin rb) in
    let hosted =
      line (text "002")
        (text "Your host is " ++ s.domain ++ text " running version " ++ env.server_version)
        greeted in
    let created =
      line (text "003") (text "I've been looking at you since " ++ s.created_at) hosted in
    let info =
      reply_with (text "004")
        (λ b.
          param (text "beIkl") (
            param (text "imnst")
              (param (text "aio") (param env.server_version (param s.domain b)))))
        created in
    send_motd s (send_lusers id s (send_i_support s info))

unfoldable pub send_welcome : Env → ℕ → State → ReplyBuffer → Option ReplyBuffer
send_welcome env id s rb = elim (client_of id s) [
  | none ↦ none
  | some client ↦ some (welcome env id client s rb)
]
