-- ===== src/State/Guests.antt =====
-- The handlers of KICK and INVITE: src/state/v1.rs. A result of `none` is a panic; its Boolean is
-- whether the handler returned `Ok`.
use ellidri.Prelude.{
  ◌==◌, if◌then◌else◌, Text, text, len, slice_to, get, contains_key, put, delete, keys, contains,
  add, ℕ, min, Bool, true, false, not, ◌&&◌, Option, none, some, List, [], ◌∷◌,
}
use ellidri.Command.{Command}
use ellidri.Cap.{Cap}
use ellidri.Client.{Client}
use ellidri.Channel.{Channel, can_invite}
use ellidri.Buffers.{ReplyBuffer, param, trailing_param, reply_with, reply_message, lr_batch_begin}
use ellidri.State.{World, same_name, client_of, item_of, send}
use ellidri.State.Rooms.{
  tell, with_reason, about, with_channels, lost, no_such_nick, found_nick, find_nick, refused,
  passed, find_member,
}

-- The reply that a nickname is not in a channel.
unfoldable pub not_in_channel : Text → Text → World → World
unfolding reply_with
not_in_channel nick name w = record w {
  rb =
      reply_with (text "441")
        (λ b. trailing_param (text "This senpai isn't on the channel") (param name (param nick b)))
        w.rb;
}

-- `send_kick`, to the members of the channel without the one who was kicked.
unfoldable pub send_kick : ℕ → Text → Text → Option Text → Channel → World → Option World
unfolding tell item_of with_reason reply_message
send_kick id name nick reason left w = elim (client_of id w.state) [
  | none ↦ none
  | some client ↦
      let said = λ (b : Text). with_reason reason (param nick (param name b)) in
      let notice = item_of client.full_name Command.kick said in
      let rb = reply_message client.full_name Command.kick said w.rb in
      elim (tell notice (λ m c. not (m == id)) w.state.clients (keys left.members) w.sent) [
        | none ↦ none
        | some sent ↦ some (record w { rb = rb; sent = sent })
      ]
]

-- An iteration of `cmd_kick` on the channel it has looked up.
unfoldable pub kick_one : ℕ → Text → Option Text → Text → Channel → World → Option (Channel × World)
unfolding find_nick not_in_channel send_kick
kick_one id name reason nick c w = elim (find_nick nick w) [
  | lost ↦ none
  | no_such_nick told ↦ some (c, not_in_channel nick name told)
  | found_nick kicked client ↦
      let left = record c { members = delete ◌==◌ kicked c.members } in
      if contains_key ◌==◌ kicked c.members
      then elim (send_kick id name nick reason left w) [
        | none ↦ none
        | some told ↦ some (left, told)
      ]
      else some (c, not_in_channel nick name w)
]

unfoldable pub kick_each :
    ℕ → Text → Option Text → List Text → Channel → World → Option (Channel × World)
unfolding kick_one
kick_each id name reason [] c w = some (c, w)
kick_each id name reason (nick ∷ nicks) c w = elim (kick_one id name reason nick c w) [
  | none ↦ none
  | some next ↦ kick_each id name reason nicks next.0 next.1
]

-- The reason cut to `kicklen` bytes; a cut inside a character panics.
unfoldable pub cut_reason : ℕ → Option Text → Option (Option Text)
cut_reason kicklen none = some none
cut_reason kicklen (some r) = elim (slice_to r (min (len r) kicklen)) [
  | none ↦ none
  | some cut ↦ some (some cut)
]

-- `cmd_kick` past its guards; the channel goes back to its place, even if nobody is left in it.
unfoldable pub kick : ℕ → Text → List Text → Option Text → Channel → World → Option (World × Bool)
unfolding same_name cut_reason kick_each
kick id name who reason c w = elim (cut_reason w.state.kicklen reason) [
  | none ↦ none
  | some cut ↦ elim (kick_each id name cut who c w) [
    | none ↦ none
    | some r ↦ some (with_channels (put same_name name r.0 r.1.state.channels) r.1, true)
  ]
]

unfoldable pub cmd_kick : ℕ → Text → List Text → Option Text → World → Option (World × Bool)
unfolding find_member about kick
cmd_kick id name who reason w = elim (find_member id name w) [
  | refused told ↦ some (told, false)
  | passed c m ↦
      if m.operator
      then kick id name who reason c w
      else some (about (text "482") name (text "You need to ask a channel operator") w, false)
]

-- The reply to an invitation, with the away message of who is invited.
unfoldable pub inviting : Text → Text → Client → ReplyBuffer → ReplyBuffer
unfolding lr_batch_begin reply_with
inviting who name invited rb =
    let told = reply_with (text "341") (λ b. param name (param who b)) (lr_batch_begin rb) in
    elim invited.away_message [
      | none ↦ told
      | some away ↦ reply_with (text "301") (λ b. trailing_param away (param who b)) told
    ]

-- `cmd_invite` past its guards.
unfoldable pub invite : ℕ → Text → ℕ → Client → Text → Channel → World → Option (World × Bool)
unfolding same_name can_invite tell item_of inviting send
invite id who who_id invited name c w = elim (client_of id w.state) [
  | none ↦ none
  | some client ↦
      let changed = record c { invites = add ◌==◌ who_id c.invites } in
      let notice = item_of client.full_name Command.invite (λ b. param name (param who b)) in
      let filter = λ (m : ℕ) (d : Client).
        not (m == id) && d.cap_enabled Cap.invite_notify && can_invite m changed in
      elim (tell notice filter w.state.clients (keys changed.members)
        (send who_id invited notice w.sent)) [
          | none ↦ none
          | some sent ↦ some (
            record (with_channels (put same_name name changed w.state.channels) w) {
              rb = inviting who name invited w.rb;
              sent = sent;
            },
            true,
          )
        ]
]

-- The guards of `cmd_invite` on the channel.
unfoldable pub invite_guarded :
    ℕ → Text → ℕ → Client → Text → Channel → World → Option (World × Bool)
unfolding can_invite about reply_with invite
invite_guarded id who who_id invited name c w =
    if not (can_invite id c)
    then some (about (text "482") name (text "You need to ask a channel operator") w, false)
    else if contains_key ◌==◌ who_id c.members
    then some (
      record w {
        rb =
            reply_with (text "443")
              (λ b.
                trailing_param (text "Don't worry senpai! They're already on the channel!")
                  (param name (param who b)))
              w.rb;
      },
      false,
    )
    else if contains ◌==◌ who_id c.invites
    then some (w, false)
    else invite id who who_id invited name c w

unfoldable pub cmd_invite : ℕ → Text → Text → World → Option (World × Bool)
unfolding same_name find_nick about invite_guarded
cmd_invite id who name w = elim (find_nick who w) [
  | lost ↦ none
  | no_such_nick told ↦ some (told, false)
  | found_nick who_id invited ↦ elim (get same_name name w.state.channels) [
    | none ↦ some (about (text "403") name (text "I can't find this channel...") w, false)
    | some c ↦ invite_guarded id who who_id invited name c w
  ]
]
