-- ===== src/State/Moding.antt =====
-- MODE of a channel: `cmd_mode_channel_set` of src/state/v1.rs. A result of `none` is a panic; its
-- Boolean is whether the handler returned `Ok`.
use ellidri.Prelude.{
  ◌==◌, if◌then◌else◌, is_empty, Text, text, get, put, keys, ℕ, Bool, true, false, not, ◌&&◌,
  Option, none, some, List, [], ◌∷◌,
}
use ellidri.Command.{Command}
use ellidri.Mask.Set.{MaskSet, masks}
use ellidri.Mode
use ellidri.Mode.{ChannelChange, channel_query}
use ellidri.Client.{Client}
use ellidri.Channel.{Channel}
use ellidri.Channel.Members.{can_change}
use ellidri.Channel.Modes.{Applied, done, key_set, user_not_in_channel, panic, apply_mode_change}
use ellidri.Channel.Notice.{Notice, start, note}
use ellidri.Buffers.{
  ReplyBuffer, param, fmt_param, trailing_param, reply_with, reply_message, lr_batch_begin,
}
use ellidri.State.{World, same_name, client_of, item_of}
use ellidri.State.Info.{line_about}
use ellidri.State.Rooms.{tell, about, with_channels, refused, passed, find_member}

-- The masks of `reply_list`, one reply for each, and its last line.
mask_lines : Text → Text → List Text → ReplyBuffer → ReplyBuffer
mask_lines code name [] rb = rb
mask_lines code name (m ∷ ms) rb =
    mask_lines code name ms (reply_with code (λ b. param m (param name b)) rb)

unfoldable pub reply_list : Text → Text → Text → Text → MaskSet → ReplyBuffer → ReplyBuffer
unfolding mask_lines
reply_list item end_code last name set rb =
    line_about end_code name last (mask_lines item name (masks set) rb)

-- What the loop of `cmd_mode_channel_set` changes.
pub record Progress : Type 0 where
  pub channel : Channel
  pub rb : ReplyBuffer
  pub notice : Notice

-- The `match` on what `apply_mode_change` returned.
unfoldable pub after_change : Text → ChannelChange → Progress → Channel × Applied → Option Progress
after_change name change p (c, done true) =
    some (record p { channel = c; notice = note p.notice change })
after_change name change p (c, done false) = some (record p { channel = c })
after_change name change p (c, user_not_in_channel) = elim (Mode.param change) [
  | none ↦ none
  | some who ↦ some (record p {
    channel = c;
    rb = line_about (text "441") who (text "This senpai isn't on the channel") p.rb;
  })
]
after_change name change p (c, key_set) = some (record p {
  channel = c;
  rb = line_about (text "467") name (text "The channel key is already here, senpai!") p.rb;
})
after_change name change p (c, panic) = none

-- An iteration of the loop.
unfoldable pub mode_item :
    (ℕ → Option Text) → ℕ → Text → Mode.Result ChannelChange → Progress → Option Progress
mode_item nick_of keylen name (Mode.err (Mode.unknown mode v)) p = some (record p {
  rb =
      reply_with (text "472")
        (λ b.
          trailing_param (text "This letter right here... what does it mean?")
            (fmt_param (mode ∷ []) b))
        p.rb;
})
mode_item nick_of keylen name (Mode.err e) p = some p
mode_item nick_of keylen name (Mode.ok Mode.get_bans) p = some (record p {
  rb = reply_list (text "367") (text "368") (text "End of ban list") name p.channel.ban_mask p.rb;
})
mode_item nick_of keylen name (Mode.ok Mode.get_exceptions) p = some (record p {
  rb =
      reply_list (text "348") (text "349") (text "End of except list") name p.channel.exception_mask
        p.rb;
})
mode_item nick_of keylen name (Mode.ok Mode.get_invitations) p = some (record p {
  rb =
      reply_list (text "346") (text "347") (text "End of invite list") name p.channel.exception_mask
        p.rb;
})
mode_item nick_of keylen name (Mode.ok change) p =
    after_change name change p (apply_mode_change nick_of keylen change p.channel)

unfoldable pub mode_items :
    (ℕ → Option Text) → ℕ → Text → List (Mode.Result ChannelChange) → Progress → Option Progress
mode_items nick_of keylen name [] p = some p
mode_items nick_of keylen name (i ∷ is) p = elim (mode_item nick_of keylen name i p) [
  | none ↦ none
  | some q ↦ mode_items nick_of keylen name is q
]

-- The parameters of the notice, folded onto the message.
add_params : List Text → Text → Text
add_params [] b = b
add_params (p ∷ ps) b = add_params ps (param p b)

unfoldable pub mode_text : Text → Notice → Text → Text
unfolding add_params
mode_text name n b = add_params n.applied_modeparams (param n.applied_modes (param name b))

-- What is sent after the loop.
unfoldable pub mode_notice : ℕ → Text → Client → Progress → World → Option World
mode_notice id name issuer p w =
    let said = mode_text name p.notice in
    if is_empty p.notice.applied_modes
    then some (record w { rb = p.rb })
    else elim (tell (item_of issuer.full_name Command.mode said) (λ m c. not (m == id))
        w.state.clients (keys p.channel.members) w.sent) [
          | none ↦ none
          | some sent ↦
              some (record w {
                rb = reply_message issuer.full_name Command.mode said p.rb;
                sent = sent;
              })
        ]

abbrev pub nick_in : List (ℕ × Client) → ℕ → Option Text
nick_in clients id = elim (get ◌==◌ id clients) [ none ↦ none | some c ↦ some c.nick ]

-- `cmd_mode_channel_set` past its guards.
unfoldable pub set_modes :
    ℕ → Text → Text → List Text → Client → Channel → World → Option (World × Bool)
set_modes id name modes mode_params issuer c w =
    elim (mode_items (nick_in w.state.clients) w.state.keylen name (channel_query modes mode_params)
      (record { channel = c; rb = lr_batch_begin w.rb; notice = start })) [
        | none ↦ none
        | some p ↦
            elim (mode_notice id name issuer p
              (with_channels (put same_name name p.channel w.state.channels) w)) [
                | none ↦ none
                | some v ↦ some (v, true)
              ]
      ]

unfoldable pub cmd_mode_channel_set : ℕ → Text → Text → List Text → World → Option (World × Bool)
cmd_mode_channel_set id name modes mode_params w = elim (get same_name name w.state.channels) [
  | none ↦ some (about (text "403") name (text "I can't find this channel...") w, false)
  | some c ↦ elim (client_of id w.state) [
    | none ↦ none
    | some issuer ↦ elim (find_member id name w) [
      | refused told ↦ some (told, false)
      | passed c' m ↦
          if not issuer.operator && not (can_change m (channel_query modes mode_params))
          then some (about (text "482") name (text "You need to ask a channel operator") w, false)
          else set_modes id name modes mode_params issuer c w
    ]
  ]
]
