-- ===== src/State/Who.antt =====
-- WHO and WHOIS: src/state/v1.rs. They only read the state; `none` is a panic, and the Boolean is
-- whether the handler returned `Ok`.
use ellidri.Prelude.{
  ◌==◌, if◌then◌else◌, Text, text, get, contains_key, ℕ, ◌+◌, ◌-◌, ◌%◌, ◌^◌, Bool, true, false, not,
  ◌&&◌, ◌||◌, Option, none, some, List, [], ◌∷◌, ◌++◌,
}
use ellidri.Cap
use ellidri.Channel
use ellidri.Client.{Client}
use ellidri.Client.Connection.{is_registered}
use ellidri.Channel.{Channel}
use ellidri.Channel.Members
use ellidri.Channel.Members.{MemberModes, no_modes, all_symbols}
use ellidri.Mask.Match.{answer, panicked, out_of_fuel, match_mask}
use ellidri.Names.{is_namespace}
use ellidri.Request.{Who}
use ellidri.Buffers.{
  ReplyBuffer, param, fmt_param, trailing_param, reply_with, lr_batch_begin, decimal, is_some,
}
use ellidri.State.{State, same_name, client_of}
use ellidri.State.Info.{Env, line_about}

-- The flags of `who_line`.
who_flags : Client → Client → MemberModes → Text
who_flags issuer target modes =
    (if is_some target.away_message then b'G' else b'H')
    ∷ (if issuer.cap_enabled Cap.multi_prefix
        then all_symbols modes
        else elim (Channel.Members.symbol modes) [ none ↦ [] | some s ↦ s ∷ [] ])

unfoldable pub who_line : Client → Client → Text → MemberModes → State → ReplyBuffer → ReplyBuffer
unfolding who_flags
who_line issuer target channel modes s rb =
    reply_with (text "352")
      (λ b. trailing_param (text "0 " ++ target.real) (
        fmt_param (who_flags issuer target modes) (
          param target.nick
            (param s.domain (param target.host (param target.user (param channel b)))))))
      rb

-- The first channel to show with the target: the loop of `who_user`.
unfoldable pub shown_channel :
    ℕ → Client → ℕ → Client → List (Text × Channel) → Option (Text × MemberModes)
shown_channel issuer_id issuer target_id target [] = none
shown_channel issuer_id issuer target_id target ((name, c) ∷ rest) =
    elim (get ◌==◌ target_id c.members) [
      | none ↦ shown_channel issuer_id issuer target_id target rest
      | some modes ↦
          elim (not issuer.operator
            && (target.is_invisible || c.secret)
            && not (contains_key ◌==◌ issuer_id c.members)) [
              | true ↦ shown_channel issuer_id issuer target_id target rest
              | false ↦ some (name, modes)
            ]
    ]

-- The end of `who_user`: the line, where the client can see the target.
who_seen : ℕ → Client → ℕ → Client → Option (Text × MemberModes) → State → ReplyBuffer → ReplyBuffer
who_seen issuer_id issuer target_id target (some (name, modes)) s rb =
    who_line issuer target name modes s rb
who_seen issuer_id issuer target_id target none s rb =
    if not target.is_invisible || target_id == issuer_id || issuer.operator
    then who_line issuer target (text "*") no_modes s rb
    else rb

unfoldable pub who_user : ℕ → Client → ℕ → Bool → State → ReplyBuffer → Option ReplyBuffer
unfolding who_seen
who_user issuer_id issuer target_id filter s rb = elim (client_of target_id s) [
  | none ↦ none
  | some target ↦ some (
      if (filter && not target.operator) || not (is_registered target.state)
      then rb
      else who_seen issuer_id issuer target_id target
          (shown_channel issuer_id issuer target_id target s.channels) s rb)
]

who_end : Text → ReplyBuffer → ReplyBuffer
who_end mask rb = line_about (text "315") mask (text "End of WHO list") rb

unfoldable pub who_each : ℕ → Client → List ℕ → Bool → State → ReplyBuffer → Option ReplyBuffer
who_each issuer_id issuer [] filter s rb = some rb
who_each issuer_id issuer (target ∷ targets) filter s rb =
    elim (who_user issuer_id issuer target filter s rb) [
      | none ↦ none
      | some told ↦ who_each issuer_id issuer targets filter s told
    ]

abbrev values : List (Text × ℕ) → List ℕ
values [] = []
values ((name, id) ∷ rest) = id ∷ values rest

-- What a loop wrote, with the last line.
unfoldable pub who_done : Text → Option ReplyBuffer → Option (ReplyBuffer × Bool)
unfolding who_end
who_done mask none = none
who_done mask (some told) = some (who_end mask told, true)

unfoldable pub cmd_who_all : ℕ → Bool → State → ReplyBuffer → Option (ReplyBuffer × Bool)
unfolding who_end who_done
cmd_who_all id filter s rb = elim (client_of id s) [
  | none ↦ none
  | some issuer ↦
      if issuer.operator
      then who_done (text "*") (who_each id issuer (values s.nicks) filter s (lr_batch_begin rb))
      else some (who_end (text "*") rb, false)
]

-- The members of a channel that the client can see.
unfoldable pub who_members :
    ℕ
    → Client
    → Bool
    → Bool
    → Text
    → State
    → List (ℕ × MemberModes)
    → ReplyBuffer
    → Option ReplyBuffer
who_members id issuer filter in_channel name s [] rb = some rb
who_members id issuer filter in_channel name s ((member, modes) ∷ rest) rb =
    elim (client_of member s) [
      | none ↦ none
      | some target ↦
          let hidden =
            not issuer.operator && target.is_invisible && not in_channel && not (member == id) in
          who_members id issuer filter in_channel name s rest (
            if (filter && not target.operator) || hidden
            then rb
            else who_line issuer target name modes s rb)
    ]

unfoldable pub cmd_who_channel : ℕ → Who → State → ReplyBuffer → Option (ReplyBuffer × Bool)
unfolding who_done who_end
cmd_who_channel id args s rb = elim (get same_name args.mask s.channels) [
  | none ↦ some (who_end args.mask rb, true)
  | some c ↦ elim (client_of id s) [
    | none ↦ none
    | some issuer ↦
        let in_channel = contains_key ◌==◌ id c.members in
        let begun = lr_batch_begin rb in
        if c.secret && not in_channel && not issuer.operator
        then some (who_end args.mask begun, true)
        else who_done args.mask
            (who_members id issuer args.operator in_channel args.mask s c.members begun)
  ]
]

-- WHO with a mask of channels shows every member: the filter is not asked.
unfoldable pub who_all_members :
    Client → Text → State → List (ℕ × MemberModes) → ReplyBuffer → Option ReplyBuffer
who_all_members issuer name s [] rb = some rb
who_all_members issuer name s ((member, modes) ∷ rest) rb = elim (client_of member s) [
  | none ↦ none
  | some target ↦ who_all_members issuer name s rest (who_line issuer target name modes s rb)
]

unfoldable pub who_channels :
    Client → Text → State → List (Text × Channel) → ReplyBuffer → Option ReplyBuffer
who_channels issuer mask s [] rb = some rb
who_channels issuer mask s ((name, c) ∷ rest) rb = elim (match_mask mask name) [
  | panicked ↦ none
  | out_of_fuel ↦ none
  | answer false ↦ who_channels issuer mask s rest rb
  | answer true ↦ elim (who_all_members issuer name s c.members rb) [
    | none ↦ none
    | some told ↦ who_channels issuer mask s rest told
  ]
]

unfoldable pub who_nicks :
    ℕ → Client → Text → Bool → State → List (Text × ℕ) → ReplyBuffer → Option ReplyBuffer
who_nicks id issuer mask filter s [] rb = some rb
who_nicks id issuer mask filter s ((nick, target) ∷ rest) rb = elim (match_mask mask nick) [
  | panicked ↦ none
  | out_of_fuel ↦ none
  | answer false ↦ who_nicks id issuer mask filter s rest rb
  | answer true ↦ elim (who_user id issuer target filter s rb) [
    | none ↦ none
    | some told ↦ who_nicks id issuer mask filter s rest told
  ]
]

-- `Mask::is_channel`; the first character of an empty mask is a panic.
is_channel : Text → Option Bool
is_channel [] = none
is_channel (c ∷ mask) = some (is_namespace c)

unfoldable pub cmd_who_mask : ℕ → Who → State → ReplyBuffer → Option (ReplyBuffer × Bool)
unfolding is_channel who_done who_end
cmd_who_mask id args s rb = elim (client_of id s) [
  | none ↦ none
  | some issuer ↦
      if issuer.operator
      then elim (is_channel args.mask) [
        | none ↦ none
        | some true ↦
            who_done args.mask (who_channels issuer args.mask s s.channels (lr_batch_begin rb))
        | some false ↦
            who_done args.mask
              (who_nicks id issuer args.mask args.operator s s.nicks (lr_batch_begin rb))
      ]
      else some (who_end args.mask rb, false)
]

unfoldable pub cmd_who_user : ℕ → Who → State → ReplyBuffer → Option (ReplyBuffer × Bool)
unfolding who_end who_done
cmd_who_user id args s rb = elim (get same_name args.mask s.nicks) [
  | none ↦ some (who_end args.mask rb, true)
  | some target ↦ elim (client_of id s) [
    | none ↦ none
    | some issuer ↦
        who_done args.mask (who_user id issuer target args.operator s (lr_batch_begin rb))
  ]
]

-- `util::time() - self.last_action_time`, on 64 bits.
unfoldable pub idle_time : ℕ → Client → ℕ
idle_time now c = (now + 2 ^ 64 - c.last_action_time) % 2 ^ 64

-- `cmd_whois` of a registered client.
unfoldable pub whois_lines : Env → Client → State → ReplyBuffer → ReplyBuffer
whois_lines env c s rb =
    let user =
      reply_with (text "311")
        (λ b.
          trailing_param c.real (param (text "*") (param c.host (param c.user (param c.nick b)))))
        (lr_batch_begin rb) in
    let server =
      reply_with (text "312") (λ b. trailing_param s.org_name (param s.domain (param c.nick b)))
        user in
    let idle =
      reply_with (text "317")
        (λ b. trailing_param (text "Seconds since last activity, registration time") (
          fmt_param (decimal c.signon_time)
            (fmt_param (decimal (idle_time env.now c)) (param c.nick b))))
        server in
    let away : ReplyBuffer = elim c.away_message [
      | none ↦ idle
      | some m ↦ line_about (text "301") c.nick m idle
    ] in
    line_about (text "318") c.nick (text "End of WHOIS list") away

no_such_nick : Text → ReplyBuffer → ReplyBuffer
no_such_nick nick rb = line_about (text "401") nick (text "I can't find this senpai...") rb

unfoldable pub cmd_whois : Env → Text → State → ReplyBuffer → Option (ReplyBuffer × Bool)
unfolding no_such_nick
cmd_whois env nick s rb = elim (get same_name nick s.nicks) [
  | none ↦ some (no_such_nick nick rb, false)
  | some id ↦ elim (client_of id s) [
    | none ↦ none
    | some c ↦ some (
        if is_registered c.state
        then (whois_lines env c s rb, true)
        else (no_such_nick nick rb, false))
  ]
]
