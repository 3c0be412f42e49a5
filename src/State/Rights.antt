-- ===== src/State/Rights.antt =====
-- What the handlers of KICK, TOPIC and USER refuse: src/state/v1.rs.
use ellidri.Prelude.{
  ◌==◌, Option-cases, is_empty, Text, text, get-delete, ==-IsSame, get, ℕ, ◌≡◌, refl, sym, ap, ◌∙◌,
  inl, inr, Bool, true, false, Option, none, some, List, [], arith,
}
use ellidri.Channel.Members.{MemberModes}
use ellidri.Channel.{Channel}
use ellidri.Client.{Client}
use ellidri.Buffers.{reply_with, trailing_param, param}
use ellidri.State.{State, World, same_name, client_of, remove_client}
use ellidri.State.Owners.{without, remove_client-state}
use ellidri.State.Rooms.{not_on_channel, about, find_member, cmd_topic_set}
use ellidri.State.Guests.{cmd_kick}
use ellidri.State.Session.{cmd_user}

-- The client is an operator of the channel with a name.
abbrev pub is_operator_of : ℕ → Text → State → Bool
is_operator_of id name s = elim (get same_name name s.channels) [
  | none ↦ false
  | some c ↦ elim (get ◌==◌ id c.members) [ none ↦ false | some m ↦ m.operator ]
]

-- The numeric reply that a request about a channel is refused with: the channel is missing, the
-- client is no member of it, or no operator.
abbrev pub refusal : ℕ → Text → State → Text × Text
refusal id name s = elim (get same_name name s.channels) [
  | none ↦ (text "403", text "I can't find this channel...")
  | some c ↦ elim (get ◌==◌ id c.members) [
    | none ↦ (text "442", not_on_channel)
    | some m ↦ (text "482", text "You need to ask a channel operator")
  ]
]

-- A result that is an error of the handler: the client gets that numeric about the channel, and no
-- more; the state and the queues are as they were.
pub record IsRefused (id : ℕ) (name : Text) (w : World) (r : Option (World × Bool)) : Type 0 where
  pub told : World
  pub result : r ≡ some (told, false)
  pub reply :
      told.rb
      ≡ reply_with
          (refusal id name w.state).0
          (λ b. trailing_param (refusal id name w.state).1 (param name b))
          w.rb
  pub same_state : told.state ≡ w.state
  pub same_sent : told.sent ≡ w.sent

about-refusal :
    (name : Text) (w : World) (r s : Text × Text)
    → s ≡ r
    → (about r.0 name r.1 w).rb ≡ reply_with s.0 (λ b. trailing_param s.1 (param name b)) w.rb
unfolding about
about-refusal name w r s e =
    ap (λ q. reply_with q.0 (λ b. trailing_param q.1 (param name b)) w.rb) (sym e)

member_rank :
    (id : ℕ) (name : Text) (s : State) (c : Channel) (m : MemberModes)
    → get same_name name s.channels ≡ some c
    → get ◌==◌ id c.members ≡ some m
    → m.operator ≡ is_operator_of id name s
member_rank id name s c m e f = ground (arith, e, f)

same_restriction : (c d : Channel) → some c ≡ some d → c.topic_restricted ≡ d.topic_restricted
same_restriction c d h = ground (arith, h)

-- KICK by who is no operator of the channel, or no member, or of a channel that does not exist, is
-- an error: the client is told so with 482, 442 or 403 about the channel, in this order of the cases,
-- nothing changes and nothing is sent to anyone else.
pub cmd_kick_needs_operator :
    (id : ℕ) (name : Text) (who : List Text) (reason : Option Text) (w : World)
    → is_operator_of id name w.state ≡ false
    → IsRefused id name w (cmd_kick id name who reason w)
unfolding cmd_kick find_member about
cmd_kick_needs_operator id name who reason w h =
    elim (Option-cases (get same_name name w.state.channels)) [
      | inl e ↦ record {
        told = about (text "403") name (text "I can't find this channel...") w;
        result = ground (arith, e);
        reply =
            about-refusal name w (text "403", text "I can't find this channel...") _
              (ground (arith, e));
        same_state = refl;
        same_sent = refl;
      }
      | inr (d, e) ↦ elim (Option-cases (get ◌==◌ id d.members)) [
        | inl f ↦ record {
          told = about (text "442") name not_on_channel w;
          result = ground (arith, e, f);
          reply = about-refusal name w (text "442", not_on_channel) _ (ground (arith, e, f));
          same_state = refl;
          same_sent = refl;
        }
        | inr (m, f) ↦ record {
          told = about (text "482") name (text "You need to ask a channel operator") w;
          result = ground (arith, e, f, member_rank id name w.state d m e f ∙ h);
          reply =
              about-refusal name w (text "482", text "You need to ask a channel operator") _
                (ground (arith, e, f));
          same_state = refl;
          same_sent = refl;
        }
      ]
    ]

-- In a channel whose topic is restricted, TOPIC by who is no operator of it is an error:
-- the client is told so with 482, or 442 where it is no member, about the channel, nothing changes and
-- nothing is sent to anyone else.
pub cmd_topic_set_needs_operator :
    (now id : ℕ) (name topic : Text) (w : World) (c : Channel)
    → get same_name name w.state.channels ≡ some c
    → c.topic_restricted ≡ true
    → is_operator_of id name w.state ≡ false
    → IsRefused id name w (cmd_topic_set now id name topic w)
unfolding cmd_topic_set find_member about
cmd_topic_set_needs_operator now id name topic w c at restricted h =
    elim (Option-cases (get same_name name w.state.channels)) [
      | inl e ↦ record {
        told = about (text "403") name (text "I can't find this channel...") w;
        result = ground (arith, e);
        reply =
            about-refusal name w (text "403", text "I can't find this channel...") _
              (ground (arith, e));
        same_state = refl;
        same_sent = refl;
      }
      | inr (d, e) ↦ elim (Option-cases (get ◌==◌ id d.members)) [
        | inl f ↦ record {
          told = about (text "442") name not_on_channel w;
          result = ground (arith, e, f);
          reply = about-refusal name w (text "442", not_on_channel) _ (ground (arith, e, f));
          same_state = refl;
          same_sent = refl;
        }
        | inr (m, f) ↦ record {
          told = about (text "482") name (text "You need to ask a channel operator") w;
          result = ground (
            arith,
            e,
            f,
            member_rank id name w.state d m e f ∙ h,
            same_restriction d c (sym e ∙ at) ∙ restricted,
          );
          reply =
              about-refusal name w (text "482", text "You need to ask a channel operator") _
                (ground (arith, e, f));
          same_state = refl;
          same_sent = refl;
        }
      ]
    ]

-- Where the server has a password that the client has not given, USER is an error and removes the
-- client.
pub cmd_user_needs_password :
    (id : ℕ) (username realname : Text) (w : World) (client : Client)
    → client_of id w.state ≡ some client
    → is_empty w.state.password ≡ false
    → client.has_given_password ≡ false
    → (r : World × Bool) × (cmd_user id username realname w ≡ some r)
      × (r.1 ≡ false)
      × (client_of id r.0.state ≡ none)
unfolding cmd_user without
cmd_user_needs_password id username realname w client found set not_given =
    let refusing = record w {
      rb = reply_with (text "464") (trailing_param (text "Nope! Wrong password")) w.rb;
    } in
    let out = remove_client id (text "You're not senpai!") [] refusing in
    (
      (out, false),
      ground (arith, found, set, not_given),
      refl,
      elim (remove_client-state id (text "You're not senpai!") [] refusing) [
        | inl (e, same) ↦ ap (λ s. client_of id s) same ∙ e
        | inr (c, e, same) ↦
            ap (λ s. client_of id s) same
            ∙ ground (arith, get-delete ==-IsSame id id w.state.clients)
      ],
    )
