-- ===== src/Tests/Modes.antt =====
-- Channels, mode changes and connections at concrete inputs.
use mathlib.Core.List.{head?}
use ellidri.Mode
use ellidri.Mode.{ChannelChange, Result, channel_query, channel_item, user_item}
use ellidri.Mode.Laws.{Faithful, UserFaithful, channel_item-Faithful, user_item-UserFaithful}
use ellidri.Channel.{Channel, blank, add_member, operator_modes, can_talk, can_invite}
use ellidri.Channel.Members.{no_modes, symbol, all_symbols, can_change, is_at_least_halfop}
use ellidri.Channel.Laws.{symbol-all_symbols, add_member_lem, outsider}
use ellidri.Channel.Modes.{apply_mode_change, change_member, new, done}
use ellidri.Channel.Modes.Laws.{apply_mode_change_idle, apply_mode_change_members}
use ellidri.Channel.Modes.Rights.{apply_items, can_change-below_halfop}
use ellidri.Channel.Modes.Defaults.{IsFresh, new_total}
use ellidri.Channel.Notice.{start, note_all}
use ellidri.Channel.Notice.Laws.{channel_query-note_all}
use ellidri.Request.{Request}
use ellidri.Cap.{v302}
use ellidri.Client.Connection.{
  is_registered, connection_established, nick_given, user_given, cap_nick_given, registered,
  quitted,
}
use ellidri.Client.Connection.Registration.{
  after_all, is_negotiating, is_nick, is_user, is_quit, registered_needs_nick_and_user, registers,
  negotiation_forgets, starts_negotiation, registered_until_quit,
}
use ellidri.Prelude.{
  ◌==◌, if◌then◌else◌, is_empty, any, Text, text, keys, contains, ℕ, ◌≡◌, refl, ◌≢◌, true, false,
  not, ◌||◌, Option, none, some, List, [], ◌∷◌, ◌++◌, map,
}

documented_query :
    channel_query (text "-olX+kmv") (text "admin" ∷ text "secret_key" ∷ [])
    ≡ Mode.ok (Mode.change_operator false (text "admin"))
      ∷ Mode.ok (Mode.user_limit none)
      ∷ Mode.err (Mode.unknown b'X' false)
      ∷ Mode.ok (Mode.key true (text "secret_key"))
      ∷ Mode.ok (Mode.moderated true)
      ∷ Mode.err (Mode.missing_param b'v' true)
      ∷ []
unfolding channel_query
documented_query = refl

abbrev some_changes : List ChannelChange
some_changes =
    Mode.moderated true ∷ Mode.key false (text "*") ∷ Mode.change_ban false (text "b*") ∷ []

channel_query-note_all_example :
    let n = note_all start some_changes in
    channel_query n.applied_modes n.applied_modeparams ≡ map Mode.ok some_changes
unfolding Mode.param
channel_query-note_all_example =
    channel_query-note_all some_changes ((tt, tt), ((tt, refl), ((tt, refl), tt)))

channel_item-Faithful_example :
    Faithful true b'k' (text "beer" ∷ []) (channel_item true b'k' (text "beer" ∷ []))
channel_item-Faithful_example = channel_item-Faithful true b'k' (text "beer" ∷ [])

user_item-UserFaithful_example : UserFaithful true b'o' (user_item (true, b'o'))
user_item-UserFaithful_example = user_item-UserFaithful true b'o'

abbrev nick_of : ℕ → Option Text
nick_of id = some (text "ann")

-- A channel with one operator.
abbrev hall : Channel
hall = record blank { members = (7, operator_modes) ∷ [] }

unknown_member :
    (apply_mode_change nick_of 16 (Mode.change_voice true (text "bob")) hall).1 ≢ done true
unfolding apply_mode_change change_member
unknown_member = λ e. cc

apply_mode_change_idle_example :
    (apply_mode_change nick_of 16 (Mode.change_voice true (text "bob")) hall).0 ≡ hall
apply_mode_change_idle_example =
    apply_mode_change_idle nick_of 16 (Mode.change_voice true (text "bob")) hall unknown_member

apply_mode_change_members_example :
    let c' = (apply_mode_change nick_of 16 (Mode.change_voice true (text "ann")) hall).0 in
    (keys c'.members ≡ keys hall.members) × (c'.invites ≡ hall.invites) × (c'.topic ≡ hall.topic)
apply_mode_change_members_example =
    apply_mode_change_members nick_of 16 (Mode.change_voice true (text "ann")) hall

abbrev list_bans : List (Result ChannelChange)
list_bans = Mode.ok Mode.get_bans ∷ Mode.err (Mode.unknown b'X' true) ∷ []

bans_allowed : can_change no_modes list_bans ≡ true
unfolding can_change
bans_allowed = refl

below_halfop : is_at_least_halfop no_modes ≡ false
unfolding is_at_least_halfop
below_halfop = refl

can_change-below_halfop_example : apply_items nick_of 16 list_bans hall ≡ hall
can_change-below_halfop_example =
    can_change-below_halfop no_modes nick_of 16 list_bans hall below_halfop bans_allowed

new_total_example : (c : Channel) × (new (text "+nt") ≡ some c) × IsFresh c
new_total_example = new_total (text "+nt")

symbol-all_symbols_example : symbol operator_modes ≡ head? (all_symbols operator_modes)
symbol-all_symbols_example = symbol-all_symbols operator_modes

add_member_lem_example :
    let c' = add_member 8 hall in
    (c'.members
      ≡ hall.members ++ (8, if is_empty hall.members then operator_modes else no_modes) ∷ [])
    × (contains ◌==◌ 8 c'.invites ≡ false)
add_member_lem_example = add_member_lem 8 hall refl

outsider_example :
    (can_talk 8 hall ≡ not (hall.moderated || hall.no_msg_from_outside))
    × (can_invite 8 hall ≡ false)
outsider_example = outsider 8 hall refl

abbrev login : List Request
login = Request.nick (text "ann") ∷ Request.user (text "a") (text "Ann") ∷ []

login_registers : after_all connection_established login ≡ registered
unfolding after_all
login_registers = refl

registered_needs_nick_and_user_example : (any is_nick login ≡ true) × (any is_user login ≡ true)
registered_needs_nick_and_user_example = registered_needs_nick_and_user login login_registers

registers_example :
    after_all cap_nick_given
      (Request.nick (text "ann") ∷ Request.user (text "a") (text "Ann") ∷ Request.cap_end ∷ [])
    ≡ registered
registers_example = registers cap_nick_given (text "ann") (text "a") (text "Ann") (λ e. cc)

abbrev late_user : List Request
late_user = Request.user (text "a") (text "Ann") ∷ Request.cap_end ∷ []

plain_start : is_negotiating nick_given ≡ false
unfolding is_negotiating
plain_start = refl

not_yet : is_registered nick_given ≡ false
unfolding is_registered
not_yet = refl

negotiation_forgets_example :
    after_all nick_given (Request.cap_ls v302 ∷ late_user)
    ≡ after_all connection_established (Request.cap_ls v302 ∷ late_user)
unfolding starts_negotiation
negotiation_forgets_example =
    negotiation_forgets nick_given (Request.cap_ls v302) late_user refl plain_start not_yet
      (λ e. cc)

nick_was_lost : after_all nick_given (Request.cap_ls v302 ∷ late_user) ≡ user_given
unfolding after_all
nick_was_lost = refl

registered_until_quit_example :
    (any is_quit (Request.ping [] ∷ []) ≡ false
      → after_all registered (Request.ping [] ∷ []) ≡ registered)
    × (after_all quitted (Request.ping [] ∷ []) ≡ quitted)
registered_until_quit_example = registered_until_quit (Request.ping [] ∷ [])
