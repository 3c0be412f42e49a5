-- ===== src/State/Served/Profile.antt =====
-- The handlers of AWAY, MODE of a user and USER keep the client's nickname and its connection's state:
-- src/state/v1.rs.
use ellidri.Prelude.{
  Bool-cases, Option-cases, is_empty, Text, text, len, slice_to, ℕ, min, ◌≡◌, refl, sym, ap, ◌∙◌,
  ◌⊎◌, inl, inr, Bool, false, not, ◌&&◌, Option, none, some, List, [], ◌∷◌, arith,
}
use mathlib.Core.Path.{subst}
use ellidri.Mode
use ellidri.Mode.{UserChange}
use ellidri.Buffers.{ReplyBuffer, reply_with, trailing_param}
use ellidri.Client.{Client}
use ellidri.Client
use ellidri.State.{World, client_of, send_notification, remove_client}
use ellidri.State.Session.{with_client, introduce, cmd_user}
use ellidri.State.Account.{set_away, cmd_away, user_changes, cmd_mode_user_set, cut_to}
use ellidri.State.Served.{IsServed, replaced, remove_client-IsServed}
use ellidri.State.Served.Clients.{IsLike, IsEdited, IsEdited-IsServed}

set_away-state :
    (id : ℕ) (message : Option Text) (c : Client) (w : World)
    → (set_away id message c w).0.state ≡ replaced id (record c { away_message = message }) w.state
unfolding set_away with_client send_notification
set_away-state id message c w = refl

cmd_away-state :
    (id : ℕ) (reason message : Option Text) (w : World) (c : Client) (r : World × Bool)
    → client_of id w.state ≡ some c
    → cut_to w.state.awaylen reason ≡ some message
    → cmd_away id reason w ≡ some r
    → (r.0.state ≡ w.state) ⊎ (r ≡ set_away id message c w)
unfolding cmd_away
cmd_away-state id reason message w c r at cut h = ground (arith, at, cut)

cmd_away_uncut :
    (id : ℕ) (reason : Option Text) (w : World) (c : Client) (r : World × Bool)
    → client_of id w.state ≡ some c
    → cut_to w.state.awaylen reason ≡ none
    → cmd_away id reason w ≡ some r
    → r.0.state ≡ w.state
unfolding cmd_away
cmd_away_uncut id reason w c r at cut h = ground (arith, at, cut)

pub cmd_away-IsEdited :
    (id : ℕ) (reason : Option Text) (w : World) (c : Client) (r : World × Bool)
    → client_of id w.state ≡ some c
    → cmd_away id reason w ≡ some r
    → IsEdited id c w.state r.0.state
cmd_away-IsEdited id reason w c r at h = elim (Option-cases (cut_to w.state.awaylen reason)) [
  | inl cut ↦ inl (cmd_away_uncut id reason w c r at cut h)
  | inr (message, cut) ↦ elim (cmd_away-state id reason message w c r at cut h) [
    | inl e ↦ inl e
    | inr e ↦ inr (
      record c { away_message = message },
      ap (λ o. o.0.state) e ∙ set_away-state id message c w,
      (refl, refl, λ o. o),
    )
  ]
]

user_changes-IsLike :
    (is : List (Mode.Result UserChange)) (c : Client) (rb : ReplyBuffer) (applied : Text)
    → IsLike c (user_changes is c rb applied).0
unfolding user_changes Client.apply_mode_change
user_changes-IsLike [] c rb applied = (refl, refl, λ o. o)
user_changes-IsLike (Mode.ok (Mode.invisible value) ∷ is) c rb applied =
    user_changes-IsLike is (record c { is_invisible = value }) rb _
user_changes-IsLike (Mode.ok Mode.de_operator ∷ is) c rb applied =
    let (named, same, op) = user_changes-IsLike is (record c { operator = false }) rb _ in
    (named, same, λ o. ground (arith, op o))
user_changes-IsLike (Mode.err (Mode.unknown mode v) ∷ is) c rb applied =
    user_changes-IsLike is c _ applied
user_changes-IsLike (Mode.err _ ∷ is) c rb applied = user_changes-IsLike is c rb applied

cmd_mode_user_set-state :
    (id : ℕ) (nick modes : Text) (w : World) (c : Client) (r : World × Bool)
    → client_of id w.state ≡ some c
    → cmd_mode_user_set id nick modes w ≡ some r
    → (r.0.state ≡ w.state)
      ⊎ (r.0.state ≡ replaced id (user_changes (Mode.user_query modes) c w.rb []).0 w.state)
unfolding cmd_mode_user_set with_client
cmd_mode_user_set-state id nick modes w c r at h = ground (arith, at)

pub cmd_mode_user_set-IsEdited :
    (id : ℕ) (nick modes : Text) (w : World) (c : Client) (r : World × Bool)
    → client_of id w.state ≡ some c
    → cmd_mode_user_set id nick modes w ≡ some r
    → IsEdited id c w.state r.0.state
cmd_mode_user_set-IsEdited id nick modes w c r at h =
    elim (cmd_mode_user_set-state id nick modes w c r at h) [
      | inl e ↦ inl e
      | inr e ↦ inr (_, e, user_changes-IsLike (Mode.user_query modes) c w.rb [])
    ]

introduce-state :
    (id : ℕ) (username realname user real : Text) (w : World) (c : Client) (r : World × Bool)
    → slice_to username (min (len username) w.state.userlen) ≡ some user
    → slice_to realname (min (len realname) w.state.namelen) ≡ some real
    → introduce id username realname c w ≡ some r
    → r.0.state ≡ replaced id (Client.set_real real (Client.set_user user c)) w.state
unfolding introduce with_client
introduce-state id username realname user real w c r cut short h = ground (arith, cut, short)

pub introduce-IsEdited :
    (id : ℕ) (username realname : Text) (w : World) (c : Client) (r : World × Bool)
    → introduce id username realname c w ≡ some r
    → IsEdited id c w.state r.0.state
unfolding introduce Client.set_real Client.set_user Client.update_full_name
introduce-IsEdited id username realname w c r h =
    elim (Option-cases (slice_to username (min (len username) w.state.userlen))) [
      | inl cut ↦ ground (arith, cut)
      | inr (user, cut) ↦
          elim (Option-cases (slice_to realname (min (len realname) w.state.namelen))) [
            | inl short ↦ ground (arith, cut, short)
            | inr (real, short) ↦ inr (
              Client.set_real real (Client.set_user user c),
              introduce-state id username realname user real w c r cut short h,
              (refl, refl, λ o. o),
            )
          ]
    ]

pub cmd_user-state :
    (id : ℕ) (username realname : Text) (w : World) (c : Client) (r : World × Bool)
    → client_of id w.state ≡ some c
    → cmd_user id username realname w ≡ some r
    → ((rb : ReplyBuffer) × (r.0
          ≡ remove_client id (text "You're not senpai!") [] (record w { rb = rb })))
      ⊎ (introduce id username realname c w ≡ some r)
unfolding cmd_user
cmd_user-state id username realname w c r at h =
    elim (Bool-cases (not (is_empty w.state.password) && not c.has_given_password)) [
      | inl e ↦ inl (
        reply_with (text "464") (trailing_param (text "Nope! Wrong password")) w.rb,
        ground (arith, at, e),
      )
      | inr e ↦ inr (ground (arith, at, e))
    ]

pub cmd_user-IsServed :
    (id : ℕ) (username realname : Text) (w : World) (c : Client) (r : World × Bool)
    → client_of id w.state ≡ some c
    → cmd_user id username realname w ≡ some r
    → IsServed w.state
    → IsServed r.0.state
cmd_user-IsServed id username realname w c r at h served =
    elim (cmd_user-state id username realname w c r at h) [
      | inl (rb, e) ↦
          subst (λ v. IsServed v.state) (sym e)
            (remove_client-IsServed id (text "You're not senpai!") [] (record w { rb = rb }) served)
      | inr e ↦
          IsEdited-IsServed id c w.state r.0.state at
            (introduce-IsEdited id username realname w c r e) served
    ]
