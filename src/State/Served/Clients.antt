-- ===== src/State/Served/Clients.antt =====
-- The handlers that change one client keep its nickname and its connection's state: AWAY, OPER, MODE of
-- a user, CAP, SETNAME, USER, PASS of src/state/v1.rs and src/state/v3.rs.
use ellidri.Prelude.{
  if◌then◌else◌, any, Text, str_eq, ℕ, ◌≡◌, refl, sym, ap, ◌∙◌, ◌⊎◌, inl, inr, Bool, true, ◌&&◌,
  some, arith,
}
use mathlib.Core.Path.{subst}
use ellidri.Cap
use ellidri.Cap.{Version, version_lt, update}
use ellidri.Client.{Client}
use ellidri.Client
use ellidri.Client.Connection.{is_registered}
use ellidri.State.{State, World, client_of, send_notification}
use ellidri.State.Session.{with_client, cmd_pass}
use ellidri.State.Account.{cmd_oper, cmd_cap_list, cmd_cap_ls, cmd_cap_req, cmd_setname}
use ellidri.State.Entry.{touch}
use ellidri.State.Served.{IsServed, replaced, replaced-IsServed}

-- The client with its nickname and its connection's state, and no operator unless it was one.
abbrev pub IsLike : Client → Client → Type 0
IsLike c d = (d.nick ≡ c.nick) × (d.state ≡ c.state) × (d.operator ≡ true → c.operator ≡ true)

-- What a handler may make of the state: itself, or a change of one client that keeps its nickname and
-- its connection's state.
abbrev pub IsEdited : ℕ → Client → State → State → Type 0
IsEdited id c s t = (t ≡ s) ⊎ ((d : Client) × (t ≡ replaced id d s) × IsLike c d)

pub IsEdited-IsServed :
    (id : ℕ) (c : Client) (s t : State)
    → client_of id s ≡ some c
    → IsEdited id c s t
    → IsServed s
    → IsServed t
IsEdited-IsServed id c s t at (inl e) served = subst IsServed (sym e) served
IsEdited-IsServed id c s t at (inr (d, e, (named, same, op))) served =
    subst IsServed (sym e)
      (replaced-IsServed s id c d at named (λ r. ap is_registered same ∙ r) served)

-- OPER with a name and a password that the configuration does not have changes nothing.
pub cmd_oper-state :
    (id : ℕ) (name password : Text) (w : World) (c : Client) (r : World × Bool)
    → client_of id w.state ≡ some c
    → cmd_oper id name password w ≡ some r
    → (r.0.state ≡ w.state)
      ⊎ ((any (λ o. str_eq o.0 name && str_eq o.1 password) w.state.opers ≡ true)
          × (r.0.state ≡ replaced id (record c { operator = true }) w.state))
unfolding cmd_oper with_client
cmd_oper-state id name password w c r at h = ground (arith, at)

pub cmd_oper-IsServed :
    (id : ℕ) (name password : Text) (w : World) (c : Client) (r : World × Bool)
    → client_of id w.state ≡ some c
    → cmd_oper id name password w ≡ some r
    → IsServed w.state
    → IsServed r.0.state
cmd_oper-IsServed id name password w c r at h served =
    elim (cmd_oper-state id name password w c r at h) [
      | inl e ↦ subst IsServed (sym e) served
      | inr (known, e) ↦
          subst IsServed (sym e)
            (replaced-IsServed w.state id c (record c { operator = true }) at refl (λ r. r) served)
    ]

cmd_pass-state :
    (id : ℕ) (password : Text) (w : World) (c : Client) (r : World × Bool)
    → client_of id w.state ≡ some c
    → cmd_pass id password w ≡ some r
    → (r.0.state ≡ w.state)
      ⊎ (r.0.state ≡ replaced id (record c { has_given_password = true }) w.state)
unfolding cmd_pass with_client
cmd_pass-state id password w c r at h = ground (arith, at)

pub cmd_pass-IsEdited :
    (id : ℕ) (password : Text) (w : World) (c : Client) (r : World × Bool)
    → client_of id w.state ≡ some c
    → cmd_pass id password w ≡ some r
    → IsEdited id c w.state r.0.state
cmd_pass-IsEdited id password w c r at h = elim (cmd_pass-state id password w c r at h) [
  | inl e ↦ inl e
  | inr e ↦ inr (record c { has_given_password = true }, e, (refl, refl, λ o. o))
]

touch-state :
    (now id : ℕ) (w : World) (c : Client) (v : World)
    → client_of id w.state ≡ some c
    → touch now id w ≡ some v
    → v.state ≡ replaced id (Client.update_idle_time now c) w.state
unfolding touch with_client
touch-state now id w c v at h = ground (arith, at)

pub touch-IsEdited :
    (now id : ℕ) (w : World) (c : Client) (v : World)
    → client_of id w.state ≡ some c
    → touch now id w ≡ some v
    → IsEdited id c w.state v.state
unfolding Client.update_idle_time
touch-IsEdited now id w c v at h =
    inr (Client.update_idle_time now c, touch-state now id w c v at h, (refl, refl, λ o. o))

cmd_cap_list-state :
    (id : ℕ) (w : World) (c : Client) (r : World × Bool)
    → client_of id w.state ≡ some c
    → cmd_cap_list id w ≡ some r
    → r.0.state ≡ w.state
unfolding cmd_cap_list
cmd_cap_list-state id w c r at h = ground (arith, at)

pub cmd_cap_list-IsEdited :
    (id : ℕ) (w : World) (c : Client) (r : World × Bool)
    → client_of id w.state ≡ some c
    → cmd_cap_list id w ≡ some r
    → IsEdited id c w.state r.0.state
cmd_cap_list-IsEdited id w c r at h = inl (cmd_cap_list-state id w c r at h)

cmd_cap_ls-state :
    (id : ℕ) (version : Version) (w : World) (c : Client) (r : World × Bool)
    → client_of id w.state ≡ some c
    → cmd_cap_ls id version w ≡ some r
    → r.0.state
      ≡ replaced id
          (record c {
            cap_version = if version_lt c.cap_version version then version else c.cap_version;
          })
          w.state
unfolding cmd_cap_ls with_client
cmd_cap_ls-state id version w c r at h = ground (arith, at)

pub cmd_cap_ls-IsEdited :
    (id : ℕ) (version : Version) (w : World) (c : Client) (r : World × Bool)
    → client_of id w.state ≡ some c
    → cmd_cap_ls id version w ≡ some r
    → IsEdited id c w.state r.0.state
cmd_cap_ls-IsEdited id version w c r at h =
    inr (_, cmd_cap_ls-state id version w c r at h, (refl, refl, λ o. o))

cmd_cap_req-state :
    (id : ℕ) (req : Cap.Diff) (w : World) (c : Client) (r : World × Bool)
    → client_of id w.state ≡ some c
    → cmd_cap_req id req w ≡ some r
    → r.0.state ≡ replaced id (record c { cap_enabled = update c.cap_enabled req }) w.state
unfolding cmd_cap_req with_client
cmd_cap_req-state id req w c r at h = ground (arith, at)

pub cmd_cap_req-IsEdited :
    (id : ℕ) (req : Cap.Diff) (w : World) (c : Client) (r : World × Bool)
    → client_of id w.state ≡ some c
    → cmd_cap_req id req w ≡ some r
    → IsEdited id c w.state r.0.state
cmd_cap_req-IsEdited id req w c r at h =
    inr (_, cmd_cap_req-state id req w c r at h, (refl, refl, λ o. o))

cmd_setname-state :
    (id : ℕ) (realname : Text) (w : World) (c : Client) (r : World × Bool)
    → client_of id w.state ≡ some c
    → cmd_setname id realname w ≡ some r
    → (r.0.state ≡ w.state) ⊎ (r.0.state ≡ replaced id (Client.set_real realname c) w.state)
unfolding cmd_setname with_client send_notification
cmd_setname-state id realname w c r at h = ground (arith, at)

pub cmd_setname-IsEdited :
    (id : ℕ) (realname : Text) (w : World) (c : Client) (r : World × Bool)
    → client_of id w.state ≡ some c
    → cmd_setname id realname w ≡ some r
    → IsEdited id c w.state r.0.state
unfolding Client.set_real
cmd_setname-IsEdited id realname w c r at h = elim (cmd_setname-state id realname w c r at h) [
  | inl e ↦ inl e
  | inr e ↦ inr (Client.set_real realname c, e, (refl, refl, λ o. o))
]
