-- ===== src/Client/Connection/Registration.antt =====
-- How a connection registers: the transitions of src/client.rs, over sequences of requests.
use ellidri.Request.{Request}
use ellidri.Client.Connection.{
  ConnectionState, connection_established, nick_given, user_given, cap_given, cap_nick_given,
  cap_user_given, cap_negotiation, registered, apply, is_registered, quitted,
}
use ellidri.Prelude.{
  any, Text, ◌≡◌, refl, ◌≢◌, Bool, true, false, ◌||◌, none, some, List, [], ◌∷◌, arith,
}

-- A request that is refused leaves the state alone, as `handle_message` does.
after : ConnectionState → Request → ConnectionState
unfolding apply
after s r = elim (apply s r) [ none ↦ s | some t ↦ t ]

unfoldable pub after_all : ConnectionState → List Request → ConnectionState
unfolding after
after_all s [] = s
after_all s (r ∷ rs) = after_all (after s r) rs

-- The connection's client has given a nickname, or a user name, that still counts.
has_nick : ConnectionState → Bool
has_nick nick_given = true
has_nick cap_nick_given = true
has_nick cap_negotiation = true
has_nick registered = true
has_nick _ = false

has_user : ConnectionState → Bool
has_user user_given = true
has_user cap_user_given = true
has_user cap_negotiation = true
has_user registered = true
has_user _ = false

unfoldable pub is_negotiating : ConnectionState → Bool
is_negotiating cap_given = true
is_negotiating cap_nick_given = true
is_negotiating cap_user_given = true
is_negotiating cap_negotiation = true
is_negotiating _ = false

unfoldable pub is_nick : Request → Bool
is_nick (Request.nick n) = true
is_nick _ = false

unfoldable pub is_user : Request → Bool
is_user (Request.user u r) = true
is_user _ = false

has_nick-after :
    (s : ConnectionState) (r : Request)
    → has_nick (after s r) ≡ true
    → (has_nick s || is_nick r) ≡ true
unfolding after has_nick is_nick
has_nick-after s (Request.nick n) h = ground arith
has_nick-after s _ h = ground arith

has_user-after :
    (s : ConnectionState) (r : Request)
    → has_user (after s r) ≡ true
    → (has_user s || is_user r) ≡ true
unfolding after has_user is_user
has_user-after s (Request.user u r) h = ground arith
has_user-after s _ h = ground arith

needs :
    (s : ConnectionState) (rs : List Request)
    → is_registered (after_all s rs) ≡ true
    → ((has_nick s || any is_nick rs) ≡ true) × ((has_user s || any is_user rs) ≡ true)
unfolding after_all
needs s [] h = unfold is_registered has_nick has_user in ground arith
needs s (r ∷ rs) h = ground (arith, needs (after s r) rs h, has_nick-after s r, has_user-after s r)

-- A connection is registered only after a NICK and a USER request.
pub registered_needs_nick_and_user :
    (rs : List Request)
    → after_all connection_established rs ≡ registered
    → (any is_nick rs ≡ true) × (any is_user rs ≡ true)
unfolding is_registered has_nick has_user
registered_needs_nick_and_user rs h = needs connection_established rs (rw h refl)

-- Whatever the progress of a connection that has not quit, NICK, USER and CAP END register it.
pub registers :
    (s : ConnectionState) (n u r : Text)
    → s ≢ quitted
    → after_all s (Request.nick n ∷ Request.user u r ∷ Request.cap_end ∷ []) ≡ registered
unfolding after_all
registers s n u r h = ground arith

-- The requests that start to negotiate capabilities.
unfoldable pub starts_negotiation : Request → Bool
starts_negotiation (Request.cap_ls v) = true
starts_negotiation (Request.cap_req d) = true
starts_negotiation _ = false

-- A connection that is not negotiating capabilities, not registered and has not quit forgets, when
-- it starts to negotiate with CAP LS or CAP REQ, that it has been given a nickname or a user name.
pub negotiation_forgets :
    (s : ConnectionState) (r : Request) (rs : List Request)
    → starts_negotiation r ≡ true
    → is_negotiating s ≡ false
    → is_registered s ≡ false
    → s ≢ quitted
    → after_all s (r ∷ rs) ≡ after_all connection_established (r ∷ rs)
unfolding after_all is_negotiating is_registered starts_negotiation
negotiation_forgets s (Request.cap_ls v) rs c h k q = ground arith
negotiation_forgets s (Request.cap_req d) rs c h k q = ground arith
negotiation_forgets s _ rs c h k q = cc

unfoldable pub is_quit : Request → Bool
is_quit (Request.quit r) = true
is_quit _ = false

after-registered : (r : Request) → is_quit r ≡ false → after registered r ≡ registered
unfolding after is_quit
after-registered (Request.quit r) h = cc
after-registered _ h = refl

-- A registered connection stays so under every sequence of requests without a QUIT, and one that has
-- quit never changes again.
pub registered_until_quit :
    (rs : List Request)
    → (any is_quit rs ≡ false → after_all registered rs ≡ registered)
      × (after_all quitted rs ≡ quitted)
unfolding after_all
registered_until_quit [] = (λ h. refl, refl)
registered_until_quit (r ∷ rs) = (
  λ h. ground (arith, after-registered r, (registered_until_quit rs).0),
  (registered_until_quit rs).1,
)
