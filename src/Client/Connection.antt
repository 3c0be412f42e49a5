-- ===== src/Client/Connection.antt =====
-- The state machine of a connection: `ConnectionState` of src/client.rs. `Err(())` is `none`.
pub mod Registration
use ellidri.Request
use ellidri.Request.{Request}
use ellidri.Prelude.{
  ltb, leb, ◌==◌, if◌then◌else◌, ==_iff, ==_self, Bool-cases, Option-cases, &&-true, length,
  is_empty, get_or, take, drop, any, all, keep, find, length-append, any-append, all-append, Text,
  text, len_utf8, len, str_eq, slice_from, slice_to, split, split_once, is_whitespace, trim_start,
  trim_end, trim, starts_with, str_eq_iff, str_eq_self, ℕ, zero, suc, ◌+◌, ◌-◌, ◌*◌, ◌/◌, ◌%◌, ◌^◌,
  ◌≤◌, ◌<◌, min, String, ◌≡◌, refl, sym, ap, ap₂, ◌∙◌, ◌≢◌, ◌↔◌, ◌⊎◌, inl, inr, Bool, true, false,
  not, ◌&&◌, ◌||◌, Option, none, some, List, [], ◌∷◌, ◌++◌, map, append-nil, append_assoc, arith,
}

pub data ConnectionState : Type 0 where
  connection_established nick_given user_given : ConnectionState
  cap_given cap_nick_given cap_user_given cap_negotiation : ConnectionState
  registered quitted : ConnectionState

-- `ConnectionState::apply`; `quitted` is the variant `Quit`.
unfoldable pub apply : ConnectionState → Request → Option ConnectionState
apply connection_established (Request.cap_ls v) = some cap_given
apply connection_established (Request.cap_req d) = some cap_given
apply connection_established (Request.authenticate p) = some connection_established
apply connection_established Request.cap_end = some connection_established
apply connection_established (Request.pass p) = some connection_established
apply connection_established (Request.ping p) = some connection_established
apply connection_established (Request.nick n) = some nick_given
apply connection_established (Request.user u r) = some user_given
apply connection_established (Request.quit r) = some quitted
apply connection_established _ = none
apply nick_given (Request.cap_ls v) = some cap_given
apply nick_given (Request.cap_req d) = some cap_given
apply nick_given (Request.authenticate p) = some nick_given
apply nick_given Request.cap_end = some nick_given
apply nick_given (Request.nick n) = some nick_given
apply nick_given (Request.pass p) = some nick_given
apply nick_given (Request.ping p) = some nick_given
apply nick_given (Request.user u r) = some registered
apply nick_given (Request.quit r) = some quitted
apply nick_given _ = none
apply user_given (Request.cap_ls v) = some cap_given
apply user_given (Request.cap_req d) = some cap_given
apply user_given (Request.authenticate p) = some user_given
apply user_given Request.cap_end = some user_given
apply user_given (Request.pass p) = some user_given
apply user_given (Request.ping p) = some user_given
apply user_given (Request.nick n) = some registered
apply user_given (Request.quit r) = some quitted
apply user_given _ = none
apply cap_given Request.cap_end = some connection_established
apply cap_given (Request.authenticate p) = some cap_given
apply cap_given (Request.cap_ls v) = some cap_given
apply cap_given (Request.cap_req d) = some cap_given
apply cap_given (Request.pass p) = some cap_given
apply cap_given (Request.ping p) = some cap_given
apply cap_given (Request.nick n) = some cap_nick_given
apply cap_given (Request.user u r) = some cap_user_given
apply cap_given (Request.quit r) = some quitted
apply cap_given _ = none
apply cap_nick_given Request.cap_end = some nick_given
apply cap_nick_given (Request.authenticate p) = some cap_nick_given
apply cap_nick_given (Request.cap_ls v) = some cap_nick_given
apply cap_nick_given (Request.cap_req d) = some cap_nick_given
apply cap_nick_given (Request.nick n) = some cap_nick_given
apply cap_nick_given (Request.pass p) = some cap_nick_given
apply cap_nick_given (Request.ping p) = some cap_nick_given
apply cap_nick_given (Request.user u r) = some cap_negotiation
apply cap_nick_given (Request.quit r) = some quitted
apply cap_nick_given _ = none
apply cap_user_given Request.cap_end = some user_given
apply cap_user_given (Request.authenticate p) = some cap_user_given
apply cap_user_given (Request.cap_ls v) = some cap_user_given
apply cap_user_given (Request.cap_req d) = some cap_user_given
apply cap_user_given (Request.pass p) = some cap_user_given
apply cap_user_given (Request.ping p) = some cap_user_given
apply cap_user_given (Request.nick n) = some cap_negotiation
apply cap_user_given (Request.quit r) = some quitted
apply cap_user_given _ = none
apply cap_negotiation Request.cap_end = some registered
apply cap_negotiation (Request.authenticate p) = some cap_negotiation
apply cap_negotiation (Request.cap_ls v) = some cap_negotiation
apply cap_negotiation (Request.cap_req d) = some cap_negotiation
apply cap_negotiation (Request.nick n) = some cap_negotiation
apply cap_negotiation (Request.pass p) = some cap_negotiation
apply cap_negotiation (Request.ping p) = some cap_negotiation
apply cap_negotiation (Request.quit r) = some quitted
apply cap_negotiation _ = none
apply registered (Request.pass p) = none
apply registered (Request.user u r) = none
apply registered (Request.quit r) = some quitted
apply registered _ = some registered
apply quitted _ = none

unfoldable pub is_registered : ConnectionState → Bool
is_registered registered = true
is_registered _ = false
