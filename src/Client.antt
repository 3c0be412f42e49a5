-- ===== src/Client.antt =====
-- Clients: src/client.rs. The message queue of a client is the list of what was sent to it, which
-- State.antt keeps; the clock is an argument, `now`.
pub mod Connection
use ellidri.Cap
use ellidri.Cap.{Version, v300, Capabilities, has_message_tags}
use ellidri.Mode.{UserChange, invisible, de_operator}
use ellidri.Request.{Request}
use ellidri.Client.Connection.{ConnectionState, connection_established, apply, is_registered}
use ellidri.Prelude.{
  ltb, leb, ◌==◌, if◌then◌else◌, ==_iff, ==_self, Bool-cases, Option-cases, &&-true, length,
  is_empty, get_or, take, drop, any, all, keep, find, length-append, any-append, all-append, Text,
  text, len_utf8, len, str_eq, slice_from, slice_to, split, split_once, is_whitespace, trim_start,
  trim_end, trim, starts_with, str_eq_iff, str_eq_self, get, contains_key, put, delete, keys,
  contains, add, discard, ℕ, zero, suc, ◌+◌, ◌-◌, ◌*◌, ◌/◌, ◌%◌, ◌^◌, ◌≤◌, ◌<◌, min, String, ◌≡◌,
  refl, sym, ap, ap₂, ◌∙◌, ◌≢◌, ◌↔◌, ◌⊎◌, inl, inr, Bool, true, false, not, ◌&&◌, ◌||◌, Option,
  none, some, List, [], ◌∷◌, ◌++◌, map, append-nil, append_assoc, arith,
}

-- `MessageQueueItem`
pub record Item : Type 0 where
  pub start : ℕ
  pub buf : Text

pub record Client : Type 0 where
  pub domain : Text
  pub cap_version : Version
  pub cap_enabled : Capabilities
  pub state : ConnectionState
  pub auth_buffer : Text
  pub auth_buffer_complete : Bool
  pub auth_id : Option ℕ
  pub nick : Text
  pub user : Text
  pub real : Text
  pub host : Text
  pub account : Option Text
  pub full_name : Text
  pub signon_time : ℕ
  pub last_action_time : ℕ
  pub has_given_password : Bool
  pub away_message : Option Text
  pub is_invisible : Bool
  pub operator : Bool

-- `Client::new`
unfoldable pub new : Text → Text → ℕ → Client
new domain host now = record {
  domain = domain;
  cap_version = v300;
  cap_enabled = λ c. false;
  state = connection_established;
  auth_buffer = [];
  auth_buffer_complete = false;
  auth_id = none;
  nick = text "*";
  user = [];
  real = [];
  host = host;
  account = none;
  full_name = [];
  signon_time = now;
  last_action_time = now;
  has_given_password = false;
  away_message = none;
  is_invisible = false;
  operator = false;
}

-- `Client::send`: the item as it enters the queue.
unfoldable pub queued : Client → Item → Item
queued c msg = if has_message_tags c.cap_enabled then record msg { start = 0 } else msg

-- `AsRef::as_ref` of an item: `none` is a panic.
unfoldable pub item_text : Item → Option Text
item_text i = slice_from i.buf i.start

-- `Client::apply_request`: `none` is the panic of `unwrap`.
unfoldable pub apply_request : Request → Client → Option Client
apply_request r c = elim (apply c.state r) [ none ↦ none | some s ↦ some (record c { state = s }) ]

unfoldable pub can_issue_request : Request → Client → Bool
can_issue_request r c = elim (apply c.state r) [ none ↦ false | some s ↦ true ]

abbrev pub authenticate_chunk_len : ℕ
authenticate_chunk_len = 400

abbrev pub authenticate_whole_len : ℕ
authenticate_whole_len = 1024

-- The first `if` of `auth_buffer_push`.
abbrev auth_begin : Client → Client
auth_begin c =
    if c.auth_buffer_complete
    then record c { auth_buffer_complete = false; auth_buffer = [] }
    else c

-- `auth_buffer_push`: `none` is `Err(())`.
unfoldable pub auth_buffer_push : Text → Client → Client × Option Bool
auth_buffer_push buf c =
    let b = auth_begin c in
    let complete = ltb (len buf) authenticate_chunk_len in
    if ltb authenticate_chunk_len (len buf)
      || ltb authenticate_whole_len (len b.auth_buffer + len buf)
    then (b, none)
    else (
      record b {
        auth_buffer = if str_eq buf (text "+") then b.auth_buffer else b.auth_buffer ++ buf;
        auth_buffer_complete = complete;
      },
      some complete,
    )

unfoldable pub auth_reset : Client → Client
auth_reset c = record c { auth_buffer = []; auth_buffer_complete = false; auth_id = none }

unfoldable pub update_full_name : Client → Client
update_full_name c = record c { full_name = c.nick ++ text "!~" ++ c.user ++ b'@' ∷ c.host }

unfoldable pub set_nick : Text → Client → Client
unfolding update_full_name
set_nick nick c = update_full_name (record c { nick = nick })

unfoldable pub set_user : Text → Client → Client
unfolding update_full_name
set_user user c = update_full_name (record c { user = user })

unfoldable pub set_real : Text → Client → Client
set_real real c = record c { real = real }

unfoldable pub log_in : Text → Client → Client
log_in account c = record c { account = some account }

unfoldable pub update_idle_time : ℕ → Client → Client
update_idle_time now c = record c { last_action_time = now }

abbrev is_some {ℓ} : {A : Type ℓ} → Option A → Bool
is_some none = false
is_some (some a) = true

-- `write_modes`, without the space before the parameter.
unfoldable pub write_modes : Client → Text
write_modes c =
    b'+' ∷ (if is_some c.away_message then b'a' ∷ [] else [])
    ++ (if c.is_invisible then b'i' ∷ [] else [])
    ++ (if c.operator then b'o' ∷ [] else [])

abbrev differ : Bool → Bool → Bool
differ a b = if a then not b else b

unfoldable pub apply_mode_change : UserChange → Client → Client × Bool
apply_mode_change (invisible value) c =
    (record c { is_invisible = value }, differ c.is_invisible value)
apply_mode_change de_operator c = (record c { operator = false }, c.operator)
