-- ===== src/Buffers.antt =====
-- Building messages: ellidri-tokens/src/buffers.rs. A buffer is its text. The thread-local values
-- DOMAIN, NICKNAME and LABEL stand in the reply buffer that set them: the server handles one message
-- at a time.
pub mod Laws
use ellidri.Command
use ellidri.Command.{Command, as_str, reply}
use ellidri.Prelude.{
  ltb, leb, ◌==◌, if◌then◌else◌, ==_iff, ==_self, Bool-cases, Option-cases, &&-true, length,
  is_empty, get_or, take, drop, any, all, keep, find, length-append, any-append, all-append, Text,
  text, len_utf8, len, str_eq, slice_from, slice_to, split, split_once, is_whitespace, trim_start,
  trim_end, trim, starts_with, str_eq_iff, str_eq_self, get, contains_key, put, delete, keys,
  contains, add, discard, put_new, contains_key-put, contains_key-delete, contains_key-get,
  contains-discard, get_absent, ℕ, zero, suc, ◌+◌, ◌-◌, ◌*◌, ◌/◌, ◌%◌, ◌^◌, ◌≤◌, ◌<◌, min, String,
  ◌≡◌, refl, sym, ap, ap₂, ◌∙◌, ◌≢◌, ◌↔◌, ◌⊎◌, inl, inr, Bool, true, false, not, ◌&&◌, ◌||◌, Option,
  none, some, List, [], ◌∷◌, ◌++◌, map, append-nil, append_assoc, arith,
}

-- `MessageBuffer::with_prefix`
unfoldable pub with_prefix : Text → Command → Text → Text
with_prefix prefix command buf =
    (if is_empty prefix then buf else buf ++ b':' ∷ prefix ++ b' ' ∷ []) ++ as_str command

-- `MessageBuffer::param`
unfoldable pub param : Text → Text → Text
param p buf = if is_empty (trim p) then buf else buf ++ b' ' ∷ trim p

-- `fmt_param`, of what the parameter is formatted to
unfoldable pub fmt_param : Text → Text → Text
fmt_param p buf = buf ++ b' ' ∷ p

-- `trailing_param` and `fmt_trailing_param`
unfoldable pub trailing_param : Text → Text → Text
trailing_param p buf = buf ++ b' ' ∷ b':' ∷ p

-- `Drop for MessageBuffer`
unfoldable pub end_message : Text → Text
end_message buf = buf ++ 13 ∷ 10 ∷ []

-- One character of `write_escaped`.
unfoldable pub escape_char : ℕ → Text
escape_char c =
    if c == b';'
    then 92 ∷ b':' ∷ []
    else if c == b' '
    then 92 ∷ b's' ∷ []
    else if c == 13
    then 92 ∷ b'r' ∷ []
    else if c == 10
    then 92 ∷ b'n' ∷ []
    else if c == 92
    then 92 ∷ 92 ∷ []
    else c ∷ []

-- The text that `write_escaped` pushes.
unfoldable pub escaped : Text → Text
unfolding escape_char
escaped [] = []
escaped (c ∷ s) = escape_char c ++ escaped s

pub record TagBuffer : Type 0 where
  pub buf : Text
  pub tag_start : ℕ

-- `TagBuffer::new`
unfoldable pub new_tags : Text → TagBuffer
new_tags buf = record { buf = buf ++ b'@' ∷ []; tag_start = len buf }

unfoldable pub has_no_tags : TagBuffer → Bool
has_no_tags t = len t.buf == t.tag_start + 1

unfoldable pub raw_tag : Text → TagBuffer → TagBuffer
unfolding has_no_tags
raw_tag s t = record t { buf = (if has_no_tags t then t.buf else t.buf ++ b';' ∷ []) ++ s }

abbrev tag_text : Text → Option Text → Text
tag_text key none = key
tag_text key (some value) = key ++ b'=' ∷ escaped value

-- `TagBuffer::tag`
unfoldable pub tag : Text → Option Text → TagBuffer → TagBuffer
unfolding raw_tag escaped
tag key value t = raw_tag (tag_text key value) t

abbrev pub last_is : ℕ → Text → Bool
last_is c [] = false
last_is c (a ∷ []) = a == c
last_is c (a ∷ b ∷ s) = last_is c (b ∷ s)

-- The length that `save_tag_len` writes.
unfoldable pub tag_len : TagBuffer → ℕ
tag_len t = if last_is b'@' t.buf then 0 else len t.buf + 1 - t.tag_start

abbrev pub pop : Text → Text
pop [] = []
pop (c ∷ []) = []
pop (c ∷ d ∷ s) = c ∷ pop (d ∷ s)

-- `TagBuffer::prefixed_command`
unfoldable pub prefixed_command : Text → Command → TagBuffer → Text
unfolding has_no_tags with_prefix
prefixed_command prefix command t =
    with_prefix prefix command (if has_no_tags t then pop t.buf else t.buf ++ b' ' ∷ [])

-- A tag that `tagged_message` lets through: it has the client prefix and a key.
unfoldable pub is_client_tag : Text → Bool
is_client_tag [] = false
is_client_tag (c ∷ s) = c == b'+' && not (starts_with s b'=')

add_tags : List Text → TagBuffer → TagBuffer
add_tags [] t = t
add_tags (s ∷ ss) t = add_tags ss (raw_tag s t)

-- `Buffer::tagged_message`
unfoldable pub tagged_message : Text → Text → TagBuffer
unfolding add_tags raw_tag new_tags is_client_tag
tagged_message client_tags buf =
    add_tags (keep is_client_tag (split b';' client_tags)) (new_tags buf)

-- `Buffer::message`, with the parameters that `rest` adds, and its end.
unfoldable pub message : Text → Command → (Text → Text) → Text → Text
unfolding with_prefix end_message
message prefix command rest buf = end_message (rest (with_prefix prefix command buf))

digits_from : ℕ → ℕ → Text → Text
digits_from zero n out = out
digits_from (suc f) n out =
    let more = digits_from f (n / 10) ((b'0' + n % 10) ∷ out) in
    if ltb n 10 then (b'0' + n) ∷ out else more

-- `Display` of a number; a number has no more than `n + 1` digits.
unfoldable pub decimal : ℕ → Text
unfolding digits_from
decimal n = digits_from (suc n) n []

pub record ReplyBuffer : Type 0 where
  pub buf : Text
  pub batch : Option ℕ
  pub has_label : Bool
  pub domain : Text
  pub nickname : Text
  pub label : Text

unfoldable pub new_reply : Text → Text → Text → ReplyBuffer
new_reply domain nickname label = record {
  buf = [];
  batch = none;
  has_label = not (is_empty label);
  domain = domain;
  nickname = nickname;
  label = label;
}

abbrev batch_tag : Option ℕ → TagBuffer → TagBuffer
batch_tag none t = t
batch_tag (some n) t = tag (text "batch") (some (decimal n)) t

-- `ReplyBuffer::tagged_message`: the tags, and the buffer with the label used up.
unfoldable pub reply_tags : Text → ReplyBuffer → ReplyBuffer × TagBuffer
unfolding tagged_message tag
reply_tags tags rb =
    let t = tagged_message tags rb.buf in
    (
      record rb { has_label = false },
      batch_tag rb.batch (if rb.has_label then tag (text "label") (some rb.label) t else t),
    )

-- `ReplyBuffer::tagged_message` with its tags and parameters, and its end.
unfoldable pub write_tagged :
    Text → (TagBuffer → TagBuffer) → Text → Command → (Text → Text) → ReplyBuffer → ReplyBuffer
unfolding reply_tags prefixed_command end_message
write_tagged client_tags add prefix command rest rb =
    let (rb', t) = reply_tags client_tags rb in
    record rb' { buf = end_message (rest (prefixed_command prefix command (add t))) }

-- `ReplyBuffer::message`, with its parameters and its end.
unfoldable pub reply_message : Text → Command → (Text → Text) → ReplyBuffer → ReplyBuffer
unfolding reply_tags prefixed_command end_message
reply_message prefix command rest rb =
    let (rb', t) = reply_tags [] rb in
    record rb' { buf = end_message (rest (prefixed_command prefix command t)) }

unfoldable pub prefixed_message : Command → (Text → Text) → ReplyBuffer → ReplyBuffer
unfolding reply_message
prefixed_message command rest rb = reply_message rb.domain command rest rb

-- `ReplyBuffer::reply`
unfoldable pub reply_with : Text → (Text → Text) → ReplyBuffer → ReplyBuffer
unfolding prefixed_message param
reply_with code rest rb = prefixed_message (reply code) (λ b. rest (param rb.nickname b)) rb

unfoldable pub set_nick : Text → ReplyBuffer → ReplyBuffer
set_nick nick rb = record rb { nickname = nick }

abbrev pub next_batch : Option ℕ → ℕ
next_batch none = 0
next_batch (some n) = n + 1

-- `lr_batch_begin`
unfoldable pub lr_batch_begin : ReplyBuffer → ReplyBuffer
unfolding tagged_message tag prefixed_command param fmt_param end_message
lr_batch_begin rb =
    let n = next_batch rb.batch in
    let t = tag (text "label") (some rb.label) (tagged_message [] rb.buf) in
    let line = prefixed_command rb.domain (reply (text "BATCH")) t in
    if rb.has_label
    then record rb {
      has_label = false;
      batch = some n;
      buf = end_message (param (text "labeled-response") (fmt_param (b'+' ∷ decimal n) line));
    }
    else rb

abbrev pub previous_batch : ℕ → Option ℕ
previous_batch zero = none
previous_batch (suc n) = some n

-- `batch_end`
unfoldable pub batch_end : ReplyBuffer → ReplyBuffer
unfolding prefixed_message fmt_param
batch_end rb = elim rb.batch [
  | none ↦ rb
  | some n ↦
      prefixed_message (reply (text "BATCH")) (fmt_param (b'-' ∷ decimal n))
        (record rb { batch = previous_batch n })
]

abbrev pub is_some {ℓ} : {A : Type ℓ} → Option A → Bool
is_some none = false
is_some (some a) = true

-- `lr_end`: the reply where there is none, then the whole; `none` is its panic.
unfoldable pub acknowledge : ReplyBuffer → ReplyBuffer
unfolding prefixed_message
acknowledge rb = if is_empty rb.buf then prefixed_message (reply (text "ACK")) (λ b. b) rb else rb

unfoldable pub lr_end : ReplyBuffer → Option ReplyBuffer
unfolding batch_end acknowledge
lr_end rb =
    let ended = batch_end rb in
    if not rb.has_label && not (is_some rb.batch)
    then some rb
    else if is_some ended.batch
    then none
    else some (record (acknowledge ended) { has_label = false })
