-- ===== src/Message.antt =====
-- Parsing of IRC messages and their tags: ellidri-tokens/src/message.rs. Of the array `params` the
-- first `num_params` elements are kept; the others are the empty text, as `param` reads them.
pub mod Tags
use ellidri.Prelude.{
  ltb, leb, ◌==◌, if◌then◌else◌, ==_iff, ==_self, Bool-cases, Option-cases, &&-true, length,
  is_empty, get_or, take, drop, any, all, keep, find, length-append, any-append, all-append, Text,
  text, len_utf8, len, str_eq, slice_from, slice_to, split, split_once, is_whitespace, trim_start,
  trim_end, trim, starts_with, str_eq_iff, str_eq_self, ℕ, zero, suc, ◌+◌, ◌-◌, ◌*◌, ◌/◌, ◌%◌, ◌^◌,
  ◌≤◌, ◌<◌, min, String, ◌≡◌, refl, sym, ap, ap₂, ◌∙◌, ◌≢◌, ◌↔◌, ◌⊎◌, inl, inr, Bool, true, false,
  not, ◌&&◌, ◌||◌, Option, none, some, List, [], ◌∷◌, ◌++◌, map, append-nil, append_assoc, arith,
}
use ellidri.Command
use ellidri.Command.{Command, required_params}

abbrev pub params_length : ℕ
params_length = 15

abbrev trimmed_parts : Text × Option Text → List Text
trimmed_parts (a, none) = trim a ∷ []
trimmed_parts (a, some b) = trim a ∷ trim b ∷ []

abbrev first_two : List Text → Text × Text
first_two [] = ([], [])
first_two (w ∷ []) = (w, [])
first_two (w ∷ r ∷ ws) = (w, r)

-- `parse_word`
unfoldable pub parse_word : Text → Text × Text
parse_word s = first_two (keep (λ p. not (is_empty p)) (trimmed_parts (split_once b' ' s)))

-- `&s[1..]` of a text that begins with a one-byte character
abbrev skip_one : Text → Text
skip_one [] = []
skip_one (c ∷ s) = s

unfoldable pub parse_tags : Text → Text × Text
unfolding parse_word
parse_tags buf =
    if starts_with buf b'@'
    then (let (tags, rest) = parse_word buf in (skip_one tags, rest))
    else ([], buf)

unfoldable pub parse_prefix : Text → Option Text × Text
unfolding parse_word
parse_prefix buf =
    if starts_with buf b':'
    then (let (prefix, rest) = parse_word buf in (some (skip_one prefix), rest))
    else (none, trim_start buf)

-- `Result<Command, &str>`
pub data ParsedCommand : Type 0 where
  known : Command → ParsedCommand
  unknown : Text → ParsedCommand

unfoldable pub parse_command : Text → ParsedCommand × Text
unfolding parse_word Command.parse
parse_command buf =
    let (word, rest) = parse_word buf in
    (elim (Command.parse word) [ none ↦ unknown word | some c ↦ known c ], rest)

pub record Message : Type 0 where
  pub tags : Text
  pub prefix : Option Text
  pub command : ParsedCommand
  pub num_params : ℕ
  pub params : List Text

-- `msg.params[i]`, for an index below 15.
abbrev pub param : Message → ℕ → Text
param m i = get_or m.params i []

-- The `while` of `parse`: the rounds that are left, and the text that is left.
unfoldable pub parse_params : ℕ → Text → List Text
unfolding parse_word
parse_params zero buf = []
parse_params (suc k) [] = []
parse_params (suc k) (c ∷ buf) =
    let middle = (let (word, rest) = parse_word (c ∷ buf) in word ∷ parse_params k rest) in
    if c == b':' then buf ∷ [] else middle

abbrev is_no_command : ParsedCommand → Bool
is_no_command (known c) = false
is_no_command (unknown word) = is_empty word

-- `Message::parse`
unfoldable pub parse : Text → Option Message
unfolding parse_tags parse_prefix parse_command parse_params
parse s =
    let buf = trim_start s in
    if is_empty buf || any (λ c. c == 0) buf
    then none
    else (let (tags, buf₁) = parse_tags buf in
        let (prefix, buf₂) = parse_prefix buf₁ in
        let (command, buf₃) = parse_command buf₂ in
        let params = parse_params params_length buf₃ in
        if is_no_command command
        then none
        else some (record {
          tags = tags;
          prefix = prefix;
          command = command;
          num_params = length params;
          params = params;
        }))

unfoldable pub has_enough_params : Message → Bool
has_enough_params m = elim m.command [
  | known c ↦ leb (required_params c) m.num_params
  | unknown w ↦ false
]

-- `tag_escape`
unfoldable pub tag_escape : ℕ → ℕ
tag_escape c =
    if c == b':'
    then b';'
    else if c == b's'
    then b' '
    else if c == b'r'
    then 13
    else if c == b'n'
    then 10
    else c

pub record Tag : Type 0 where
  pub key : Text
  pub value : Option Text

non_empty : Text → Option Text
non_empty [] = none
non_empty (c ∷ s) = some (c ∷ s)

abbrev tag_value : Option Text → Option Text
tag_value none = none
tag_value (some v) = non_empty v

-- `Tag::parse`
unfoldable pub parse_tag : Text → Tag
unfolding non_empty
parse_tag buf = let (k, v) = split_once b'=' buf in record { key = k; value = tag_value v }

unfoldable pub is_client : Tag → Bool
is_client tag = starts_with tag.key b'+'

-- The loop of `unescape_value_into`.
unfoldable pub unescape : Bool → Text → Text
unfolding tag_escape
unescape escape [] = []
unescape escape (c ∷ s) =
    let skip = unescape true s in
    let push = (if escape then tag_escape c else c) ∷ unescape false s in
    if c == 92 && not escape then skip else push

unfoldable pub unescape_value : Tag → Text
unfolding unescape
unescape_value tag = elim tag.value [ none ↦ [] | some v ↦ unescape false v ]

-- The filter of `tags`.
unfoldable pub is_tag_item : Text → Bool
is_tag_item [] = false
is_tag_item (c ∷ s) = not (c == b'=') && not (c == b'+' && starts_with s b'=')

unfoldable pub tags : Text → List Tag
unfolding is_tag_item parse_tag
tags s = map parse_tag (keep is_tag_item (split b';' s))
