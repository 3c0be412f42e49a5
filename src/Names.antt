-- ===== src/Names.antt =====
-- Validated pieces of user input: src/data/strings.rs. A validated type is its text; its `try_from`
-- is a function into `Option` or `Result`.
pub mod Laws
use ellidri.Errors.{Result, ok, err, unreachable, no_such_channel, no_such_nick}
use ellidri.Prelude.{
  ltb, leb, ◌==◌, if◌then◌else◌, ==_iff, ==_self, Bool-cases, Option-cases, &&-true, length,
  is_empty, get_or, take, drop, any, all, keep, find, length-append, any-append, all-append, Text,
  text, len_utf8, len, str_eq, slice_from, slice_to, split, split_once, is_whitespace, trim_start,
  trim_end, trim, starts_with, str_eq_iff, str_eq_self, ℕ, zero, suc, ◌+◌, ◌-◌, ◌*◌, ◌/◌, ◌%◌, ◌^◌,
  ◌≤◌, ◌<◌, min, String, ◌≡◌, refl, sym, ap, ap₂, ◌∙◌, ◌≢◌, ◌↔◌, ◌⊎◌, inl, inr, Bool, true, false,
  not, ◌&&◌, ◌||◌, Option, none, some, List, [], ◌∷◌, ◌++◌, map, append-nil, append_assoc, arith,
}

unfoldable pub is_namespace : ℕ → Bool
is_namespace c = c == b'#' || c == b'&'

unfoldable pub is_wildcard : ℕ → Bool
is_wildcard c = c == b'?' || c == b'*'

unfoldable pub is_prefix : ℕ → Bool
is_prefix c = c == b'~' || c == b'&' || c == b'@' || c == b'%' || c == b'+'

unfoldable pub is_valid : ℕ → Bool
is_valid c = not (c == b' ') && not (c == b',') && not (c == b':')

unfoldable pub is_valid_mask : Text → Bool
unfolding is_valid is_namespace
is_valid_mask [] = false
is_valid_mask (first ∷ rest) = is_valid first && all (λ c. is_valid c && not (is_namespace c)) rest

-- One character of a name.
unfoldable pub is_name_char : ℕ → Bool
unfolding is_valid is_namespace is_wildcard
is_name_char c = is_valid c && not (is_namespace c) && not (is_wildcard c)

unfoldable pub is_valid_name : Text → Bool
unfolding is_prefix is_name_char
is_valid_name [] = false
is_valid_name (first ∷ rest) = not (is_prefix first) && all is_name_char (first ∷ rest)

-- `&s[1..]`: a namespace character is one byte.
unfoldable pub is_valid_channel_name : Text → Bool
unfolding is_valid_name is_namespace
is_valid_channel_name [] = false
is_valid_channel_name (first ∷ rest) = is_namespace first && is_valid_name rest

-- `s.ends_with(t)`
unfoldable pub ends_with : Text → Text → Bool
ends_with t [] = str_eq [] t
ends_with t (c ∷ s) = str_eq (c ∷ s) t || ends_with t s

unfoldable pub is_restricted_nickname : Text → Bool
unfolding ends_with
is_restricted_nickname s = ltb (len s) 9 && ends_with (text "Serv") s

unfoldable pub mask_try_from : Text → Result Text
unfolding is_valid_mask
mask_try_from s = if is_valid_mask s then ok s else err (no_such_nick s)

unfoldable pub nickname_try_from : Text → Result Text
unfolding is_valid_name is_restricted_nickname
nickname_try_from s =
    if is_valid_name s && not (is_restricted_nickname s) then ok s else err (no_such_nick s)

unfoldable pub channel_name_try_from : Text → Result Text
unfolding is_valid_channel_name
channel_name_try_from s = if is_valid_channel_name s then ok s else err (no_such_channel s)

-- `Key` and `HostName`, whose error is `()`.
unfoldable pub key_try_from : Text → Option Text
unfolding is_valid_name
key_try_from s = if is_valid_name s then some s else none

unfoldable pub ok? : Result Text → Option Text
ok? (ok s) = some s
ok? (err e) = none
ok? unreachable = none

-- `List::iter`: the valid parts, in order; `flat_map` drops the others.
unfoldable pub valid_parts : (Text → Option Text) → List Text → List Text
valid_parts f [] = []
valid_parts f (w ∷ ws) =
    let rest = valid_parts f ws in elim (f w) [ none ↦ rest | some t ↦ t ∷ rest ]

unfoldable pub list_iter : (Text → Option Text) → ℕ → Text → List Text
unfolding valid_parts
list_iter f sep raw = valid_parts f (split sep raw)

unfoldable pub channel_list : Text → List Text
unfolding list_iter ok? channel_name_try_from
channel_list raw = list_iter (λ s. ok? (channel_name_try_from s)) b',' raw

unfoldable pub nickname_list : Text → List Text
unfolding list_iter ok? nickname_try_from
nickname_list raw = list_iter (λ s. ok? (nickname_try_from s)) b',' raw

-- The names zipped with the keys, and with `None` where these have run out.
unfoldable pub zip_keys : List Text → List Text → List (Text × Option Text)
zip_keys [] ks = []
zip_keys (n ∷ ns) [] = (n, none) ∷ zip_keys ns []
zip_keys (n ∷ ns) (k ∷ ks) = (n, some k) ∷ zip_keys ns ks

-- `JoinList::iter`
unfoldable pub join_list : Text → Text → List (Text × Option Text)
unfolding zip_keys list_iter channel_list key_try_from
join_list names keys = zip_keys (channel_list names) (list_iter key_try_from b',' keys)
