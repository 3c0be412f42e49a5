-- ===== src/Names/Laws.antt =====
-- What the checks of src/data/strings.rs let through.
use ellidri.Prelude.{
  ◌==◌, ==_self, Bool-cases, Text, text, len, split, ℕ, ◌<◌, ◌≡◌, refl, sym, ap, ◌∙◌, ◌≢◌, inl, inr,
  Option, List, [], ◌∷◌, ◌++◌, append-nil, arith,
}
use ellidri.Errors.{ok}
use ellidri.Mask.Set.Laws.{split-ne-nil}
use ellidri.Names.{
  is_valid_name, nickname_try_from, channel_name_try_from, join_list, valid_parts, list_iter,
  key_try_from, zip_keys, channel_list,
}

-- No text is both a nickname and a channel name.
pub nickname-channel_disjoint :
    (s : Text) → nickname_try_from s ≡ ok s → channel_name_try_from s ≢ ok s
unfolding nickname_try_from channel_name_try_from
nickname-channel_disjoint [] h k = ground arith
nickname-channel_disjoint (c ∷ s) h k = ground arith

-- Every nickname is free of the characters that separate and mark parts of a message.
abbrev pub IsClean : Text → Type 0
IsClean [] = Unit
IsClean (c ∷ s) =
    ((c ≢ b' ') × (c ≢ b',') × (c ≢ b':') × (c ≢ b'#') × (c ≢ b'&') × (c ≢ b'*') × (c ≢ b'?'))
    × IsClean s

-- What a name begins with: no member prefix.
abbrev pub BeginsPlain : Text → Type 0
BeginsPlain [] = ⊥
BeginsPlain (c ∷ s) = (c ≢ b'~') × (c ≢ b'&') × (c ≢ b'@') × (c ≢ b'%') × (c ≢ b'+')

-- The names kept for services: short ones that end in `Serv`.
abbrev pub IsService : Text → Type 0
IsService s = (len s < 9) × ((r : Text) × (s ≡ r ++ text "Serv"))

split-both : (sep : ℕ) (a b : Text) → split sep (a ++ sep ∷ b) ≡ split sep a ++ split sep b
split-both sep [] b = rw (==_self sep) refl
split-both sep (c ∷ a) b =
    let (w, ws, e) = split-ne-nil sep a in
    elim (Bool-cases (c == sep)) [
      | inl h ↦ rw h (rw (split-both sep a b) refl)
      | inr h ↦ rw h (rw (split-both sep a b, e) refl)
    ]

valid_parts-append :
    (f : Text → Option Text) (ps qs : List Text)
    → valid_parts f (ps ++ qs) ≡ valid_parts f ps ++ valid_parts f qs
unfolding valid_parts
valid_parts-append f [] qs = refl
valid_parts-append f (p ∷ ps) qs = ground (arith, valid_parts-append f ps qs)

keys_both :
    (a b : Text)
    → list_iter key_try_from b',' (a ++ b',' ∷ b)
      ≡ list_iter key_try_from b',' a ++ list_iter key_try_from b',' b
unfolding list_iter
keys_both a b =
    ap (valid_parts key_try_from) (split-both b',' a b)
    ∙ valid_parts-append key_try_from (split b',' a) (split b',' b)

no_key : list_iter key_try_from b',' [] ≡ []
unfolding list_iter valid_parts key_try_from is_valid_name
no_key = refl

-- An empty key between two others, before them or behind them takes no place in the list of keys:
-- the channels are joined as if it were not written.
pub join_list_empty_key :
    (names a b : Text)
    → (join_list names (a ++ b',' ∷ b',' ∷ b) ≡ join_list names (a ++ b',' ∷ b))
      × (join_list names (b',' ∷ b) ≡ join_list names b)
      × (join_list names (a ++ b',' ∷ []) ≡ join_list names a)
unfolding join_list
join_list_empty_key names a b =
    let zip = zip_keys (channel_list names) in
    let empty_first : list_iter key_try_from b',' (b',' ∷ b) ≡ list_iter key_try_from b',' b =
      keys_both [] b ∙ ap (λ ks. ks ++ list_iter key_try_from b',' b) no_key in
    (
      ap zip (
          keys_both a (b',' ∷ b)
          ∙ ap (λ ks. list_iter key_try_from b',' a ++ ks) empty_first
          ∙ sym (keys_both a b)),
      ap zip empty_first,
      ap zip (
          keys_both a []
          ∙ ap (λ ks. list_iter key_try_from b',' a ++ ks) no_key
          ∙ append-nil (list_iter key_try_from b',' a)),
    )
