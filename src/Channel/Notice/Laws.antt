-- ===== src/Channel/Notice/Laws.antt =====
-- The MODE message of src/state/v1.rs, read back by the parser of ellidri-tokens/src/mode.rs.
use ellidri.Mode
use ellidri.Mode.{
  ChannelChange, Result, value, simple_query, channel_item, channel_items, channel_query,
}
use ellidri.Channel.Modes.{differ}
use ellidri.Channel.Notice.{Notice, start, sign, param_list, note, note_all}
use ellidri.Prelude.{
  ◌==◌, if◌then◌else◌, is_empty, keep, Text, ℕ, ◌≡◌, refl, sym, ap, ◌∙◌, Bool, true, false, not,
  ◌||◌, Option, none, some, List, [], ◌∷◌, ◌++◌, map, append-nil, append_assoc, arith,
}

-- A change of the modes that the loop can apply, as against a query of a list.
abbrev pub IsChange : ChannelChange → Type 0
IsChange Mode.get_bans = ⊥
IsChange Mode.get_exceptions = ⊥
IsChange Mode.get_invitations = ⊥
IsChange _ = Unit

abbrev pub HasText : Option Text → Type 0
HasText none = Unit
HasText (some p) = is_empty p ≡ false

abbrev pub AllChanges : List ChannelChange → Type 0
AllChanges [] = Unit
AllChanges (c ∷ cs) = (IsChange c × HasText (Mode.param c)) × AllChanges cs

-- The letters and the parameters that the loop appends.
letters : Bool → Bool → List ChannelChange → Text
letters last first [] = []
letters last first (c ∷ cs) =
    (if differ last (value c) || first then sign (value c) ∷ [] else [])
    ++ Mode.symbol c ∷ letters (value c) false cs

params_of : List ChannelChange → List Text
params_of [] = []
params_of (c ∷ cs) = param_list (Mode.param c) ++ params_of cs

pairs : List ChannelChange → List (Bool × ℕ)
pairs [] = []
pairs (c ∷ cs) = (value c, Mode.symbol c) ∷ pairs cs

append-ne-nil : (s : Text) (c : ℕ) → is_empty (s ++ c ∷ []) ≡ false
append-ne-nil [] c = refl
append-ne-nil (a ∷ s) c = refl

new_sign : Notice → ChannelChange → Text
new_sign n c =
    if differ n.last_applied_value (value c) || is_empty n.applied_modes
    then sign (value c) ∷ []
    else []

note-fields :
    (n : Notice) (c : ChannelChange)
    → ((note n c).applied_modes ≡ (n.applied_modes ++ new_sign n c) ++ Mode.symbol c ∷ [])
      × ((note n c).applied_modeparams ≡ n.applied_modeparams ++ param_list (Mode.param c))
      × ((note n c).last_applied_value ≡ value c)
unfolding note new_sign
note-fields n c = (ground (arith, append-nil n.applied_modes), refl, ground arith)

note-letters :
    (n : Notice) (cs : List ChannelChange)
    → ((note_all n cs).applied_modes
        ≡ n.applied_modes ++ letters n.last_applied_value (is_empty n.applied_modes) cs)
      × ((note_all n cs).applied_modeparams ≡ n.applied_modeparams ++ params_of cs)
unfolding note_all letters params_of new_sign
note-letters n [] = (sym (append-nil _), sym (append-nil _))
note-letters n (c ∷ cs) =
    let (modes, params, last) = note-fields n c in
    let (ms, ps) = note-letters (note n c) cs in
    (
      ms ∙ rw (last, modes, append-ne-nil _ (Mode.symbol c)) (simp append_assoc),
      ps ∙ rw params (append_assoc n.applied_modeparams (param_list (Mode.param c)) (params_of cs)),
    )

symbol_is_letter :
    (c : ChannelChange) → ((Mode.symbol c == b'+') ≡ false) × ((Mode.symbol c == b'-') ≡ false)
unfolding Mode.symbol
symbol_is_letter Mode.get_bans = (refl, refl)
symbol_is_letter _ = (refl, refl)

simple_query-letters :
    (v last first : Bool) (cs : List ChannelChange)
    → (first ≡ false → v ≡ last)
    → simple_query v (letters last first cs) ≡ pairs cs
unfolding simple_query letters pairs
simple_query-letters v last first [] h = refl
simple_query-letters v last first (c ∷ cs) h =
    ground (arith, symbol_is_letter c, simple_query-letters (value c) (value c) false cs)

channel_item-pair :
    (c : ChannelChange) (ps : List Text)
    → IsChange c
    → channel_item (value c) (Mode.symbol c) (param_list (Mode.param c) ++ ps) ≡ (Mode.ok c, ps)
unfolding channel_item value Mode.symbol Mode.param
channel_item-pair Mode.get_bans ps h = absurd h
channel_item-pair Mode.get_exceptions ps h = absurd h
channel_item-pair Mode.get_invitations ps h = absurd h
channel_item-pair (Mode.user_limit none) ps h = refl
channel_item-pair (Mode.user_limit (some p)) ps h = refl
channel_item-pair _ ps h = refl

channel_items-pairs :
    (cs : List ChannelChange)
    → AllChanges cs
    → channel_items (pairs cs) (params_of cs) ≡ map Mode.ok cs
unfolding channel_items pairs params_of
channel_items-pairs [] h = refl
channel_items-pairs (c ∷ cs) h =
    rw (channel_item-pair c (params_of cs) h.0.0)
      (ap (λ r. Mode.ok c ∷ r) (channel_items-pairs cs h.1))

keep-first :
    (p : Option Text) (ps : List Text)
    → HasText p
    → keep (λ t. not (is_empty t)) ps ≡ ps
    → keep (λ t. not (is_empty t)) (param_list p ++ ps) ≡ param_list p ++ ps
keep-first none ps h e = e
keep-first (some p) ps h e = rw (h, e) refl

keep-params_of :
    (cs : List ChannelChange)
    → AllChanges cs
    → keep (λ p. not (is_empty p)) (params_of cs) ≡ params_of cs
unfolding params_of
keep-params_of [] h = refl
keep-params_of (c ∷ cs) h = keep-first (Mode.param c) (params_of cs) h.0.1 (keep-params_of cs h.1)

-- The letters and the list of parameters that the loop over the applied changes gathers, given to the
-- parser of MODE queries, are those changes in their order, where no parameter is empty. It is about
-- the parameters before they are written into the MODE message.
pub channel_query-note_all :
    (cs : List ChannelChange)
    → AllChanges cs
    → let n = note_all start cs in
      channel_query n.applied_modes n.applied_modeparams ≡ map Mode.ok cs
unfolding channel_query
channel_query-note_all cs h =
    let (ms, ps) = note-letters start cs in
    rw (ms, ps, keep-params_of cs h, simple_query-letters true true true cs (λ e. refl))
      (channel_items-pairs cs h)
