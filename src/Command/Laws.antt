-- ===== src/Command/Laws.antt =====
-- Commands and their names in ellidri-tokens/src/command.rs.
use mathlib.Core.Path.{subst}
use ellidri.Prelude.{
  Bool-cases, Text, ◌≡◌, refl, sym, ◌∙◌, ◌↔◌, inl, inr, true, some, List, [], ◌∷◌, arith,
}
use ellidri.Command.{Command, as_str, eq_ignore_ascii_case, parse_in, parse, reply, all_commands}

-- A reply is never parsed.
abbrev pub IsNamed : Command → Type 0
IsNamed (reply s) = ⊥
IsNamed Command.admin = Unit
IsNamed _ = Unit

-- The name of a command is parsed back to the command.
pub parse-as_str : (c : Command) → IsNamed c → parse (as_str c) ≡ some c
unfolding parse
parse-as_str (reply s) h = absurd h
parse-as_str Command.admin h = refl
parse-as_str _ h = refl

parse_lem : (s : Text) → parse_in all_commands s ≡ parse s
unfolding parse
parse_lem s = refl

parse_in_sound :
    (cs : List Command) (s : Text) (c : Command)
    → parse_in cs s ≡ some c
    → eq_ignore_ascii_case s (as_str c) ≡ true
unfolding parse_in
parse_in_sound [] s c h = cc
parse_in_sound (d ∷ cs) s c h = ground (arith, parse_in_sound cs s c)

abbrev AllNamed : List Command → Type 0
AllNamed [] = Unit
AllNamed (c ∷ cs) = IsNamed c × AllNamed cs

parse_in-IsNamed :
    (cs : List Command) (s : Text) (c : Command) → AllNamed cs → parse_in cs s ≡ some c → IsNamed c
unfolding parse_in
parse_in-IsNamed [] s c a h = absurd (cc h)
parse_in-IsNamed (d ∷ cs) s c a h = elim (Bool-cases (eq_ignore_ascii_case s (as_str d))) [
  | inl e ↦ let q : some d ≡ some c = rw e at h in let r : d ≡ c = cc in subst IsNamed r a.0
  | inr e ↦ parse_in-IsNamed cs s c a.1 (rw e at h)
]

all_commands-AllNamed : AllNamed all_commands
unfolding all_commands
all_commands-AllNamed = omega arith

eq_ignore-swap :
    (s t u : Text)
    → eq_ignore_ascii_case s t ≡ true
    → eq_ignore_ascii_case s u ≡ eq_ignore_ascii_case t u
unfolding eq_ignore_ascii_case
eq_ignore-swap [] [] u h = refl
eq_ignore-swap [] (b ∷ t) u h = cc
eq_ignore-swap (a ∷ s) [] u h = cc
eq_ignore-swap (a ∷ s) (b ∷ t) [] h = refl
eq_ignore-swap (a ∷ s) (b ∷ t) (c ∷ u) h = ground (arith, eq_ignore-swap s t u)

parse_in-eq_ignore :
    (cs : List Command) (s t : Text)
    → eq_ignore_ascii_case s t ≡ true
    → parse_in cs s ≡ parse_in cs t
unfolding parse_in
parse_in-eq_ignore [] s t h = refl
parse_in-eq_ignore (c ∷ cs) s t h =
    rw (eq_ignore-swap s t (as_str c) h, parse_in-eq_ignore cs s t h) refl

-- A text is parsed to a command exactly when it is the command's name in any case, and only to a
-- command of the table.
pub parse_iff :
    (s : Text) (c : Command)
    → (parse s ≡ some c) ↔ (IsNamed c × (eq_ignore_ascii_case s (as_str c) ≡ true))
parse_iff s c = (
  λ h. (
    parse_in-IsNamed all_commands s c all_commands-AllNamed (parse_lem s ∙ h),
    parse_in_sound all_commands s c (parse_lem s ∙ h),
  ),
  λ h.
      sym (parse_lem s)
      ∙ parse_in-eq_ignore all_commands s (as_str c) h.1
      ∙ parse_lem (as_str c)
      ∙ parse-as_str c h.0,
)
