-- ===== src/Errors.antt =====
-- Errors of requests, src/data/mod.rs, and the results that may be one.
use ellidri.Prelude.{Text, ℕ}
use ellidri.Command.{Command}

pub data Error : Type 0 where
  erroneous_nickname : Text → Error
  invalid_cap : Error
  invalid_cap_cmd : Text → Error
  no_such_channel : Text → Error
  no_such_nick : Text → Error
  need_more_params : Command → ℕ → Error
  unknown_command : Text → Error

-- `unreachable` stands for the macro of that name.
pub data Result {ℓ} (A : Type ℓ) : Type ℓ where
  ok : A → Result A
  err : Error → Result A
  unreachable : Result A

infixl 5 ◌>>=◌
abbrev pub ◌>>=◌ {ℓ κ} : {A : Type ℓ} {B : Type κ} → Result A → (A → Result B) → Result B
ok a >>= f = f a
err e >>= f = err e
unreachable >>= f = unreachable
