-- ===== src/Message/Tags.antt =====
-- Tag values, escaped by ellidri-tokens/src/buffers.rs and unescaped by
-- ellidri-tokens/src/message.rs.
use ellidri.Buffers.{escape_char, escaped}
use ellidri.Message.{unescape}
use ellidri.Prelude.{Text, ℕ, ◌≡◌, refl, ap, ◌∙◌, false, [], ◌∷◌, ◌++◌, arith}

unescape-escape_char :
    (c : ℕ) (rest : Text) → unescape false (escape_char c ++ rest) ≡ c ∷ unescape false rest
unfolding unescape escape_char
unescape-escape_char c rest = ground arith

-- Unescaping what was escaped gives the value back.
pub unescape-escaped : (v : Text) → unescape false (escaped v) ≡ v
unfolding escaped unescape
unescape-escaped [] = refl
unescape-escaped (c ∷ v) = unescape-escape_char c (escaped v) ∙ ap (λ r. c ∷ r) (unescape-escaped v)
