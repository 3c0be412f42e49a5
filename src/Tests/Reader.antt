-- ===== src/Tests/Reader.antt =====
-- A line that comes in two parts, for ellidri-reader/src/lib.rs.
use ellidri.Prelude.{text, ℕ, ◌≡◌, refl, List, [], ◌∷◌}
use ellidri.Reader.{ReadInfo, ready, cut_line, limit_of, guarded, read_line}
use ellidri.Reader.Laws.{IsRead, read_line-IsRead}

abbrev parts : List (List ℕ)
parts = text "PI" ∷ text "NG\r\nQUIT" ∷ []

abbrev fresh : ReadInfo
fresh = record { read = 0; limit = 0; message_max = 512; count = 0 }

reads_line : read_line parts [] fresh ≡ ready (text "PING\r") 6 (text "QUIT" ∷ [])
unfolding cut_line limit_of guarded read_line
reads_line = refl

read_line-IsRead_example : IsRead parts [] 0 (text "PING\r") 6 (text "QUIT" ∷ [])
read_line-IsRead_example =
    read_line-IsRead parts [] fresh (text "PING\r") 6 (text "QUIT" ∷ []) reads_line
