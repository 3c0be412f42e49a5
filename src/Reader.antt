-- ===== src/Reader.antt =====
-- Lines out of a socket: `read_line` of ellidri-reader/src/lib.rs. The buffers that `poll_fill_buf`
-- gives, one after the other, are the argument `chunks`; an empty one is the end of the stream, and none
-- left is a socket that has nothing to read yet. Bytes are numbers.
pub mod Laws
use ellidri.Prelude.{
  ltb, leb, ◌==◌, if◌then◌else◌, length, is_empty, ℕ, ◌+◌, Bool, true, false, not, ◌&&◌, ◌||◌,
  Option, none, some, List, [], ◌∷◌, ◌++◌,
}

pub record ReadInfo : Type 0 where
  pub read : ℕ
  pub limit : ℕ
  pub message_max : ℕ
  pub count : ℕ

-- What a call to `read_line` comes to: a line, with the number of bytes read and what the reader holds
-- yet; the two errors; or a wait, in which the future keeps the bytes and the counts.
pub data Read : Type 0 where
  ready : List ℕ → ℕ → List (List ℕ) → Read
  abuse too_long : Read
  pending : List ℕ → ReadInfo → Read

-- `memchr2`: the bytes up to the first line end and with it, and the bytes behind it.
unfoldable pub cut_line : List ℕ → Option (List ℕ × List ℕ)
cut_line [] = none
cut_line (c ∷ s) =
    let rest = cut_line s in
    if c == 13 || c == 10
    then some (c ∷ [], s)
    else elim rest [ none ↦ none | some r ↦ some (c ∷ r.0, r.1) ]

-- A line feed right behind the line end belongs to it.
abbrev pub line_feed : List ℕ → List ℕ × List ℕ
line_feed [] = ([], [])
line_feed (c ∷ s) = if c == 10 then (c ∷ [], s) else ([], c ∷ s)

-- `consume`: what is left of a buffer is read again, unless nothing is.
abbrev pub consume : List ℕ → List (List ℕ) → List (List ℕ)
consume [] chunks = chunks
consume (c ∷ s) chunks = (c ∷ s) ∷ chunks

abbrev starts_tags : List ℕ → Bool
starts_tags [] = false
starts_tags (c ∷ s) = c == 64

-- The limit, which the first buffer that is not empty sets.
unfoldable pub limit_of : List ℕ → ReadInfo → ℕ
limit_of available n =
    if n.limit == 0 && not (is_empty available)
    then (if starts_tags available then 4096 else 0) + n.message_max
    else n.limit

-- The two tests at the head of the loop.
unfoldable pub guarded : ReadInfo → Read → Read
guarded n go =
    if leb 4 n.count then abuse else if ltb 0 n.limit && leb n.limit n.read then too_long else go

unfoldable pub read_line : List (List ℕ) → List ℕ → ReadInfo → Read
read_line [] bytes n = guarded n (pending bytes n)
read_line (available ∷ chunks) bytes n =
    let on = read_line chunks (bytes ++ available) (record n {
      read = n.read + length available;
      limit = limit_of available n;
      count = n.count + 1;
    }) in
    guarded n (elim (cut_line available) [
      | none ↦ if is_empty available then ready bytes n.read chunks else on
      | some r ↦
          let (feed, left) = line_feed r.1 in
          ready (bytes ++ r.0) (n.read + length r.0 + length feed) (consume left chunks)
    ])
