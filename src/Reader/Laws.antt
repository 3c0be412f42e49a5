-- ===== src/Reader/Laws.antt =====
-- What `read_line` of ellidri-reader/src/lib.rs makes of the bytes of a socket.
use ellidri.Prelude.{
  ==_iff, Bool-cases, Option-cases, length, is_empty, length-append, ℕ, ◌+◌, ◌≡◌, refl, sym, ap,
  ◌∙◌, ◌⊎◌, inl, inr, true, some, List, [], ◌∷◌, ◌++◌, append-nil, append_assoc, arith,
}
use ellidri.Reader.{
  ReadInfo, Read, ready, pending, cut_line, line_feed, consume, guarded, read_line, limit_of,
}

abbrev pub joined : List (List ℕ) → List ℕ
joined [] = []
joined (c ∷ cs) = c ++ joined cs

cut_line-joined : (s : List ℕ) (r : List ℕ × List ℕ) → cut_line s ≡ some r → s ≡ r.0 ++ r.1
unfolding cut_line
cut_line-joined [] r h = ground arith
cut_line-joined (c ∷ s) r h = elim (Option-cases (cut_line s)) [
  | inl e ↦ ground (arith, e)
  | inr (q, e) ↦ ground (arith, e, cut_line-joined s q e)
]

line_feed-joined : (s : List ℕ) → s ≡ (line_feed s).0 ++ (line_feed s).1
line_feed-joined [] = refl
line_feed-joined (c ∷ s) = ground arith

consume-joined : (s : List ℕ) (cs : List (List ℕ)) → joined (consume s cs) ≡ s ++ joined cs
consume-joined [] cs = refl
consume-joined (c ∷ s) cs = refl

guarded-ready :
    (n : ReadInfo) (go : Read) (out : List ℕ) (k : ℕ) (left : List (List ℕ))
    → guarded n go ≡ ready out k left
    → go ≡ ready out k left
unfolding guarded
guarded-ready n go out k left h = ground arith

-- What became of the bytes: those of the line, the line feed behind it, and those that are left.
pub record IsRead (chunks : List (List ℕ)) (bytes : List ℕ) (from : ℕ) (out : List ℕ) (k : ℕ)
    (left : List (List ℕ)) : Type 0 where
  pub line : List ℕ
  pub feed : List ℕ
  pub kept : out ≡ bytes ++ line
  pub all_there : joined chunks ≡ line ++ (feed ++ joined left)
  pub at_most_one : (feed ≡ []) ⊎ (feed ≡ 10 ∷ [])
  pub counted : k ≡ from + length line + length feed

line_feed-one : (s : List ℕ) → ((line_feed s).0 ≡ []) ⊎ ((line_feed s).0 ≡ 10 ∷ [])
line_feed-one [] = inl refl
line_feed-one (c ∷ s) = ground (arith, ==_iff c 10)

cut-IsRead :
    (available : List ℕ) (chunks : List (List ℕ)) (bytes : List ℕ) (from : ℕ) (r : List ℕ × List ℕ)
    → cut_line available ≡ some r
    → IsRead
        (available ∷ chunks)
        bytes
        from
        (bytes ++ r.0)
        (from + length r.0 + length (line_feed r.1).0)
        (consume (line_feed r.1).1 chunks)
cut-IsRead available chunks bytes from r h = record {
  line = r.0;
  feed = (line_feed r.1).0;
  kept = refl;
  all_there =
      let cut = line_feed r.1 in
      let rest = joined chunks in
      ap (λ s. s ++ rest) (cut_line-joined available r h)
      ∙ append_assoc r.0 r.1 rest
      ∙ ap (λ s. r.0 ++ s)
          (ap (λ s. s ++ rest) (line_feed-joined r.1)
            ∙ append_assoc cut.0 cut.1 rest
            ∙ ap (λ s. cut.0 ++ s) (sym (consume-joined cut.1 chunks)));
  at_most_one = line_feed-one r.1;
  counted = refl;
}

on-IsRead :
    (available : List ℕ) (chunks : List (List ℕ)) (bytes : List ℕ) (from : ℕ) (out : List ℕ) (k : ℕ)
    (left : List (List ℕ))
    → IsRead chunks (bytes ++ available) (from + length available) out k left
    → IsRead (available ∷ chunks) bytes from out k left
on-IsRead available chunks bytes from out k left p = record {
  line = available ++ p.line;
  feed = p.feed;
  kept = p.kept ∙ append_assoc bytes available p.line;
  all_there =
      ap (λ s. available ++ s) p.all_there
      ∙ sym (append_assoc available p.line (p.feed ++ joined left));
  at_most_one = p.at_most_one;
  counted = ground (arith, p.counted, length-append available p.line);
}

same-IsRead :
    (chunks : List (List ℕ)) (bytes : List ℕ) (from : ℕ) (a b : List ℕ) (i k : ℕ)
    (l m : List (List ℕ))
    → ready a i l ≡ ready b k m
    → IsRead chunks bytes from a i l
    → IsRead chunks bytes from b k m
same-IsRead chunks bytes from a b i k l m e p =
    let same : a ≡ b = ground (arith, e) in
    let counts : i ≡ k = ground (arith, e) in
    let rest : l ≡ m = ground (arith, e) in
    record {
      line = p.line;
      feed = p.feed;
      kept = sym same ∙ p.kept;
      all_there = p.all_there ∙ ap (λ x. p.line ++ (p.feed ++ joined x)) rest;
      at_most_one = p.at_most_one;
      counted = sym counts ∙ p.counted;
    }

over-IsRead :
    (available : List ℕ) (chunks : List (List ℕ)) (bytes : List ℕ) (from : ℕ) (out : List ℕ) (k : ℕ)
    (left : List (List ℕ))
    → is_empty available ≡ true
    → ready bytes from chunks ≡ ready out k left
    → IsRead (available ∷ chunks) bytes from out k left
over-IsRead [] chunks bytes from out k left over e =
    same-IsRead ([] ∷ chunks) bytes from bytes out from k chunks left e (record {
      line = [];
      feed = [];
      kept = sym (append-nil bytes);
      all_there = refl;
      at_most_one = inl refl;
      counted = ground arith;
    })
over-IsRead (c ∷ s) chunks bytes from out k left over e = ground (arith, over)

-- A line that is read is the bytes that were kept and the next ones of the socket; what is left in the
-- reader is what follows them, less at most one line feed; and the number that is returned is that of the
-- bytes taken. Nothing is lost, whatever buffers the socket gives.
pub read_line-IsRead :
    (chunks : List (List ℕ)) (bytes : List ℕ) (n : ReadInfo) (out : List ℕ) (k : ℕ)
    (left : List (List ℕ))
    → read_line chunks bytes n ≡ ready out k left
    → IsRead chunks bytes n.read out k left
unfolding read_line
read_line-IsRead [] bytes n out k left h =
    let stuck : pending bytes n ≡ ready out k left = guarded-ready n _ out k left h in
    ground (arith, stuck)
read_line-IsRead (available ∷ chunks) bytes n out k left h =
    let go = guarded-ready n _ out k left h in
    elim (Option-cases (cut_line available)) [
      | inr (r, e) ↦
          same-IsRead (available ∷ chunks) bytes n.read _ out _ k _ left (ground (arith, go, e))
            (cut-IsRead available chunks bytes n.read r e)
      | inl e ↦ elim (Bool-cases (is_empty available)) [
        | inl over ↦
            over-IsRead available chunks bytes n.read out k left over (ground (arith, go, e, over))
        | inr more ↦ on-IsRead available chunks bytes n.read out k left (
            read_line-IsRead chunks (bytes ++ available)
              (record n {
                read = n.read + length available;
                limit = limit_of available n;
                count = n.count + 1;
              })
              out k left (ground (arith, go, e, more)))
      ]
    ]
