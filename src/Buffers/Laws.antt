-- ===== src/Buffers/Laws.antt =====
-- Labelled responses of ellidri-tokens/src/buffers.rs: what a handler may write between the creation
-- of a reply buffer and `lr_end`.
use ellidri.Buffers.{
  ReplyBuffer, TagBuffer, new_reply, write_tagged, reply_message, prefixed_message, reply_with,
  param, set_nick, lr_batch_begin, lr_end, batch_end, acknowledge, end_message, next_batch, is_some,
}
use ellidri.Command.{Command, reply}
use ellidri.Prelude.{
  Bool-cases, is_empty, Text, ◌≡◌, refl, ap, ◌∙◌, ◌≢◌, ◌⊎◌, inl, inr, Bool, true, false, not, ◌&&◌,
  Option, none, some, List, [], ◌∷◌,
}

-- The methods of a `ReplyBuffer` that the handlers call, whose fields they cannot reach: a message
-- with its prefix and parameters; one from the server; a numeric reply to the client; a message with
-- client tags, and with the tags that the handler adds; the begin of a batch; a change of the
-- nickname.
pub data Op : Type 0 where
  say : Text → Command → (Text → Text) → Op
  say_prefixed : Command → (Text → Text) → Op
  say_reply : Text → (Text → Text) → Op
  say_tagged : Text → (TagBuffer → TagBuffer) → Text → Command → (Text → Text) → Op
  begin_batch : Op
  rename : Text → Op

unfoldable pub write : Op → ReplyBuffer → ReplyBuffer
unfolding write_tagged reply_message prefixed_message reply_with lr_batch_begin set_nick
write (say prefix command rest) rb = reply_message prefix command rest rb
write (say_prefixed command rest) rb = prefixed_message command rest rb
write (say_reply code rest) rb = reply_with code rest rb
write (say_tagged client_tags add prefix command rest) rb =
    write_tagged client_tags add prefix command rest rb
write begin_batch rb = lr_batch_begin rb
write (rename nick) rb = set_nick nick rb

unfoldable pub write_all : List Op → ReplyBuffer → ReplyBuffer
unfolding write
write_all [] rb = rb
write_all (op ∷ ops) rb = write_all ops (write op rb)

-- One batch at most is open, none while the label waits; a label that was used left a message.
pub record IsOpen (labelled : Bool) (rb : ReplyBuffer) : Type 0 where
  pub one_batch : (rb.batch ≡ none) ⊎ (rb.batch ≡ some 0)
  pub waiting : rb.has_label ≡ true → rb.batch ≡ none
  pub answered : labelled ≡ true → rb.has_label ≡ false → is_empty rb.buf ≡ false

end_message-ne-nil : (b : Text) → is_empty (end_message b) ≡ false
unfolding end_message
end_message-ne-nil [] = refl
end_message-ne-nil (c ∷ b) = refl

write_tagged-fields :
    (client_tags : Text) (add : TagBuffer → TagBuffer) (prefix : Text) (command : Command)
    (rest : Text → Text) (rb : ReplyBuffer)
    → let rb' = write_tagged client_tags add prefix command rest rb in
      (rb'.batch ≡ rb.batch) × (rb'.has_label ≡ false) × (is_empty rb'.buf ≡ false)
unfolding write_tagged
write_tagged-fields client_tags add prefix command rest rb = (refl, refl, end_message-ne-nil _)

write_tagged-IsOpen :
    (b : Bool) (client_tags : Text) (add : TagBuffer → TagBuffer) (prefix : Text)
    (command : Command) (rest : Text → Text) (rb : ReplyBuffer)
    → IsOpen b rb
    → IsOpen b (write_tagged client_tags add prefix command rest rb)
write_tagged-IsOpen b client_tags add prefix command rest rb o =
    let (batch, label, full) = write_tagged-fields client_tags add prefix command rest rb in
    record { one_batch = rw batch o.one_batch; waiting = λ e. cc; answered = λ e k. full }

-- A message is one without client tags, to which the handler adds no tag.
reply_message-write_tagged :
    (prefix : Text) (command : Command) (rest : Text → Text) (rb : ReplyBuffer)
    → reply_message prefix command rest rb ≡ write_tagged [] (λ t. t) prefix command rest rb
unfolding reply_message write_tagged
reply_message-write_tagged prefix command rest rb = refl

reply_message-IsOpen :
    (b : Bool) (prefix : Text) (command : Command) (rest : Text → Text) (rb : ReplyBuffer)
    → IsOpen b rb
    → IsOpen b (reply_message prefix command rest rb)
reply_message-IsOpen b prefix command rest rb o =
    rw (reply_message-write_tagged prefix command rest rb)
      (write_tagged-IsOpen b [] (λ t. t) prefix command rest rb o)

lr_batch_begin-fields :
    (rb : ReplyBuffer)
    → (rb.has_label ≡ false → lr_batch_begin rb ≡ rb)
      × (rb.has_label ≡ true
          → ((lr_batch_begin rb).batch ≡ some (next_batch rb.batch))
            × ((lr_batch_begin rb).has_label ≡ false)
            × (is_empty (lr_batch_begin rb).buf ≡ false))
unfolding lr_batch_begin
lr_batch_begin-fields rb = (λ h. rw h refl, λ h. rw h (refl, refl, end_message-ne-nil _))

pub lr_batch_begin-IsOpen :
    (b : Bool) (rb : ReplyBuffer) → IsOpen b rb → IsOpen b (lr_batch_begin rb)
lr_batch_begin-IsOpen b rb o = elim (Bool-cases rb.has_label) [
  | inl h ↦
      let (batch, label, full) = (lr_batch_begin-fields rb).1 h in
      let none_open : rb.batch ≡ none = o.waiting h in
      record {
        one_batch = inr (batch ∙ ap (λ p. some (next_batch p)) none_open);
        waiting = λ e. cc;
        answered = λ e k. full;
      }
  | inr h ↦ rw ((lr_batch_begin-fields rb).0 h) o
]

pub write-IsOpen : (b : Bool) (op : Op) (rb : ReplyBuffer) → IsOpen b rb → IsOpen b (write op rb)
unfolding write
write-IsOpen b (say prefix command rest) rb o = reply_message-IsOpen b prefix command rest rb o
write-IsOpen b (say_prefixed command rest) rb o = reply_message-IsOpen b rb.domain command rest rb o
write-IsOpen b (say_reply code rest) rb o =
    reply_message-IsOpen b rb.domain (reply code) (λ t. rest (param rb.nickname t)) rb o
write-IsOpen b (say_tagged client_tags add prefix command rest) rb o =
    write_tagged-IsOpen b client_tags add prefix command rest rb o
write-IsOpen b begin_batch rb o = lr_batch_begin-IsOpen b rb o
write-IsOpen b (rename nick) rb o = record {
  one_batch = o.one_batch;
  waiting = o.waiting;
  answered = o.answered;
}

write_all-IsOpen :
    (b : Bool) (ops : List Op) (rb : ReplyBuffer) → IsOpen b rb → IsOpen b (write_all ops rb)
unfolding write_all
write_all-IsOpen b [] rb o = o
write_all-IsOpen b (op ∷ ops) rb o = write_all-IsOpen b ops (write op rb) (write-IsOpen b op rb o)

new_reply-IsOpen :
    (domain nick label : Text) → IsOpen (not (is_empty label)) (new_reply domain nick label)
unfolding new_reply
new_reply-IsOpen domain nick label = record {
  one_batch = inl refl;
  waiting = λ e. refl;
  answered = λ e k. cc;
}

-- The end of a labelled response.
record Closed (labelled : Bool) (r : Option ReplyBuffer) : Type 0 where
  result : ReplyBuffer
  returned : r ≡ some result
  no_batch : result.batch ≡ none
  no_label : result.has_label ≡ false
  sent : labelled ≡ true → is_empty result.buf ≡ false

lr_end_idle : (rb : ReplyBuffer) → rb.has_label ≡ false → rb.batch ≡ none → lr_end rb ≡ some rb
unfolding lr_end
lr_end_idle rb h e = rw (h, e) refl

lr_end_busy :
    (rb : ReplyBuffer)
    → (not rb.has_label && not (is_some rb.batch)) ≡ false
    → is_some (batch_end rb).batch ≡ false
    → lr_end rb ≡ some (record (acknowledge (batch_end rb)) { has_label = false })
unfolding lr_end acknowledge
lr_end_busy rb h e = rw (h, e, lr_end) refl

batch_end-fields :
    (rb : ReplyBuffer)
    → (rb.batch ≡ none → batch_end rb ≡ rb)
      × (rb.batch ≡ some 0 → ((batch_end rb).batch ≡ none) × (is_empty (batch_end rb).buf ≡ false))
unfolding batch_end
batch_end-fields rb = (λ e. rw e refl, λ e. rw e (refl, end_message-ne-nil _))

acknowledge-fields :
    (rb : ReplyBuffer)
    → ((acknowledge rb).batch ≡ rb.batch) × (is_empty (acknowledge rb).buf ≡ false)
unfolding acknowledge
acknowledge-fields rb = elim (Bool-cases (is_empty rb.buf)) [
  | inl e ↦ rw e (refl, end_message-ne-nil _)
  | inr e ↦ rw e (refl, e)
]

not-last : (h : Bool) → (not h && false) ≡ false
not-last true = refl
not-last false = refl

not-empty : (s : Text) → s ≢ [] → not (is_empty s) ≡ true
not-empty [] h = absurd (h refl)
not-empty (c ∷ s) h = refl

Closed-busy :
    (b : Bool) (rb : ReplyBuffer)
    → (not rb.has_label && not (is_some rb.batch)) ≡ false
    → (batch_end rb).batch ≡ none
    → Closed b (lr_end rb)
Closed-busy b rb busy ended =
    let (batch, full) = acknowledge-fields (batch_end rb) in
    record {
      result = record (acknowledge (batch_end rb)) { has_label = false };
      returned = lr_end_busy rb busy (rw ended refl);
      no_batch = batch ∙ ended;
      no_label = refl;
      sent = λ e. full;
    }

lr_end-Closed : (b : Bool) (rb : ReplyBuffer) → IsOpen b rb → Closed b (lr_end rb)
lr_end-Closed b rb o = elim o.one_batch [
  | inl e ↦ elim (Bool-cases rb.has_label) [
    | inl h ↦ Closed-busy b rb (rw h refl) (rw ((batch_end-fields rb).0 e) e)
    | inr h ↦ record {
      result = rb;
      returned = lr_end_idle rb h e;
      no_batch = e;
      no_label = h;
      sent = λ l. o.answered l h;
    }
  ]
  | inr e ↦ Closed-busy b rb (rw e (not-last rb.has_label)) ((batch_end-fields rb).1 e).0
]

-- After any sequence of calls of `message`, `prefixed_message`, `reply`, `tagged_message`,
-- `lr_batch_begin` and `set_nick` on a new reply buffer, `lr_end` does not panic, closes the batch and
-- drops the label; and where the request had a label, something is sent in answer.
pub lr_end_total :
    (ops : List Op) (domain nick label : Text)
    → (rb : ReplyBuffer) × (lr_end (write_all ops (new_reply domain nick label)) ≡ some rb)
      × (rb.batch ≡ none)
      × (rb.has_label ≡ false)
      × (label ≢ [] → is_empty rb.buf ≡ false)
lr_end_total ops domain nick label =
    let c = lr_end-Closed _ _ (write_all-IsOpen _ ops _ (new_reply-IsOpen domain nick label)) in
    (c.result, c.returned, c.no_batch, c.no_label, λ l. c.sent (not-empty label l))
