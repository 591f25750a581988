-- ===== src/Framing/Moves.antt =====
-- How the methods of the framer move in its buffer: each consumes a number of bytes at the front
-- of the buffered bytes, or touches no byte at all.
use commercial_rchproxy.Common.{
  ℕ, ◌+◌, ◌≤◌, ◌≡◌, refl, sym, ◌∙◌, inl, inr, [], ◌∷◌, Bytes, length, drop, drop-drop, drop_all,
  length-drop, ◌==◌, Bool-cases, ltb, arith,
}
use commercial_rchproxy.Framing.Types.{frame_overhead, FramingIssue, StreamEvent, IssueCode, Detail}
use commercial_rchproxy.Framing.Framer.{
  Framer, buffered_bytes, advance, append_issue, note_issue, add_issue, note_event_limit,
  append_event,
}
use commercial_rchproxy.Framing.Process.{
  ack_run, count_acks, take_ack_run, take_one_ack, frame_at, count_frame, keep_frame, take_frame,
}

-- What reads the stream is the same in both.
pub record SameInput (f g : Framer) : Type 0 where
  pub limits : g.limits ≡ f.limits
  pub buffer : g.buffer ≡ f.buffer
  pub cursor : g.cursor ≡ f.cursor
  pub offset : g.buffer_offset ≡ f.buffer_offset
  pub seen : g.bytes_seen ≡ f.bytes_seen
  pub finished : g.finished ≡ f.finished

-- `g` is `f` with `n` bytes consumed.
pub record Moved (f : Framer) (n : ℕ) (g : Framer) : Type 0 where
  pub limits : g.limits ≡ f.limits
  pub bytes : buffered_bytes g ≡ drop n (buffered_bytes f)
  pub offset : g.buffer_offset ≡ f.buffer_offset + n
  pub seen : g.bytes_seen ≡ f.bytes_seen
  pub fits : g.cursor ≤ length g.buffer
  pub finished : g.finished ≡ f.finished

pub append_issue-SameInput : (f : Framer) (i : FramingIssue) → SameInput f (append_issue f i)
unfolding append_issue
append_issue-SameInput f i = ground arith

pub note_event_limit-SameInput : (f : Framer) (o : ℕ) → SameInput f (note_event_limit f o)
unfolding note_event_limit
note_event_limit-SameInput f o = ground arith

pub note_issue-SameInput :
    (f : Framer) (code : IssueCode) (n : ℕ) (detail : Detail)
    → SameInput f (note_issue f code n detail)
unfolding note_issue
note_issue-SameInput f code n detail = ground arith

pub append_event-SameInput : (f : Framer) (e : StreamEvent) → SameInput f (append_event f e)
unfolding append_event
append_event-SameInput f e = ground arith

-- A move, and then a method that touches no byte.
pub Moved-SameInput : {f g h : Framer} {n : ℕ} → Moved f n g → SameInput g h → Moved f n h
Moved-SameInput m s = record {
  limits = s.limits ∙ m.limits;
  bytes = rw (s.cursor, s.buffer) m.bytes;
  offset = s.offset ∙ m.offset;
  seen = s.seen ∙ m.seen;
  fits = rw (s.cursor, s.buffer) m.fits;
  finished = s.finished ∙ m.finished;
}

pub SameInput-Moved : {f g h : Framer} {n : ℕ} → SameInput f g → Moved g n h → Moved f n h
SameInput-Moved s m = record {
  limits = m.limits ∙ s.limits;
  bytes = rw (s.cursor, s.buffer) at m.bytes;
  offset = rw s.offset at m.offset;
  seen = m.seen ∙ s.seen;
  fits = m.fits;
  finished = m.finished ∙ s.finished;
}

pub advance-Moved :
    (f : Framer) (n : ℕ)
    → f.cursor ≤ length f.buffer
    → n ≤ length (buffered_bytes f)
    → Moved f n (advance f n)
unfolding advance
advance-Moved f n fits room = elim (Bool-cases (f.cursor + n == length f.buffer)) [
  | inl all ↦ rw all (record {
    limits = refl;
    bytes = sym (drop-drop n f.cursor f.buffer ∙ drop_all (f.cursor + n) f.buffer (ground arith));
    offset = refl;
    seen = refl;
    fits = omega arith;
    finished = refl;
  })
  | inr some_left ↦ rw some_left (record {
    limits = refl;
    bytes = sym (drop-drop n f.cursor f.buffer);
    offset = refl;
    seen = refl;
    fits = omega (arith, length-drop f.cursor f.buffer);
    finished = refl;
  })
]

pub add_issue-Moved :
    (f : Framer) (code : IssueCode) (n : ℕ) (detail : Detail)
    → f.cursor ≤ length f.buffer
    → n ≤ length (buffered_bytes f)
    → Moved f n (add_issue f code n detail)
unfolding add_issue
add_issue-Moved f code n detail fits room =
    let s = note_issue-SameInput f code n detail in
    SameInput-Moved s (
      advance-Moved (note_issue f code n detail) n (rw (s.cursor, s.buffer) fits)
        (rw (s.cursor, s.buffer) room))

count_acks-SameInput : (f : Framer) (n : ℕ) → SameInput f (count_acks f n)
count_acks-SameInput f n = record {
  limits = refl;
  buffer = refl;
  cursor = refl;
  offset = refl;
  seen = refl;
  finished = refl;
}

-- The run of ACK bytes lies in the buffered bytes.
pub ack_run-le : (p : Bytes) → ack_run p ≤ length p
unfolding ack_run
ack_run-le [] = omega arith
ack_run-le (b ∷ p) = ground (arith, ack_run-le p)

pub take_ack_run-Moved :
    (f : Framer)
    → f.cursor ≤ length f.buffer
    → Moved f (ack_run (buffered_bytes f)) (take_ack_run f)
unfolding take_ack_run
take_ack_run-Moved f fits =
    let n = ack_run (buffered_bytes f) in
    let g = advance f n in
    let m = advance-Moved f n fits (ack_run-le (buffered_bytes f)) in
    Moved-SameInput (Moved-SameInput m (count_acks-SameInput g n))
      (note_event_limit-SameInput (count_acks g n) f.buffer_offset)

pub take_one_ack-Moved :
    (f : Framer)
    → f.cursor ≤ length f.buffer
    → 1 ≤ length (buffered_bytes f)
    → Moved f 1 (take_one_ack f)
unfolding take_one_ack
take_one_ack-Moved f fits room =
    let g = advance f 1 in
    Moved-SameInput (Moved-SameInput (advance-Moved f 1 fits room) (count_acks-SameInput g 1))
      (append_event-SameInput (count_acks g 1) _)

module _ (f : Framer) (data_length : ℕ) (fits : f.cursor ≤ length f.buffer)
    (room : data_length + frame_overhead ≤ length (buffered_bytes f)) where
  pub count_frame-Moved : Moved f (data_length + frame_overhead) (count_frame f data_length)
  unfolding count_frame
  count_frame-Moved =
      let g = record f { event_count = f.event_count + 1; frame_count = f.frame_count + 1 } in
      let m = advance-Moved g (data_length + frame_overhead) fits room in
      SameInput-Moved {g = g}
        (record {
          limits = refl;
          buffer = refl;
          cursor = refl;
          offset = refl;
          seen = refl;
          finished = refl;
        })
        m

  pub keep_frame-Moved : Moved f (data_length + frame_overhead) (keep_frame f data_length)
  unfolding keep_frame
  keep_frame-Moved =
      let g = count_frame f data_length in
      elim (Bool-cases (ltb (length f.events) f.limits.max_events)) [
        | inl kept ↦ rw kept (Moved-SameInput count_frame-Moved (append_event-SameInput g _))
        | inr full ↦ rw full (Moved-SameInput count_frame-Moved (note_event_limit-SameInput g _))
      ]

  pub take_frame-Moved : Moved f (data_length + frame_overhead) (take_frame f data_length)
  unfolding take_frame
  take_frame-Moved =
      let g = keep_frame f data_length in
      elim (Bool-cases (frame_at f (buffered_bytes f) data_length).bcc_valid) [
        | inl valid ↦ rw valid keep_frame-Moved
        | inr wrong ↦ rw wrong (Moved-SameInput keep_frame-Moved (append_issue-SameInput g _))
      ]
