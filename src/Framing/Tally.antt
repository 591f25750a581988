-- ===== src/Framing/Tally.antt =====
-- What the framer of src/commercialrchproxy/rch/framing.py retains: its events and issues stay
-- within their limits, every event is counted, and frames are retained in stream order.
use commercial_rchproxy.Common.{
  ℕ, ◌+◌, ◌≤◌, ◌<◌, true, [], ◌∷◌, ◌≡◌, inl, inr, length, take, min, some, length-append,
  Bool-cases, ltb, leb, arith,
}
use commercial_rchproxy.Framing.Types.{FramingIssue, StreamEvent, IssueCode, Detail}
use commercial_rchproxy.Framing.Framer.{
  Framer, buffered_bytes, advance, append_issue, note_issue, add_issue, note_event_limit,
  append_event,
}
use commercial_rchproxy.Framing.Process.{
  count_acks, take_ack_run, take_one_ack, take_ack, frame_at, count_frame, keep_frame, take_frame,
}

pub record IsTallied (f : Framer) : Type 0 where
  pub events : length f.events ≤ f.limits.max_events
  pub issues : length f.issues ≤ f.limits.max_issues
  pub balance : f.event_count ≡ f.frame_count + f.ack_count
  pub omitted : 0 < f.omitted_issue_count → length f.issues ≡ f.limits.max_issues

append_issue-IsTallied :
    (f : Framer) (i : FramingIssue) → IsTallied f → IsTallied (append_issue f i)
unfolding append_issue
append_issue-IsTallied f i t = ground (arith, length-append f.issues (i ∷ []), t.omitted)

-- The test that `_issue` makes is made again by `_append_issue`.
pub note_issue_lem :
    (f : Framer) (code : IssueCode) (n : ℕ) (d : Detail)
    → note_issue f code n d
      ≡ append_issue f (record {
        code = code;
        stream_offset = f.buffer_offset;
        raw = take (min n f.limits.max_issue_raw_bytes) (buffered_bytes f);
        detail = d;
        span_length = some n;
      })
unfolding note_issue append_issue
note_issue_lem f code n d = ground arith

note_event_limit-IsTallied : (f : Framer) (o : ℕ) → IsTallied f → IsTallied (note_event_limit f o)
unfolding note_event_limit
note_event_limit-IsTallied f o t = elim (Bool-cases f.events_truncated) [
  | inl noted ↦ simp noted t
  | inr first ↦ simp first (
      append_issue-IsTallied (record f { events_truncated = true }) _
        (record { events = t.events; issues = t.issues; balance = t.balance; omitted = t.omitted }))
]

append_event-IsTallied : (f : Framer) (e : StreamEvent) → IsTallied f → IsTallied (append_event f e)
unfolding append_event
append_event-IsTallied f e t = elim (Bool-cases (ltb (length f.events) f.limits.max_events)) [
  | inl room ↦ rw room (record {
    events = ground (arith, length-append f.events (e ∷ []));
    issues = t.issues;
    balance = t.balance;
    omitted = t.omitted;
  })
  | inr full ↦ rw full (note_event_limit-IsTallied f _ t)
]

advance-IsTallied : (f : Framer) (n : ℕ) → IsTallied f → IsTallied (advance f n)
unfolding advance
advance-IsTallied f n t = ground (arith, t.omitted)

count_acks-IsTallied : (f : Framer) (n : ℕ) → IsTallied f → IsTallied (count_acks f n)
count_acks-IsTallied f n t = record {
  events = t.events;
  issues = t.issues;
  balance = omega (arith, t.balance);
  omitted = t.omitted;
}

pub add_issue-IsTallied :
    (f : Framer) (code : IssueCode) (n : ℕ) (d : Detail)
    → IsTallied f
    → IsTallied (add_issue f code n d)
unfolding add_issue
add_issue-IsTallied f code n d t =
    advance-IsTallied _ n (rw note_issue_lem (append_issue-IsTallied f _ t))

pub take_ack-IsTallied : (f : Framer) → IsTallied f → IsTallied (take_ack f)
unfolding take_ack take_ack_run take_one_ack
take_ack-IsTallied f t = elim (Bool-cases (leb f.limits.max_events (length f.events))) [
  | inl full ↦
      rw full (note_event_limit-IsTallied _ _ (count_acks-IsTallied _ _ (advance-IsTallied f _ t)))
  | inr room ↦
      rw room (append_event-IsTallied _ _ (count_acks-IsTallied _ _ (advance-IsTallied f _ t)))
]

count_frame-IsTallied : (f : Framer) (n : ℕ) → IsTallied f → IsTallied (count_frame f n)
unfolding count_frame
count_frame-IsTallied f n t = advance-IsTallied _ _ (record {
  events = t.events;
  issues = t.issues;
  balance = omega (arith, t.balance);
  omitted = t.omitted;
})

keep_frame-IsTallied : (f : Framer) (n : ℕ) → IsTallied f → IsTallied (keep_frame f n)
unfolding keep_frame
keep_frame-IsTallied f n t = elim (Bool-cases (ltb (length f.events) f.limits.max_events)) [
  | inl room ↦ rw room (append_event-IsTallied _ _ (count_frame-IsTallied f n t))
  | inr full ↦ rw full (note_event_limit-IsTallied _ _ (count_frame-IsTallied f n t))
]

pub take_frame-IsTallied : (f : Framer) (n : ℕ) → IsTallied f → IsTallied (take_frame f n)
unfolding take_frame
take_frame-IsTallied f n t = elim (Bool-cases (frame_at f (buffered_bytes f) n).bcc_valid) [
  | inl valid ↦ rw valid (keep_frame-IsTallied f n t)
  | inr wrong ↦ rw wrong (append_issue-IsTallied _ _ (keep_frame-IsTallied f n t))
]
