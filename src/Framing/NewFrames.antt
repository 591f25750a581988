-- ===== src/Framing/NewFrames.antt =====
-- Which methods of the framer of src/commercialrchproxy/rch/framing.py add a frame to its events.
use commercial_rchproxy.Common.{
  ℕ, ◌+◌, true, false, List, [], ◌∷◌, ◌++◌, ◌≡◌, refl, sym, ap, ◌∙◌, inl, inr, length, append-nil,
  Bool-cases, ltb, leb, arith,
}
use commercial_rchproxy.Framing.Types.{
  FramingIssue, StreamEvent, RchFrame, AckEvent, IssueCode, Detail, frames,
}
use commercial_rchproxy.Framing.Framer.{
  Framer, buffered_bytes, advance, append_issue, add_issue, note_event_limit, append_event,
}
use commercial_rchproxy.Framing.Process.{
  count_acks, take_ack_run, take_one_ack, take_ack, frame_at, count_frame, keep_frame, take_frame,
}
use commercial_rchproxy.Framing.Tally.{note_issue_lem}

-- No frame is added; if `g` still retains all events, so did `f`.
pub record NoFrame (f g : Framer) : Type 0 where
  pub count : g.frame_count ≡ f.frame_count
  pub kept :
      g.events_truncated ≡ false
      → (f.events_truncated ≡ false) × (frames g.events ≡ frames f.events)

pub record NewFrame (f : Framer) (frame : RchFrame) (g : Framer) : Type 0 where
  pub count : g.frame_count ≡ f.frame_count + 1
  pub kept :
      g.events_truncated ≡ false
      → (f.events_truncated ≡ false) × (frames g.events ≡ frames f.events ++ (frame ∷ []))

frames-append : (es ds : List StreamEvent) → frames (es ++ ds) ≡ frames es ++ frames ds
unfolding frames
frames-append [] ds = refl
frames-append (StreamEvent.ack a ∷ es) ds = frames-append es ds
frames-append (StreamEvent.frame f ∷ es) ds = ap (◌∷◌ f) (frames-append es ds)

-- A method that adds neither a frame nor an event that is not retained.
append_issue-NoFrame : (f : Framer) (i : FramingIssue) → NoFrame f (append_issue f i)
unfolding append_issue
append_issue-NoFrame f i = ground arith

advance-NoFrame : (f : Framer) (n : ℕ) → NoFrame f (advance f n)
unfolding advance
advance-NoFrame f n = ground arith

note_event_limit-NoFrame : (f : Framer) (o : ℕ) → NoFrame f (note_event_limit f o)
unfolding note_event_limit append_issue
note_event_limit-NoFrame f o = ground arith

append_ack-NoFrame : (f : Framer) (a : AckEvent) → NoFrame f (append_event f (StreamEvent.ack a))
unfolding append_event append_issue frames
append_ack-NoFrame f a =
    ground (arith, frames-append f.events (StreamEvent.ack a ∷ []), append-nil (frames f.events))

append_frame-NewFrame :
    (f : Framer) (r : RchFrame)
    → ltb (length f.events) f.limits.max_events ≡ true
    → ((append_event f (StreamEvent.frame r)).frame_count ≡ f.frame_count)
      × ((append_event f (StreamEvent.frame r)).events_truncated ≡ f.events_truncated)
      × (frames (append_event f (StreamEvent.frame r)).events ≡ frames f.events ++ (r ∷ []))
unfolding append_event frames
append_frame-NewFrame f r room = ground (arith, frames-append f.events (StreamEvent.frame r ∷ []))

NoFrame-trans : {f g h : Framer} → NoFrame f g → NoFrame g h → NoFrame f h
NoFrame-trans a b = record {
  count = b.count ∙ a.count;
  kept = λ e. let (e', s) = b.kept e in let (e'', s') = a.kept e' in (e'', s ∙ s');
}

NewFrame-trans : {f g h : Framer} {r : RchFrame} → NewFrame f r g → NoFrame g h → NewFrame f r h
NewFrame-trans a b = record {
  count = b.count ∙ a.count;
  kept = λ e. let (e', s) = b.kept e in let (e'', s') = a.kept e' in (e'', s ∙ s');
}

pub add_issue-NoFrame :
    (f : Framer) (code : IssueCode) (n : ℕ) (d : Detail) → NoFrame f (add_issue f code n d)
unfolding add_issue
add_issue-NoFrame f code n d =
    NoFrame-trans (rw note_issue_lem (append_issue-NoFrame f _)) (advance-NoFrame _ n)

count_acks-NoFrame : (f : Framer) (n : ℕ) → NoFrame f (count_acks f n)
count_acks-NoFrame f n = record { count = refl; kept = λ e. (e, refl) }

pub take_ack-NoFrame : (f : Framer) → NoFrame f (take_ack f)
unfolding take_ack take_ack_run take_one_ack
take_ack-NoFrame f = elim (Bool-cases (leb f.limits.max_events (length f.events))) [
  | inl full ↦ rw full (
      NoFrame-trans (NoFrame-trans (advance-NoFrame f _) (count_acks-NoFrame _ _))
        (note_event_limit-NoFrame _ _))
  | inr room ↦ rw room (
      NoFrame-trans (NoFrame-trans (advance-NoFrame f _) (count_acks-NoFrame _ _))
        (append_ack-NoFrame _ _))
]

-- An event for which there was no room is noted.
noted-truncated : (f : Framer) (o : ℕ) → (note_event_limit f o).events_truncated ≡ true
unfolding note_event_limit append_issue
noted-truncated f o = ground arith

-- Counting a frame leaves the events alone.
count_frame_lem :
    (f : Framer) (n : ℕ)
    → ((count_frame f n).frame_count ≡ f.frame_count + 1)
      × ((count_frame f n).events ≡ f.events)
      × ((count_frame f n).events_truncated ≡ f.events_truncated)
      × ((count_frame f n).limits ≡ f.limits)
unfolding count_frame advance
count_frame_lem f n = ground arith

keep_frame-NewFrame :
    (f : Framer) (n : ℕ) → NewFrame f (frame_at f (buffered_bytes f) n) (keep_frame f n)
unfolding keep_frame
keep_frame-NewFrame f n =
    let (c, e, t, l) = count_frame_lem f n in
    let r = frame_at f (buffered_bytes f) n in
    elim (Bool-cases (ltb (length f.events) f.limits.max_events)) [
      | inl room ↦
          let (c', t', e') = append_frame-NewFrame (count_frame f n) r (rw (e, l) room) in
          rw room (record {
            count = c' ∙ c;
            kept = λ k. (sym t ∙ sym t' ∙ k, e' ∙ ap (λ es. frames es ++ (r ∷ [])) e);
          })
      | inr full ↦ rw full (record {
        count = (note_event_limit-NoFrame (count_frame f n) f.buffer_offset).count ∙ c;
        kept = λ k. cc (k, noted-truncated (count_frame f n) f.buffer_offset);
      })
    ]

pub take_frame-NewFrame :
    (f : Framer) (n : ℕ) → NewFrame f (frame_at f (buffered_bytes f) n) (take_frame f n)
unfolding take_frame
take_frame-NewFrame f n = elim (Bool-cases (frame_at f (buffered_bytes f) n).bcc_valid) [
  | inl valid ↦ simp valid (keep_frame-NewFrame f n)
  | inr wrong ↦ simp wrong (NewFrame-trans (keep_frame-NewFrame f n) (append_issue-NoFrame _ _))
]
