-- ===== src/Framing/Finishing.antt =====
-- `finish` of src/commercialrchproxy/rch/framing.py, and what a framer has found at the end of a
-- stream.
use commercial_rchproxy.Common.{
  ◌≤◌, true, false, [], ◌++◌, ◌≡◌, refl, sym, ap, ◌∙◌, subst, inl, inr, Bytes, length,
  length-set_last, map, append-nil, Bool-cases, le→leb, ◌==◌, arith,
}
use commercial_rchproxy.Framing.Types.{frames, FramingResult}
use commercial_rchproxy.Framing.Framer.{Limits, Framer, finalize_omitted_issues}
use commercial_rchproxy.Framing.Process.{process, close, finish}
use commercial_rchproxy.Framing.Tally.{IsTallied}
use commercial_rchproxy.Framing.Spec.{frames_in}
use commercial_rchproxy.Framing.Reading.{place}
use commercial_rchproxy.Framing.Segmentation.{Settles, process-Settles}
use commercial_rchproxy.Framing.Feeding.{IsFed}

-- `_finalize_omitted_issues` changes the issues alone, and leaves them within their limit.
finalize_lem :
    (f : Framer)
    → ((finalize_omitted_issues f).events ≡ f.events)
      × ((finalize_omitted_issues f).frame_count ≡ f.frame_count)
      × ((finalize_omitted_issues f).ack_count ≡ f.ack_count)
      × ((finalize_omitted_issues f).event_count ≡ f.event_count)
      × ((finalize_omitted_issues f).events_truncated ≡ f.events_truncated)
      × ((finalize_omitted_issues f).bytes_seen ≡ f.bytes_seen)
      × ((finalize_omitted_issues f).limits ≡ f.limits)
unfolding finalize_omitted_issues
finalize_lem f = ground arith

finalize_issues :
    (f : Framer) → IsTallied f → length (finalize_omitted_issues f).issues ≤ f.limits.max_issues
unfolding finalize_omitted_issues
finalize_issues f t = elim (Bool-cases (f.omitted_issue_count == 0)) [
  | inl nothing ↦ simp nothing t.issues
  | inr some_omitted ↦
      let full = t.omitted (ground arith) in
      simp some_omitted (
        simp (le→leb f.limits.max_issues (length f.issues) (omega (arith, full)))
          (omega (arith, full, length-set_last f.issues _)))
]

-- The result of a framer that has read the bytes `seen`.
pub record IsComplete (l : Limits) (seen : Bytes) (r : FramingResult) : Type 0 where
  pub bytes : r.bytes_seen ≡ length seen
  pub frame_total : r.total_frame_count ≡ length (frames_in l.max_data_length 0 0 seen)
  pub retained :
      r.events_truncated ≡ false
      → map place (frames r.events) ≡ frames_in l.max_data_length 0 0 seen
  pub event_bound : length r.events ≤ l.max_events
  pub issue_bound : length r.issues ≤ l.max_issues

pub close_lem :
    (f : Framer) → f.finished ≡ false → close f ≡ record (process true f) { finished = true }
unfolding close
close_lem f h = simp h

-- At the end of the stream all its frames are found.
found_all :
    (l : Limits) (seen : Bytes) (f h : Framer)
    → h.limits ≡ l
    → (s : Settles true seen f h) → s.found ≡ frames_in l.max_data_length 0 0 seen
unfolding frames_in
found_all l seen f h e s =
    let a = s.reading.ahead [] refl in
    sym (
      ap (λ k. frames_in k.max_data_length 0 0 seen) (sym e)
      ∙ ap (frames_in h.limits.max_data_length 0 0) (sym (append-nil seen))
      ∙ a
      ∙ ap (λ b. s.found ++ frames_in h.limits.max_data_length 0 h.buffer_offset (b ++ []))
          s.at_rest
      ∙ append-nil s.found)

pub set_finished-IsTallied : (f : Framer) → IsTallied f → IsTallied (record f { finished = true })
set_finished-IsTallied f t = record {
  events = t.events;
  issues = t.issues;
  balance = t.balance;
  omitted = t.omitted;
}

pub finish-IsComplete :
    {l : Limits} {seen : Bytes} {f : Framer} → IsFed l seen f → IsComplete l seen (finish f).0
unfolding finish
finish-IsComplete {l} {seen} {f} r =
    let s = process-Settles true seen r.found f r.wf (record {
      ahead = λ q a. r.reading.ahead q tt;
      counted = r.reading.counted;
      kept = r.reading.kept;
    }) in
    let g : Framer = record (process true f) { finished = true } in
    let (events, frame_count, ack_count, event_count, truncated, bytes, limits) = finalize_lem g in
    let same_limits : g.limits ≡ l = s.limits ∙ r.limits in
    let all : s.found ≡ frames_in l.max_data_length 0 0 seen =
      found_all l seen f (process true f) same_limits s in
    rw (close_lem f r.open_yet) (record {
      bytes = bytes ∙ s.seen_same ∙ r.total;
      frame_total = frame_count ∙ sym s.reading.counted ∙ ap length all;
      retained =
          λ k. ap (λ es. map place (frames es)) events ∙ s.reading.kept (sym truncated ∙ k) ∙ all;
      event_bound = rw events (
          subst (λ k. length (process true f).events ≤ k.max_events) same_limits
            s.wf.tallied.events);
      issue_bound =
          subst (λ k. length (finalize_omitted_issues g).issues ≤ k.max_issues) same_limits
            (finalize_issues g (set_finished-IsTallied (process true f) s.wf.tallied));
    })

pub close-IsTallied :
    {l : Limits} {seen : Bytes} {f : Framer} → IsFed l seen f → IsTallied (close f)
close-IsTallied {l} {seen} {f} r =
    let s = process-Settles true seen r.found f r.wf (record {
      ahead = λ q a. r.reading.ahead q tt;
      counted = r.reading.counted;
      kept = r.reading.kept;
    }) in
    rw (close_lem f r.open_yet) (set_finished-IsTallied (process true f) s.wf.tallied)
