-- ===== src/Framing/Rounds.antt =====
-- A round of the loop of `_process` (src/commercialrchproxy/rch/framing.py) keeps the invariant.
use commercial_rchproxy.Common.{
  ℕ, ◌+◌, ◌≤◌, ◌<◌, Bool, true, some, List, [], ◌∷◌, ◌++◌, ◌≡◌, refl, sym, subst, some-injective,
  inl, inr, Bytes, length, Bool-cases, leb, arith, length-drop,
}
use commercial_rchproxy.Framing.Types.{frame_overhead, IssueCode, Detail}
use commercial_rchproxy.Framing.Framer.{Framer, buffered_bytes, available, add_issue}
use commercial_rchproxy.Framing.Scan.{Action}
use commercial_rchproxy.Framing.Process.{take_ack, frame_at, take_frame, perform}
use commercial_rchproxy.Framing.Moves.{
  Moved, add_issue-Moved, take_ack_run-Moved, take_one_ack-Moved, take_frame-Moved,
}
use commercial_rchproxy.Framing.Tally.{
  IsTallied, add_issue-IsTallied, take_ack-IsTallied, take_frame-IsTallied,
}
use commercial_rchproxy.Framing.NewFrames.{
  NoFrame, add_issue-NoFrame, take_ack-NoFrame, take_frame-NewFrame,
}
use commercial_rchproxy.Framing.Decisions.{GivesUp, Unfinished, IsFrame, IsSound}
use commercial_rchproxy.Framing.Reading.{
  IsWf, IsReading, place, Moved-IsWf, skip-IsReading, end-IsReading, frame-IsReading,
}

-- What a round of the loop of `_process` gives.
pub record Advances (final : Bool) (seen : Bytes) (f h : Framer) : Type 0 where
  pub found : List (ℕ × Bytes)
  pub wf : IsWf h
  pub reading : IsReading final seen found h
  pub limits : h.limits ≡ f.limits
  pub seen_same : h.bytes_seen ≡ f.bytes_seen
  pub finished : h.finished ≡ f.finished
  pub shorter : length (buffered_bytes h) < length (buffered_bytes f)

at_some :
    {final : Bool} {seen : Bytes} {f g h : Framer}
    → Advances final seen f g
    → some g ≡ some h
    → Advances final seen f h
at_some {final} {seen} {f} {g} {h} a e =
    subst (λ x. Advances final seen f x) (some-injective g h e) a

module _ {final : Bool} {seen : Bytes} {found : List (ℕ × Bytes)} {f : Framer} (w : IsWf f)
    (r : IsReading final seen found f) where
  pass-Advances :
      {h : Framer} {n : ℕ}
      → Moved f n h
      → GivesUp f.limits.max_data_length (buffered_bytes f) n
      → NoFrame f h
      → IsTallied h
      → Advances final seen f h
  pass-Advances m s nf t = record {
    found = found;
    wf = Moved-IsWf w m s.at_most t;
    reading = skip-IsReading final seen found m r s nf;
    limits = m.limits;
    seen_same = m.seen;
    finished = m.finished;
    shorter = rw m.bytes (omega (arith, length-drop _ (buffered_bytes f), s.some_byte, s.at_most));
  }

  issue-Advances :
      (code : IssueCode) (n : ℕ) (d : Detail)
      → GivesUp f.limits.max_data_length (buffered_bytes f) n
      → Advances final seen f (add_issue f code n d)
  issue-Advances code n d s =
      pass-Advances (add_issue-Moved f code n d w.fits s.at_most) s (add_issue-NoFrame f code n d)
        (add_issue-IsTallied f code n d w.tallied)

  end-Advances :
      (code : IssueCode) (d : Detail)
      → 1 ≤ length (buffered_bytes f)
      → final ≡ true
      → Unfinished f.limits.max_data_length (buffered_bytes f)
      → Advances final seen f (add_issue f code (available f) d)
  end-Advances code d some_left last u =
      let size = length-drop f.cursor f.buffer in
      let m = add_issue-Moved f code (available f) d w.fits (omega (arith, size)) in
      let t = add_issue-IsTallied f code (available f) d w.tallied in
      record {
        found = found;
        wf = Moved-IsWf w m (omega (arith, size)) t;
        reading =
            end-IsReading final seen found m r last (sym size) u
              (add_issue-NoFrame f code (available f) d);
        limits = m.limits;
        seen_same = m.seen;
        finished = m.finished;
        shorter = rw m.bytes (omega (arith, size, length-drop (available f) (buffered_bytes f)));
      }

  frame-Advances :
      (size : ℕ)
      → IsFrame f.limits.max_data_length (buffered_bytes f) size
      → Advances final seen f (take_frame f size)
  frame-Advances size s =
      let m = take_frame-Moved f size w.fits s.at_most in
      record {
        found = found ++ (place (frame_at f (buffered_bytes f) size) ∷ []);
        wf = Moved-IsWf w m s.at_most (take_frame-IsTallied f size w.tallied);
        reading = frame-IsReading final seen found m r size refl s (take_frame-NewFrame f size);
        limits = m.limits;
        seen_same = m.seen;
        finished = m.finished;
        shorter =
            rw m.bytes
              (omega (arith, s.at_most, length-drop (size + frame_overhead) (buffered_bytes f)));
      }

  ack-Advances :
      1 ≤ length (buffered_bytes f)
      → IsSound final f.limits.max_data_length (buffered_bytes f) Action.ack
      → Advances final seen f (take_ack f)
  unfolding take_ack
  ack-Advances some_left s = elim (Bool-cases (leb f.limits.max_events (length f.events))) [
    | inl full ↦ rw full (
        pass-Advances (take_ack_run-Moved f w.fits) s.0
          (rw (full, take_ack) at (take_ack-NoFrame f))
          (rw (full, take_ack) at (take_ack-IsTallied f w.tallied)))
    | inr room ↦ rw room (
        pass-Advances (take_one_ack-Moved f w.fits some_left) s.1
          (rw (room, take_ack) at (take_ack-NoFrame f))
          (rw (room, take_ack) at (take_ack-IsTallied f w.tallied)))
  ]

  -- A round that does not break keeps the invariant and consumes a byte.
  pub perform-Advances :
      (a : Action) {h : Framer}
      → 1 ≤ length (buffered_bytes f)
      → IsSound final f.limits.max_data_length (buffered_bytes f) a
      → perform f a ≡ some h
      → Advances final seen f h
  unfolding perform
  perform-Advances Action.wait some_left s e = cc
  perform-Advances Action.ack some_left s e = at_some (ack-Advances some_left s) e
  perform-Advances (Action.unframed n) some_left s e = at_some (issue-Advances _ n _ s) e
  perform-Advances Action.truncated_header some_left s e =
      at_some (end-Advances _ _ some_left s.0 s.1) e
  perform-Advances (Action.malformed n) some_left s e = at_some (issue-Advances _ n _ s) e
  perform-Advances (Action.oversize k n) some_left s e = at_some (issue-Advances _ n _ s) e
  perform-Advances (Action.truncated n) some_left s e =
      at_some (end-Advances _ _ some_left s.0 s.1) e
  perform-Advances (Action.unterminated k n) some_left s e = at_some (issue-Advances _ n _ s) e
  perform-Advances (Action.frame n) some_left s e = at_some (frame-Advances n s) e
