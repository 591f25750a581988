-- ===== src/Proxy/Pump.antt =====
-- src/commercialrchproxy/proxy/streams.py: `pump`. What the sockets and the recorder answer in each
-- round is an input.
use commercial_rchproxy.Common.{
  ℕ, ◌+◌, Bool, true, false, ◌&&◌, Option, none, some, List, [], ◌∷◌, ◌++◌, Bytes, codes, length,
  if◌then◌else◌,
}
use commercial_rchproxy.Recorder.Types.{FailurePolicy}
use commercial_rchproxy.Recorder.Manager.{is_abort}

-- What `recorder.record` does: a token, no token, an exception (an `OSError` or one like it, or
-- another), or cancellation.
pub data CaptureAnswer : Type 0 where
  token_given no_token : CaptureAnswer
  capture_raised : Bool → Bytes → CaptureAnswer
  capture_cancelled : CaptureAnswer

-- What `writer.drain()` does within the time limit.
pub data DrainAnswer : Type 0 where
  drained : DrainAnswer
  drain_raised : Bytes → DrainAnswer
  drain_cancelled : DrainAnswer

-- What a read returns and what follows from it: a chunk with the answers of its round, where
-- `mark_raises` says whether `mark_local_write_drain` raises, or the end of the stream with the
-- error of the half-close, or an error or cancellation of the read.
pub data Event : Type 0 where
  chunk : Bytes → CaptureAnswer → DrainAnswer → Bool → Event
  end_of_stream : Option Bytes → Event
  read_raised : Bytes → Event
  read_cancelled : Event

pub data EndedBy : Type 0 where
  eof half_close_error cancelled transport_error uncaught still_running : EndedBy

-- The result, with the bytes that were written to the peer and the drains that were marked.
pub record Pumped : Type 0 where
  pub written : Bytes
  pub marks : List Bool
  pub total : ℕ
  pub ended_by : EndedBy
  pub error : Option Bytes

abbrev pub ended : Bytes → List Bool → ℕ → EndedBy → Option Bytes → Pumped
ended written marks total ended_by error = record {
  written = written;
  marks = marks;
  total = total;
  ended_by = ended_by;
  error = error;
}

-- The error of a pump that is cancelled.
abbrev pub cancelled_error : Option Bytes
cancelled_error = some (codes "cancelled_by_session_tail_timeout_or_shutdown")

-- The drain is marked if the recorder gave a token; whether that raises.
abbrev pub has_token : CaptureAnswer → Bool
has_token token_given = true
has_token _ = false

abbrev pub mark : CaptureAnswer → Bool → List Bool → List Bool
mark capture completed marks = if has_token capture then marks ++ (completed ∷ []) else marks

-- How a round ends the pump before it drains: an exception of the recorder counts with policy
-- `abort` only.
unfoldable pub capture_end : FailurePolicy → CaptureAnswer → Option (EndedBy × Option Bytes)
capture_end policy capture_cancelled = some (cancelled, cancelled_error)
capture_end policy (capture_raised is_os_error why) =
    if is_abort policy
    then some (if is_os_error then (transport_error, some why) else (uncaught, some why))
    else none
capture_end policy _ = none

-- The drain of a round that writes `written` in all, where `next` is the result if the loop goes on.
unfoldable pub drain_round :
    CaptureAnswer → DrainAnswer → Bool → Bytes → List Bool → ℕ → Pumped → Pumped
drain_round capture drained mark_raises written marks total next =
    if has_token capture && mark_raises
    then ended written (mark capture true marks) total uncaught none
    else next
drain_round capture (drain_raised why) mark_raises written marks total next =
    if has_token capture && mark_raises
    then ended written (mark capture false marks) total uncaught none
    else ended written (mark capture false marks) total transport_error (some why)
drain_round capture drain_cancelled mark_raises written marks total next =
    if has_token capture && mark_raises
    then ended written (mark capture false marks) total uncaught none
    else ended written (mark capture false marks) total cancelled cancelled_error

unfoldable pub capture_round :
    FailurePolicy → CaptureAnswer → DrainAnswer → Bool → Bytes → List Bool → ℕ → Pumped → Pumped
unfolding capture_end drain_round
capture_round policy capture drain mark_raises written marks total next =
    elim (capture_end policy capture) [
      | some (ended_by, why) ↦ ended written marks total ended_by why
      | none ↦ drain_round capture drain mark_raises written marks total next
    ]

-- `pump`, from `total` bytes that are counted so far
unfoldable pub pump : FailurePolicy → Bytes → List Bool → ℕ → List Event → Pumped
unfolding capture_round
pump policy written marks total [] = ended written marks total still_running none
pump policy written marks total (end_of_stream none ∷ events) = ended written marks total eof none
pump policy written marks total (end_of_stream (some why) ∷ events) =
    ended written marks total half_close_error (some why)
pump policy written marks total (read_raised why ∷ events) =
    ended written marks total transport_error (some why)
pump policy written marks total (read_cancelled ∷ events) =
    ended written marks total cancelled cancelled_error
pump policy written marks total (chunk payload capture drain mark_raises ∷ events) =
    capture_round policy capture drain mark_raises (written ++ payload) marks total
      (pump policy (written ++ payload) (mark capture true marks) (total + length payload) events)
