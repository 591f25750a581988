-- ===== src/Recorder/Flags.antt =====
-- A job that src/commercialrchproxy/capture/recorder.py has flagged as incomplete stays so.
use commercial_rchproxy.Common.{
  ℕ, Bool, true, false, Option, some, [], ◌∷◌, Bytes, length, ◌≡◌, arith,
}
use commercial_rchproxy.Capture.Types.{
  Direction, client_to_rch, rch_to_client, CapturedChunk, CaptureToken, CapturedJob, Clock,
  Observation,
}
use commercial_rchproxy.Capture.Jobs.{
  append, count_captured, admitted, keep, store, record_chunk, note_partial, mark_local_write_drain,
  count_drained, finish_job,
}
use commercial_rchproxy.Recorder.Progress.{is_flagged}

abbrev pub Flagged : CapturedJob → Type 0
Flagged j = is_flagged (some j) ≡ true

record_chunk-Flagged :
    (c : CapturedChunk) (j : CapturedJob) → Flagged j → Flagged (record_chunk c j).1
unfolding record_chunk
record_chunk-Flagged c j h = ground (arith, h)

keep-Flagged :
    (clock : Clock) (d : Direction) (p : Bytes) (o : Observation) (j : CapturedJob)
    → Flagged j
    → Flagged (keep clock d p o j).1
unfolding keep store
keep-Flagged clock d [] o j h = h
keep-Flagged clock client_to_rch (b ∷ p) o j h =
    record_chunk-Flagged _ (store client_to_rch (b ∷ p) o.retain_payload j) h
keep-Flagged clock rch_to_client (b ∷ p) o j h =
    record_chunk-Flagged _ (store rch_to_client (b ∷ p) o.retain_payload j) h

count_captured-Flagged :
    (d : Direction) (n : ℕ) (received : Option ℕ) (j : CapturedJob)
    → Flagged j
    → Flagged (count_captured d n received j)
unfolding count_captured
count_captured-Flagged client_to_rch n received j h = h
count_captured-Flagged rch_to_client n received j h = h

note_partial-Flagged :
    (partial : Bool) (j : CapturedJob) → Flagged j → Flagged (note_partial partial j)
unfolding note_partial
note_partial-Flagged true j h = ground (arith, h)
note_partial-Flagged false j h = h

pub append-Flagged :
    (clock : Clock) (d : Direction) (p : Bytes) (o : Observation) (j : CapturedJob)
    → Flagged j
    → Flagged (append clock d p o j).1
unfolding append
append-Flagged clock d [] o j h = h
append-Flagged clock d (b ∷ p) o j h =
    note_partial-Flagged _
      (keep clock d (admitted j (b ∷ p)) o
        (count_captured d (length (b ∷ p)) o.received_unix_ns j)).1
      (keep-Flagged clock d (admitted j (b ∷ p)) o _
        (count_captured-Flagged d (length (b ∷ p)) o.received_unix_ns j h))

count_drained-Flagged :
    (d : Direction) (n : ℕ) (j : CapturedJob) → Flagged j → Flagged (count_drained d n j)
unfolding count_drained
count_drained-Flagged client_to_rch n j h = h
count_drained-Flagged rch_to_client n j h = h

pub mark_local_write_drain-Flagged :
    (token : CaptureToken) (completed : Bool) (at : Option ℕ) (error : Option Bytes)
    (j : CapturedJob)
    → Flagged j
    → Flagged (mark_local_write_drain token completed at error j)
unfolding mark_local_write_drain
mark_local_write_drain-Flagged token true at error j h =
    count_drained-Flagged token.direction token.byte_count _ h
mark_local_write_drain-Flagged token false at error j h = h

pub finish_job-Flagged :
    (now : Bytes) (status : Option Bytes) (j : CapturedJob)
    → Flagged j
    → Flagged (finish_job now status j)
unfolding finish_job
finish_job-Flagged now status j h = h
