-- ===== src/Recorder/Manager.antt =====
-- src/commercialrchproxy/capture/recorder.py: what the session calls, `record`,
-- `mark_local_write_drain` and `finalize`. The session's calls hold the lock.
use commercial_rchproxy.Common.{
  ℕ, zero, suc, ◌+◌, ◌-◌, Bool, true, false, ◌&&◌, ◌||◌, Option, none, some, List, [], ◌∷◌, ◌++◌,
  Bytes, length, take, ltb, ◌==◌, if◌then◌else◌, max, min, ◌/◌,
}
use commercial_rchproxy.Capture.Types.{
  Direction, client_to_rch, rch_to_client, CapturedChunk, CaptureToken, CapturedJob, Clock,
  Observation, new_job, Reason, queue_exhausted,
}
use commercial_rchproxy.Capture.Jobs.{append, mark_local_write_drain, finish_job, stored_in}
use commercial_rchproxy.Recorder.Types.{
  FailurePolicy, relay_continues, abort, Command, append_chunk, drain_chunk, starting, Manager,
}

-- The size of the queue for a configured buffer size.
abbrev pub queue_items : ℕ → ℕ
queue_items buffer_size = max 1 (min 256 (8388608 / buffer_size))

abbrev pub is_abort : FailurePolicy → Bool
is_abort relay_continues = false
is_abort abort = true

abbrev pub any_error : List Bytes → Bool
any_error [] = false
any_error (e ∷ es) = true

-- What an error reason is joined to.
abbrev pub flag_partial : Reason → CapturedJob → CapturedJob
flag_partial reason j = record j {
  capture_complete = false;
  timeline_complete = false;
  capture_error = j.capture_error ++ (reason ∷ []);
  timeline_error = j.timeline_error ++ (reason ∷ []);
}

abbrev pub on_job : (CapturedJob → CapturedJob) → Option CapturedJob → Option CapturedJob
on_job f none = none
on_job f (some j) = some (f j)

-- `_mark_capture_degraded`
unfoldable pub mark_capture_degraded : Manager → Manager
mark_capture_degraded m = if m.capture_degraded then m else record m {
  capture_degraded = true;
  job = on_job (flag_partial queue_exhausted) m.job;
  jobs_failed = m.jobs_failed + 1;
}

-- `_enqueue_stream`: with policy `abort` the caller waits for room.
unfoldable pub enqueue_stream : Command → Manager → Manager
enqueue_stream command m =
    if ltb (length m.queue) m.settings.queue_items
    then record m { queue = m.queue ++ (command ∷ []) }
    else if is_abort m.settings.policy
    then record m { waiting = some command }
    else mark_capture_degraded m

-- The test before a command is queued.
unfoldable pub submit : Command → Manager → Manager
unfolding enqueue_stream
submit command m =
    if any_error m.persist_errors || m.capture_degraded then m else enqueue_stream command m

unfoldable pub make_job : ℕ → Manager → CapturedJob × Manager
make_job received m =
    let j =
      new_job m.settings.job_id received m.settings.max_payload_bytes
        m.settings.max_capture_events in
    (j, record m { job = some j; active = true; worker = starting })

unfoldable pub ensure_with : Option CapturedJob → ℕ → Manager → CapturedJob × Manager
ensure_with none received m = make_job received m
ensure_with (some j) received m = if m.active then (j, m) else make_job received m

-- The first call of `record` makes the job and starts the live worker.
unfoldable pub ensure_job : ℕ → Manager → CapturedJob × Manager
ensure_job received m = ensure_with m.job received m

abbrev pub offset_of : Direction → Manager → ℕ
offset_of client_to_rch m = m.client_offset
offset_of rch_to_client m = m.printer_offset

unfoldable pub advance_offset : Direction → ℕ → Manager → Manager
advance_offset client_to_rch n m = record m { client_offset = m.client_offset + n }
advance_offset rch_to_client n m = record m { printer_offset = m.printer_offset + n }

-- The chunk at the index that `append` returned.
unfoldable pub chunk_at : Option ℕ → List CapturedChunk → Option CapturedChunk
chunk_at none cs = none
chunk_at (some i) [] = none
chunk_at (some zero) (c ∷ cs) = some c
chunk_at (some (suc i)) (c ∷ cs) = chunk_at (some i) cs

-- The observation that `record` passes on: the live spool keeps the payload.
abbrev pub observation : ℕ → ℕ → Clock → ℕ → Option ℕ → Observation
observation sequence offset clock received forwarded = record {
  sequence = some sequence;
  session_offset = some offset;
  timestamp = none;
  observed_monotonic_ns = some clock.monotonic_now;
  received_unix_ns = some received;
  forwarded_unix_ns = forwarded;
  retain_payload = false;
}

-- The part of `record` between the tests and the queue: the job, the token and the command.
unfoldable pub observe_chunk :
    Clock
    → Direction
    → Bytes
    → ℕ
    → Option ℕ
    → CapturedJob
    → Manager
    → CaptureToken × Command × Manager
observe_chunk clock direction payload received forwarded j m =
    let sequence = m.event_sequence + 1 in
    let before = stored_in direction j in
    let (index, k) =
      append clock direction payload
        (observation sequence (offset_of direction m) clock received forwarded) j in
    let stored = take (stored_in direction k - before) payload in
    let token : CaptureToken = record {
      job_id = j.job_id;
      chunk_index = index;
      direction = direction;
      byte_count = length payload;
      sequence = some sequence;
    } in
    (
      token,
      append_chunk sequence direction stored (chunk_at index k.chunks),
      advance_offset direction (length payload)
          (record m { event_sequence = sequence; job = some k }),
    )

pub data Outcome : Type 0 where
  ignored : Outcome
  recorded : CaptureToken → Outcome
  raised : Outcome

-- What a call of the session leaves: its outcome, the command that it has for the spool, if any,
-- and the manager.
abbrev pub Called : Type 0
Called = Outcome × Option Command × Manager

-- `record`, with its command submitted
unfoldable pub record_chunk_event : Clock → Direction → Bytes → ℕ → Option ℕ → Manager → Called
record_chunk_event clock direction [] received forwarded m = (ignored, none, m)
record_chunk_event clock direction (b ∷ bs) received forwarded m =
    if m.closed
    then (ignored, none, m)
    else let (j, n) = ensure_job received m in
      if any_error n.persist_errors && is_abort n.settings.policy
      then (raised, none, n)
      else let (token, command, k) =
          observe_chunk clock direction (b ∷ bs) received forwarded j n in
        (recorded token, some command, submit command k)

abbrev pub is_job : ℕ → Option CapturedJob → Bool
is_job id none = false
is_job id (some j) = j.job_id == id

abbrev pub drain_command : CaptureToken → Bool → ℕ → Option Bytes → Option Command
drain_command token completed at error = elim token.sequence [
  | none ↦ none
  | some s ↦ some (drain_chunk s completed at error)
]

unfoldable pub submit_some : Option Command → Manager → Manager
submit_some none m = m
submit_some (some command) m = submit command m

unfoldable pub mark_active : CaptureToken → Bool → ℕ → Option Bytes → Manager → Called
mark_active token completed at error m =
    let command = drain_command token completed at error in
    let submitted =
      submit_some command (record m {
        job = on_job (mark_local_write_drain token completed (some at) error) m.job;
      }) in
    let outcome =
      if any_error submitted.persist_errors && is_abort submitted.settings.policy
      then raised
      else ignored in
    (outcome, command, submitted)

-- `mark_local_write_drain`; the outcome is that of a `put` that does not wait.
unfoldable pub mark_drain : CaptureToken → Bool → ℕ → Option Bytes → Manager → Called
mark_drain token completed at error m =
    if m.active && is_job token.job_id m.job
    then mark_active token completed at error m
    else (ignored, none, m)

-- The first assignment of `finalize`, which does not wait for the lock.
unfoldable pub close_manager : Manager → Manager
close_manager m = record m { closed = true }

-- The rest of `finalize`, with the lock.
unfoldable pub finalize : Bytes → Option Bytes → Manager → Manager
finalize now status m =
    if m.active
    then record m {
      active = false;
      job = on_job (finish_job now status) m.job;
      finalize_requested = true;
    }
    else m
