-- ===== src/Recorder/Tests.antt =====
-- The recorder on a short session, and its properties at concrete inputs.
use commercial_rchproxy.Common.{true, false, none, some, List, [], ◌∷◌, ◌++◌, ◌≡◌, refl}
use commercial_rchproxy.Capture.Types.{client_to_rch, Clock}
use commercial_rchproxy.Capture.Jobs.{
  append, note_partial, keep, record_chunk, store, count_captured,
}
use commercial_rchproxy.Recorder.Types.{
  relay_continues, abort, drain_chunk, failed, Command, Settings, Manager, new_manager, running,
  published,
}
use commercial_rchproxy.Recorder.Manager.{
  record_chunk_event, close_manager, finalize, submit, enqueue_stream, ensure_job, observe_chunk,
  ensure_with, make_job, advance_offset,
}
use commercial_rchproxy.Recorder.Worker.{worker_step, worker_next, take_command, close_live}
use commercial_rchproxy.Recorder.Steps.{
  commands_of, Reached, begins, steps, records, closes, finalizes, works,
}
use commercial_rchproxy.Recorder.Progress.{taken, has_ended}
use commercial_rchproxy.Recorder.Blocking.{IsBlocked, here, after, Later-IsBlocked}
use commercial_rchproxy.Recorder.Published.{
  published-issued, unflagged-issued, has_ended-work, work, steps_for,
}

abbrev clock : Clock
clock = record { utc_now = 50 ∷ []; monotonic_now = 7; sha256 = λ bytes. bytes }

abbrev settings : Settings
settings = record {
  policy = relay_continues;
  queue_items = 2;
  max_payload_bytes = 100;
  max_capture_events = 10;
  job_id = 1;
}

abbrev at_start : Manager
at_start = new_manager settings

-- One chunk of the client is recorded.
abbrev observed_one : Manager
observed_one = (record_chunk_event clock client_to_rch (65 ∷ []) 9 none at_start).2

abbrev issued_one : List Command
issued_one = commands_of (record_chunk_event clock client_to_rch (65 ∷ []) 9 none at_start).1

observed_one-Reached : Reached settings issued_one observed_one
observed_one-Reached = steps begins (records clock client_to_rch (65 ∷ []) 9 none refl)

-- The command that the spool is to perform.
abbrev first_command : Command
first_command =
    let (j, n) = ensure_job 9 at_start in (observe_chunk clock client_to_rch (65 ∷ []) 9 none j n).1

abbrev finalized : Manager
finalized = finalize [] none (close_manager observed_one)

abbrev opened : Manager
opened = record finalized { worker = running [] none }

abbrev holding : Manager
holding = record finalized { queue = []; worker = running [] (some first_command) }

abbrev written_one : Manager
written_one = record finalized { queue = []; worker = running (first_command ∷ []) none }

abbrev published_one : Manager
published_one = record finalized {
  queue = [];
  worker = published (first_command ∷ []);
  jobs_completed = 1;
}

finalized-Reached : Reached settings ((issued_one ++ []) ++ []) finalized
unfolding worker_step worker_next take_command close_live finalize close_manager record_chunk_event
    submit enqueue_stream ensure_job ensure_with make_job observe_chunk advance_offset
finalized-Reached = steps (steps observed_one-Reached closes) (finalizes [] none refl refl)

step_opened : worker_step finalized ≡ some opened
unfolding worker_step worker_next take_command close_live finalize close_manager record_chunk_event
    submit enqueue_stream ensure_job ensure_with make_job observe_chunk advance_offset
step_opened = refl

step_holding : worker_step opened ≡ some holding
unfolding worker_step worker_next take_command close_live finalize close_manager record_chunk_event
    submit enqueue_stream ensure_job ensure_with make_job observe_chunk advance_offset
step_holding = refl

step_written : worker_step holding ≡ some written_one
unfolding worker_step worker_next
step_written = refl

step_published : worker_step written_one ≡ some published_one
unfolding worker_step worker_next take_command close_live finalize close_manager record_chunk_event
    submit enqueue_stream ensure_job ensure_with make_job observe_chunk advance_offset
step_published = refl

published_one-Reached :
    Reached settings ((((((issued_one ++ []) ++ []) ++ []) ++ []) ++ []) ++ []) published_one
published_one-Reached =
    steps
      (steps (steps (steps finalized-Reached (works step_opened)) (works step_holding))
        (works step_written))
      (works step_published)

published-issued_example :
    (first_command ∷ [] ≡ (((((issued_one ++ []) ++ []) ++ []) ++ []) ++ []) ++ [])
    × (published_one.capture_degraded ≡ false)
published-issued_example = published-issued (first_command ∷ []) published_one-Reached refl

unflagged-issued_example :
    taken observed_one.worker ++ (observed_one.queue ++ commands_of observed_one.waiting)
    ≡ issued_one
unfolding worker_step worker_next take_command close_live finalize close_manager record_chunk_event
    submit enqueue_stream ensure_job ensure_with make_job observe_chunk advance_offset append
    note_partial keep record_chunk store count_captured
unflagged-issued_example = unflagged-issued observed_one-Reached refl

has_ended-work_example : has_ended (work (steps_for (first_command ∷ [])) opened).worker ≡ true
unfolding worker_step worker_next take_command close_live finalize close_manager record_chunk_event
    submit enqueue_stream ensure_job ensure_with make_job observe_chunk advance_offset
has_ended-work_example = has_ended-work (first_command ∷ []) [] opened refl refl refl

-- The spool cannot be opened, when the queue is full and a caller waits.
abbrev blocked : Manager
blocked = record (new_manager (record settings { policy = abort; queue_items = 1 })) {
  active = true;
  queue = drain_chunk 1 true 5 none ∷ [];
  waiting = some (drain_chunk 2 true 6 none);
  worker = failed [];
  persist_errors = (69 ∷ []) ∷ [];
}

Later-IsBlocked_example : IsBlocked (drain_chunk 2 true 6 none) (close_manager blocked)
Later-IsBlocked_example =
    Later-IsBlocked (record { waits = refl; is_full = refl; written = []; has_failed = refl })
      (after closes here)
