-- ===== src/Recorder/Worker.antt =====
-- src/commercialrchproxy/capture/recorder.py: `_live_worker`, a step at a time. Whether an operation
-- of the spool succeeds is an input.
use commercial_rchproxy.Common.{◌+◌, Option, none, some, List, [], ◌∷◌, ◌++◌, Bytes, if◌then◌else◌}
use commercial_rchproxy.Capture.Types.{live_spool_failure}
use commercial_rchproxy.Recorder.Types.{
  Command, Worker, starting, running, published, closed_incomplete, failed, Manager,
}
use commercial_rchproxy.Recorder.Manager.{flag_partial, on_job}

-- `_record_storage_failure`, when so many commands are written
unfoldable pub record_storage_failure : Bytes → List Command → Manager → Manager
record_storage_failure error written m = record m {
  persist_errors = m.persist_errors ++ (error ∷ []);
  job = on_job (flag_partial (live_spool_failure error)) m.job;
  jobs_failed = m.jobs_failed + 1;
  worker = failed written;
}

-- The end of the queue: a capture that is degraded is closed and not published.
unfoldable pub close_live : List Command → Manager → Manager
close_live written m =
    if m.capture_degraded
    then record m { worker = closed_incomplete written }
    else record m { worker = published written; jobs_completed = m.jobs_completed + 1 }

-- The worker takes a command, or ends once it is asked to and the queue is empty.
unfoldable pub take_command : List Command → List Command → Manager → Option Manager
take_command (c ∷ cs) written m = some (record m { queue = cs; worker = running written (some c) })
take_command [] written m = if m.finalize_requested then some (close_live written m) else none

unfoldable pub worker_next : Worker → Manager → Option Manager
worker_next starting m = some (record m { worker = running [] none })
worker_next (running written (some c)) m =
    some (record m { worker = running (written ++ (c ∷ [])) none })
worker_next (running written none) m = take_command m.queue written m
worker_next _ m = none

-- What the worker does next, with no error; `none` is that it waits, or has ended.
unfoldable pub worker_step : Manager → Option Manager
worker_step m = worker_next m.worker m

unfoldable pub error_next : Worker → Bytes → Manager → Option Manager
error_next starting error m = some (record_storage_failure error [] m)
error_next (running written held) error m = some (record_storage_failure error written m)
error_next _ error m = none

-- The operation of the spool that the worker is about to do raises.
unfoldable pub worker_error : Bytes → Manager → Option Manager
worker_error error m = error_next m.worker error m
