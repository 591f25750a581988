-- ===== src/Recorder/Types.antt =====
-- src/commercialrchproxy/capture/recorder.py: the state of `JobCaptureManager`, of its bounded queue
-- and of its live worker, for a storage with `begin_live`.
use commercial_rchproxy.Common.{ℕ, Bool, false, Option, none, List, [], Bytes}
use commercial_rchproxy.Capture.Types.{Direction, CapturedChunk, CapturedJob}

-- `storage_failure_policy`
pub data FailurePolicy : Type 0 where
  relay_continues abort : FailurePolicy

-- The tuples in the queue.
pub data Command : Type 0 where
  append_chunk : ℕ → Direction → Bytes → Option CapturedChunk → Command
  drain_chunk : ℕ → Bool → ℕ → Option Bytes → Command

-- The live worker: it has performed `written` commands on the spool, and may hold one more that it
-- took from the queue.
pub data Worker : Type 0 where
  not_started : Worker
  starting : Worker
  running : List Command → Option Command → Worker
  published : List Command → Worker
  closed_incomplete : List Command → Worker
  failed : List Command → Worker

pub record Settings : Type 0 where
  pub policy : FailurePolicy
  pub queue_items : ℕ
  pub max_payload_bytes : ℕ
  pub max_capture_events : ℕ
  pub job_id : ℕ

-- `job` is the object that the manager's `_active` and the worker share; `active` says whether
-- `_active` still refers to it. `waiting` is the command of a `put` that waits for room, while its
-- caller holds the lock.
pub record Manager : Type 0 where
  pub settings : Settings
  pub job : Option CapturedJob
  pub active : Bool
  pub closed : Bool
  pub event_sequence : ℕ
  pub client_offset : ℕ
  pub printer_offset : ℕ
  pub persist_errors : List Bytes
  pub queue : List Command
  pub waiting : Option Command
  pub finalize_requested : Bool
  pub capture_degraded : Bool
  pub worker : Worker
  pub jobs_failed : ℕ
  pub jobs_completed : ℕ

-- `__init__`
abbrev pub new_manager : Settings → Manager
new_manager settings = record {
  settings = settings;
  job = none;
  active = false;
  closed = false;
  event_sequence = 0;
  client_offset = 0;
  printer_offset = 0;
  persist_errors = [];
  queue = [];
  waiting = none;
  finalize_requested = false;
  capture_degraded = false;
  worker = not_started;
  jobs_failed = 0;
  jobs_completed = 0;
}
