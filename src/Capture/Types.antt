-- ===== src/Capture/Types.antt =====
-- src/commercialrchproxy/capture/jobs.py: `CapturedChunk`, `CaptureToken` and the fields of
-- `CapturedJob` that its methods read or change. A time that the source reads from the clock is a
-- field of `Clock`.
use commercial_rchproxy.Common.{ℕ, Bool, true, Option, none, List, [], Bytes}

-- `CLIENT_TO_RCH` and `RCH_TO_CLIENT`
pub data Direction : Type 0 where
  client_to_rch rch_to_client : Direction

pub record CapturedChunk : Type 0 where
  pub sequence : ℕ
  pub direction : Direction
  pub timestamp : Bytes
  pub monotonic_ns : ℕ
  pub offset : ℕ
  pub session_offset : ℕ
  pub payload : Bytes
  pub byte_count : ℕ
  pub data_sha256 : Bytes
  pub received_unix_ns : Option ℕ
  pub forwarded_unix_ns : Option ℕ
  pub drain_unix_ns : Option ℕ
  pub local_write_drain_completed : Option Bool
  pub forward_error : Option Bytes

pub record CaptureToken : Type 0 where
  pub job_id : ℕ
  pub chunk_index : Option ℕ
  pub direction : Direction
  pub byte_count : ℕ
  pub sequence : Option ℕ

-- The messages of `capture_error` and `timeline_error`; the recorder joins several with `; `.
pub data Reason : Type 0 where
  payload_limit_exceeded : Reason
  capture_event_limit_exceeded : ℕ → Reason
  queue_exhausted : Reason
  live_spool_failure : Bytes → Reason

-- The statuses that the methods write, and those that a caller of `finish` passes.
pub data TransportStatus : Type 0 where
  captured_delivery_unconfirmed : TransportStatus
  all_local_write_drains_completed : TransportStatus
  local_write_failed_or_cancelled : TransportStatus
  given : Bytes → TransportStatus

pub record CapturedJob : Type 0 where
  pub job_id : ℕ
  pub started_unix_ns : ℕ
  pub max_payload_bytes : ℕ
  pub max_capture_events : ℕ
  pub request : Bytes
  pub response : Bytes
  pub chunks : List CapturedChunk
  pub bytes_captured_from_client : ℕ
  pub bytes_captured_from_printer : ℕ
  pub bytes_stored_from_client : ℕ
  pub bytes_stored_from_printer : ℕ
  pub bytes_local_write_drain_to_printer : ℕ
  pub bytes_local_write_drain_to_client : ℕ
  pub capture_complete : Bool
  pub capture_error : List Reason
  pub capture_event_count_observed : ℕ
  pub timeline_complete : Bool
  pub timeline_error : List Reason
  pub transport_status : TransportStatus
  pub request_first_unix_ns : Option ℕ
  pub response_first_unix_ns : Option ℕ
  pub ended_at : Option Bytes

abbrev pub new_job : ℕ → ℕ → ℕ → ℕ → CapturedJob
new_job job_id started_unix_ns max_payload_bytes max_capture_events = record {
  job_id = job_id;
  started_unix_ns = started_unix_ns;
  max_payload_bytes = max_payload_bytes;
  max_capture_events = max_capture_events;
  request = [];
  response = [];
  chunks = [];
  bytes_captured_from_client = 0;
  bytes_captured_from_printer = 0;
  bytes_stored_from_client = 0;
  bytes_stored_from_printer = 0;
  bytes_local_write_drain_to_printer = 0;
  bytes_local_write_drain_to_client = 0;
  capture_complete = true;
  capture_error = [];
  capture_event_count_observed = 0;
  timeline_complete = true;
  timeline_error = [];
  transport_status = captured_delivery_unconfirmed;
  request_first_unix_ns = none;
  response_first_unix_ns = none;
  ended_at = none;
}

-- What the source reads from its surroundings while it records a chunk.
pub record Clock : Type 0 where
  pub utc_now : Bytes
  pub monotonic_now : ℕ
  pub sha256 : Bytes → Bytes

-- The keyword arguments of `append`
pub record Observation : Type 0 where
  pub sequence : Option ℕ
  pub session_offset : Option ℕ
  pub timestamp : Option Bytes
  pub observed_monotonic_ns : Option ℕ
  pub received_unix_ns : Option ℕ
  pub forwarded_unix_ns : Option ℕ
  pub retain_payload : Bool
