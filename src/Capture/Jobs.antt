-- ===== src/Capture/Jobs.antt =====
-- src/commercialrchproxy/capture/jobs.py: the methods of `CapturedJob`.
use commercial_rchproxy.Common.{
  ℕ, zero, suc, ◌+◌, ◌-◌, Bool, true, false, not, ◌&&◌, Option, none, some, List, [], ◌∷◌, ◌++◌,
  Bytes, length, take, ltb, ◌==◌, if◌then◌else◌,
}
use commercial_rchproxy.Capture.Types.{
  Direction, client_to_rch, rch_to_client, CapturedChunk, CaptureToken, payload_limit_exceeded,
  capture_event_limit_exceeded, TransportStatus, captured_delivery_unconfirmed,
  all_local_write_drains_completed, local_write_failed_or_cancelled, given, CapturedJob, Clock,
  Observation,
}

-- `a if a is not None else b`
abbrev pub or_else : Option ℕ → ℕ → ℕ
or_else none d = d
or_else (some n) d = n

-- `a or b`, where the empty text counts as no text
abbrev pub text_or : Option Bytes → Bytes → Bytes
text_or none d = d
text_or (some []) d = d
text_or (some (b ∷ bs)) d = b ∷ bs

abbrev pub first_of : Option ℕ → Option ℕ → Option ℕ
first_of none t = t
first_of (some u) t = some u

-- The counters and the first time of a direction.
unfoldable pub count_captured : Direction → ℕ → Option ℕ → CapturedJob → CapturedJob
count_captured client_to_rch n received j = record j {
  capture_event_count_observed = j.capture_event_count_observed + 1;
  request_first_unix_ns = first_of j.request_first_unix_ns received;
  bytes_captured_from_client = j.bytes_captured_from_client + n;
}
count_captured rch_to_client n received j = record j {
  capture_event_count_observed = j.capture_event_count_observed + 1;
  response_first_unix_ns = first_of j.response_first_unix_ns received;
  bytes_captured_from_printer = j.bytes_captured_from_printer + n;
}

abbrev pub stored_in : Direction → CapturedJob → ℕ
stored_in client_to_rch j = j.bytes_stored_from_client
stored_in rch_to_client j = j.bytes_stored_from_printer

abbrev pub payload_in : Direction → CapturedJob → Bytes
payload_in client_to_rch j = j.request
payload_in rch_to_client j = j.response

-- The part of the data that the payload limit leaves room for.
abbrev pub admitted : CapturedJob → Bytes → Bytes
admitted j payload =
    take (j.max_payload_bytes - (j.bytes_stored_from_client + j.bytes_stored_from_printer)) payload

unfoldable pub store : Direction → Bytes → Bool → CapturedJob → CapturedJob
store client_to_rch stored retain j = record j {
  bytes_stored_from_client = j.bytes_stored_from_client + length stored;
  request = if retain then j.request ++ stored else j.request;
}
store rch_to_client stored retain j = record j {
  bytes_stored_from_printer = j.bytes_stored_from_printer + length stored;
  response = if retain then j.response ++ stored else j.response;
}

-- The chunk that `append` records, where `offset` bytes of the direction are stored before it and
-- `count` chunks are recorded.
abbrev pub chunk_of : Clock → Direction → Bytes → Observation → ℕ → ℕ → CapturedChunk
chunk_of clock direction stored o offset count = record {
  sequence = or_else o.sequence (count + 1);
  direction = direction;
  timestamp = text_or o.timestamp clock.utc_now;
  monotonic_ns = or_else o.observed_monotonic_ns clock.monotonic_now;
  offset = offset;
  session_offset = or_else o.session_offset offset;
  payload = if o.retain_payload then stored else [];
  byte_count = length stored;
  data_sha256 = clock.sha256 stored;
  received_unix_ns = o.received_unix_ns;
  forwarded_unix_ns = o.forwarded_unix_ns;
  drain_unix_ns = none;
  local_write_drain_completed = none;
  forward_error = none;
}

-- The chunk is recorded, or the timeline is marked partial.
unfoldable pub record_chunk : CapturedChunk → CapturedJob → Option ℕ × CapturedJob
record_chunk chunk j =
    if ltb (length j.chunks) j.max_capture_events
    then (some (length j.chunks), record j { chunks = j.chunks ++ (chunk ∷ []) })
    else (
      none,
      record j {
        timeline_complete = false;
        timeline_error = capture_event_limit_exceeded j.max_capture_events ∷ [];
      },
    )

-- Nothing is recorded when nothing is stored.
unfoldable pub keep : Clock → Direction → Bytes → Observation → CapturedJob → Option ℕ × CapturedJob
keep clock direction [] o j = (none, j)
keep clock direction (b ∷ bs) o j =
    record_chunk (chunk_of clock direction (b ∷ bs) o (stored_in direction j) (length j.chunks))
      (store direction (b ∷ bs) o.retain_payload j)

unfoldable pub note_partial : Bool → CapturedJob → CapturedJob
note_partial partial j =
    if partial
    then record j { capture_complete = false; capture_error = payload_limit_exceeded ∷ [] }
    else j

-- `append`: the index of the chunk, if one is recorded.
unfoldable pub append :
    Clock → Direction → Bytes → Observation → CapturedJob → Option ℕ × CapturedJob
append clock direction [] o j = (none, j)
append clock direction (b ∷ bs) o j =
    let counted = count_captured direction (length (b ∷ bs)) o.received_unix_ns j in
    let stored = admitted j (b ∷ bs) in
    let (index, kept) = keep clock direction stored o counted in
    (index, note_partial (not (length stored == length (b ∷ bs))) kept)

-- The chunk at an index is marked; behind the end, none is.
unfoldable pub mark_chunk :
    Option ℕ → Bool → Option ℕ → Option Bytes → List CapturedChunk → List CapturedChunk
mark_chunk none completed drained error chunks = chunks
mark_chunk (some i) completed drained error [] = []
mark_chunk (some zero) completed drained error (c ∷ cs) =
    record c {
      local_write_drain_completed = some completed;
      drain_unix_ns = drained;
      forward_error = error;
    }
    ∷ cs
mark_chunk (some (suc i)) completed drained error (c ∷ cs) =
    c ∷ mark_chunk (some i) completed drained error cs

unfoldable pub count_drained : Direction → ℕ → CapturedJob → CapturedJob
count_drained client_to_rch n j = record j {
  bytes_local_write_drain_to_printer = j.bytes_local_write_drain_to_printer + n;
}
count_drained rch_to_client n j = record j {
  bytes_local_write_drain_to_client = j.bytes_local_write_drain_to_client + n;
}

-- `mark_local_write_drain`
unfoldable pub mark_local_write_drain :
    CaptureToken → Bool → Option ℕ → Option Bytes → CapturedJob → CapturedJob
mark_local_write_drain token completed drained error j =
    let marked = record j {
      chunks = mark_chunk token.chunk_index completed drained error j.chunks;
    } in
    if completed
    then count_drained token.direction token.byte_count marked
    else record marked { transport_status = local_write_failed_or_cancelled }

abbrev pub is_failed : TransportStatus → Bool
is_failed local_write_failed_or_cancelled = true
is_failed _ = false

abbrev pub all_drained : CapturedJob → Bool
all_drained j =
    j.bytes_captured_from_client == j.bytes_local_write_drain_to_printer
    && (j.bytes_captured_from_printer == j.bytes_local_write_drain_to_client)

-- The status that `finish` leaves; a caller that passes no status passes `none`, and an empty text
-- counts as none.
unfoldable pub final_status : Option Bytes → CapturedJob → TransportStatus
final_status (some (b ∷ bs)) j = given (b ∷ bs)
final_status _ j =
    if is_failed j.transport_status
    then j.transport_status
    else if all_drained j
    then all_local_write_drains_completed
    else captured_delivery_unconfirmed

-- `finish`
unfoldable pub finish_job : Bytes → Option Bytes → CapturedJob → CapturedJob
finish_job now status j = record j { ended_at = some now; transport_status = final_status status j }

-- `request_started_unix_ns` and `response_started_unix_ns`; the time 0 counts as no time.
abbrev pub started : Option ℕ → ℕ → ℕ
started none d = d
started (some zero) d = d
started (some (suc t)) d = suc t

abbrev pub request_started_unix_ns : CapturedJob → ℕ
request_started_unix_ns j = started j.request_first_unix_ns j.started_unix_ns

abbrev pub response_started_unix_ns : CapturedJob → ℕ
response_started_unix_ns j = started j.response_first_unix_ns j.started_unix_ns
