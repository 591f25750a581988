-- ===== src/Framing/Framer.antt =====
-- src/commercialrchproxy/rch/framing.py: `RCHStreamFramer`, its constructor and the methods that
-- change its state, but for `_process`, `feed` and `finish`.
use commercial_rchproxy.Common.{
  ℕ, ◌+◌, ◌-◌, min, Bool, true, false, some, List, [], ◌∷◌, ◌++◌, Bytes, length, take, drop,
  set_last, ltb, leb, ◌==◌, if◌then◌else◌,
}
use commercial_rchproxy.Framing.Types.{
  frame_overhead, IssueCode, event_limit_exceeded, issue_limit_exceeded, Detail,
  events_not_retained, issues_omitted, FramingIssue, StreamEvent, event_offset,
}

-- The constructor's arguments; the source's negative values are not numbers here.
pub record Limits : Type 0 where
  pub max_data_length : ℕ
  pub max_buffer_bytes : ℕ
  pub max_events : ℕ
  pub max_issues : ℕ
  pub max_issue_raw_bytes : ℕ
  pub retain_history : Bool

-- `buffer` holds `cursor` bytes that are consumed, and behind them those not yet framed.
pub record Framer : Type 0 where
  pub limits : Limits
  pub buffer : Bytes
  pub cursor : ℕ
  pub buffer_offset : ℕ
  pub bytes_seen : ℕ
  pub event_count : ℕ
  pub frame_count : ℕ
  pub ack_count : ℕ
  pub events : List StreamEvent
  pub issues : List FramingIssue
  pub events_truncated : Bool
  pub omitted_issue_count : ℕ
  pub finished : Bool

pub data LimitError : Type 0 where
  bad_data_length buffer_below_overhead buffer_below_frame no_events no_issues : LimitError

pub data InitResult : Type 0 where
  made : Framer → InitResult
  invalid : LimitError → InitResult

abbrev pub fresh : Limits → Framer
fresh limits = record {
  limits = limits;
  buffer = [];
  cursor = 0;
  buffer_offset = 0;
  bytes_seen = 0;
  event_count = 0;
  frame_count = 0;
  ack_count = 0;
  events = [];
  issues = [];
  events_truncated = false;
  omitted_issue_count = 0;
  finished = false;
}

-- `__init__`
unfoldable pub init : Limits → InitResult
init limits =
    if ltb 999 limits.max_data_length
    then invalid bad_data_length
    else if ltb limits.max_buffer_bytes frame_overhead
    then invalid buffer_below_overhead
    else if ltb limits.max_buffer_bytes (limits.max_data_length + frame_overhead)
    then invalid buffer_below_frame
    else if ltb limits.max_events 1
    then invalid no_events
    else if ltb limits.max_issues 1
    then invalid no_issues
    else made (fresh limits)

-- `buffered_bytes` and `_available`
abbrev pub buffered_bytes : Framer → Bytes
buffered_bytes f = drop f.cursor f.buffer

abbrev pub available : Framer → ℕ
available f = length f.buffer - f.cursor

-- The common end of `_consume` and `_issue`: a buffer that is used up is cleared.
unfoldable pub advance : Framer → ℕ → Framer
advance f count =
    let cursor = f.cursor + count in
    if cursor == length f.buffer
    then record f { buffer = []; cursor = 0; buffer_offset = f.buffer_offset + count }
    else record f { cursor = cursor; buffer_offset = f.buffer_offset + count }

-- `_append_issue`
unfoldable pub append_issue : Framer → FramingIssue → Framer
append_issue f issue =
    if ltb (length f.issues) f.limits.max_issues
    then record f { issues = f.issues ++ (issue ∷ []) }
    else record f { omitted_issue_count = f.omitted_issue_count + 1 }

-- The first part of `_issue`: a diagnostic with a bounded preview of the bytes given up.
unfoldable pub note_issue : Framer → IssueCode → ℕ → Detail → Framer
unfolding append_issue
note_issue f code count detail =
    if ltb (length f.issues) f.limits.max_issues
    then append_issue f (record {
      code = code;
      stream_offset = f.buffer_offset;
      raw = take (min count f.limits.max_issue_raw_bytes) (buffered_bytes f);
      detail = detail;
      span_length = some count;
    })
    else record f { omitted_issue_count = f.omitted_issue_count + 1 }

-- `_issue`
unfoldable pub add_issue : Framer → IssueCode → ℕ → Detail → Framer
add_issue f code count detail = advance (note_issue f code count detail) count

-- `_note_event_limit`
unfoldable pub note_event_limit : Framer → ℕ → Framer
unfolding append_issue
note_event_limit f stream_offset =
    if f.events_truncated
    then f
    else append_issue (record f { events_truncated = true })
        (record {
          code = event_limit_exceeded;
          stream_offset = stream_offset;
          raw = [];
          detail = events_not_retained f.limits.max_events;
          span_length = some 0;
        })

-- `_append_event`
unfoldable pub append_event : Framer → StreamEvent → Framer
unfolding note_event_limit event_offset
append_event f event =
    if ltb (length f.events) f.limits.max_events
    then record f { events = f.events ++ (event ∷ []) }
    else note_event_limit f (event_offset event)

-- `_finalize_omitted_issues`
unfoldable pub finalize_omitted_issues : Framer → Framer
finalize_omitted_issues f =
    let summary : FramingIssue = record {
      code = issue_limit_exceeded;
      stream_offset = f.bytes_seen;
      raw = [];
      detail = issues_omitted f.omitted_issue_count;
      span_length = some 0;
    } in
    if f.omitted_issue_count == 0
    then f
    else if leb f.limits.max_issues (length f.issues)
    then record f { issues = set_last f.issues summary }
    else record f { issues = f.issues ++ (summary ∷ []) }
