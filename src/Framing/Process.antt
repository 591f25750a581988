-- ===== src/Framing/Process.antt =====
-- src/commercialrchproxy/rch/framing.py: `_process`, `feed`, `finish` and `frame_stream`.
use commercial_rchproxy.Common.{
  ℕ, zero, suc, ◌+◌, ◌-◌, min, Bool, true, false, not, Option, none, some, List, [], ◌∷◌, ◌++◌,
  Bytes, length, get_or, take, drop, slice, ltb, leb, ◌==◌, if◌then◌else◌,
}
use commercial_rchproxy.Framing.Types.{
  ack_byte, frame_overhead, RchFrame, StreamEvent, FramingResult, IssueCode, Detail,
}
use commercial_rchproxy.Framing.Scan.{Action, decide}
use commercial_rchproxy.Framing.Bcc.{
  calculate_bcc, hex_byte, decode_ascii, upper, bcc_syntax_valid, bcc_matches,
}
use commercial_rchproxy.Framing.Framer.{
  Limits, Framer, InitResult, made, invalid, LimitError, init, buffered_bytes, available, advance,
  append_issue, add_issue, note_event_limit, append_event, finalize_omitted_issues,
}

-- The number of ACK bytes at the head.
unfoldable pub ack_run : Bytes → ℕ
ack_run [] = 0
ack_run (b ∷ bs) = if b == ack_byte then suc (ack_run bs) else 0

abbrev pub count_acks : Framer → ℕ → Framer
count_acks f n = record f { event_count = f.event_count + n; ack_count = f.ack_count + n }

-- The branch on ACK with no room for events: a run of ACK bytes is counted at once.
unfoldable pub take_ack_run : Framer → Framer
take_ack_run f =
    let run_length = ack_run (buffered_bytes f) in
    note_event_limit (count_acks (advance f run_length) run_length) f.buffer_offset

-- The branch on ACK with room for events.
unfoldable pub take_one_ack : Framer → Framer
take_one_ack f = append_event (count_acks (advance f 1) 1) (
    StreamEvent.ack (record {
      event_id = f.event_count + 1;
      stream_offset = f.buffer_offset;
      raw = take 1 (buffered_bytes f);
    }))

unfoldable pub take_ack : Framer → Framer
take_ack f = if leb f.limits.max_events (length f.events) then take_ack_run f else take_one_ack f

-- The frame of `data_length` data bytes at the head of the buffered bytes.
unfoldable pub frame_at : Framer → Bytes → ℕ → RchFrame
frame_at f buffered data_length =
    let bcc_start = data_length + frame_overhead - 3 in
    let bcc_bytes = slice buffered bcc_start (bcc_start + 2) in
    let bcc_value = calculate_bcc (take bcc_start buffered) in
    record {
      event_id = f.event_count + 1;
      frame_id = f.frame_count + 1;
      stream_offset = f.buffer_offset;
      raw = take (data_length + frame_overhead) buffered;
      address = slice buffered 1 3;
      data_length = data_length;
      frame_class = get_or buffered 6 0;
      payload = slice (take (data_length + frame_overhead) buffered) 7 (7 + data_length);
      sequence = get_or buffered (7 + data_length) 0;
      bcc = decode_ascii bcc_bytes;
      expected_bcc = hex_byte bcc_value;
      bcc_valid = bcc_matches bcc_bytes bcc_value;
    }

abbrev bcc_detail : RchFrame → Bytes → Detail
bcc_detail frame bcc_bytes =
    if not (bcc_syntax_valid bcc_bytes)
    then Detail.bcc_not_hexadecimal frame.bcc
    else Detail.bcc_mismatch (upper frame.bcc) frame.expected_bcc

-- The frame is counted and its bytes are consumed.
unfoldable pub count_frame : Framer → ℕ → Framer
count_frame f data_length =
    advance (record f { event_count = f.event_count + 1; frame_count = f.frame_count + 1 })
      (data_length + frame_overhead)

-- The frame is retained if there is room.
unfoldable pub keep_frame : Framer → ℕ → Framer
keep_frame f data_length =
    let counted = count_frame f data_length in
    if ltb (length f.events) f.limits.max_events
    then append_event counted (StreamEvent.frame (frame_at f (buffered_bytes f) data_length))
    else note_event_limit counted f.buffer_offset

-- The last branch: a complete frame, diagnosed if its BCC is wrong.
unfoldable pub take_frame : Framer → ℕ → Framer
take_frame f data_length =
    let buffered = buffered_bytes f in
    let bcc_start = data_length + frame_overhead - 3 in
    let frame = frame_at f buffered data_length in
    let kept = keep_frame f data_length in
    if frame.bcc_valid
    then kept
    else append_issue kept (record {
      code = IssueCode.invalid_bcc;
      stream_offset = f.buffer_offset;
      raw = take f.limits.max_issue_raw_bytes frame.raw;
      detail = bcc_detail frame (slice buffered bcc_start (bcc_start + 2));
      span_length = some (data_length + frame_overhead);
    })

-- One round of the loop of `_process`; `none` is `break`.
unfoldable pub perform : Framer → Action → Option Framer
perform f Action.wait = none
perform f Action.ack = some (take_ack f)
perform f (Action.unframed count) =
    some (add_issue f IssueCode.unframed_bytes count Detail.outside_frame)
perform f Action.truncated_header =
    some (add_issue f IssueCode.truncated_frame (available f) Detail.ended_in_header)
perform f (Action.malformed count) =
    some (add_issue f IssueCode.malformed_header count Detail.header_not_decimal)
perform f (Action.oversize data_length count) = some (
    add_issue f IssueCode.oversize_frame count
      (Detail.length_over_limit data_length f.limits.max_data_length))
perform f (Action.truncated expected_size) = some (
    add_issue f IssueCode.truncated_frame (available f)
      (Detail.ended_in_frame expected_size (available f)))
perform f (Action.unterminated expected_size count) =
    some (add_issue f IssueCode.invalid_terminator count (Detail.no_etx_at (expected_size - 1)))
perform f (Action.frame data_length) = some (take_frame f data_length)

-- The loop, on fuel.
unfoldable pub process_rounds : ℕ → Bool → Framer → Framer
process_rounds zero final f = f
process_rounds (suc fuel) final f = elim (ltb 0 (available f)) [
  | false ↦ f
  | true ↦ elim (perform f (decide final f.limits.max_data_length (buffered_bytes f))) [
    | none ↦ f
    | some g ↦ process_rounds fuel final g
  ]
]

-- `_process`; a round that does not break consumes a byte, so the buffered bytes are fuel enough.
unfoldable pub process : Bool → Framer → Framer
unfolding process_rounds
process final f = process_rounds (available f) final f

-- The start of a round of `feed`: an empty buffer is reset, a consumed front is dropped.
unfoldable pub compact : Framer → Framer
compact f =
    if available f == 0
    then record f { buffer = []; cursor = 0; buffer_offset = f.bytes_seen }
    else if not (f.cursor == 0)
    then record f { buffer = drop f.cursor f.buffer; cursor = 0 }
    else f

-- The defensive branch on a full buffer, with the capacity that results.
unfoldable pub make_room : Framer → Framer × ℕ
make_room f =
    let capacity = f.limits.max_buffer_bytes - available f in
    if capacity == 0
    then (
      add_issue f IssueCode.buffer_limit_exceeded (available f) Detail.no_progress,
      f.limits.max_buffer_bytes,
    )
    else (f, capacity)

unfoldable pub extend : Framer → Bytes → Framer
extend f bytes = record f { buffer = f.buffer ++ bytes; bytes_seen = f.bytes_seen + length bytes }

-- One round of `feed`, with what is left of the chunk.
unfoldable pub feed_round : Framer → Bytes → Framer × Bytes
feed_round f view =
    let (g, capacity) = make_room (compact f) in
    let count = min capacity (length view) in
    (process false (extend g (take count view)), drop count view)

unfoldable pub feed_rounds : ℕ → Framer → Bytes → Framer
feed_rounds zero f view = f
feed_rounds (suc fuel) f [] = f
feed_rounds (suc fuel) f (b ∷ bs) = let (g, rest) = feed_round f (b ∷ bs) in feed_rounds fuel g rest

-- The history is dropped, if it is not retained.
unfoldable pub drop_history : Framer → Framer
drop_history g =
    if not g.limits.retain_history
    then record g { events = []; issues = []; events_truncated = false; omitted_issue_count = 0 }
    else g

-- The events that the chunk adds. A round takes a byte of the chunk, so its bytes are fuel enough.
unfoldable pub feed_chunk : Framer → Bytes → List StreamEvent × Framer
unfolding drop_history
feed_chunk f [] = ([], f)
feed_chunk f (b ∷ bs) =
    let g = feed_rounds (length (b ∷ bs)) f (b ∷ bs) in
    (drop (length f.events) g.events, drop_history g)

-- `none` is the `RuntimeError` on a finished framer.
unfoldable pub feed : Framer → Bytes → Option (List StreamEvent × Framer)
unfolding feed_chunk
feed f chunk = if f.finished then none else some (feed_chunk f chunk)

abbrev pub result_of : Framer → FramingResult
result_of f = record {
  events = f.events;
  issues = f.issues;
  bytes_seen = f.bytes_seen;
  total_frame_count = f.frame_count;
  total_ack_count = f.ack_count;
  events_truncated = f.events_truncated;
  omitted_issue_count = f.omitted_issue_count;
}

-- The part of `finish` that is made once.
unfoldable pub close : Framer → Framer
close f = if f.finished then f else record (process true f) { finished = true }

unfoldable pub finish : Framer → FramingResult × Framer
finish f = let g = finalize_omitted_issues (close f) in (result_of g, g)

pub data StreamResult : Type 0 where
  framed : FramingResult → StreamResult
  bad_limits : LimitError → StreamResult

-- `feed` of each chunk in turn
unfoldable pub feed_all : Framer → List Bytes → Option Framer
feed_all f [] = some f
feed_all f (chunk ∷ chunks) = elim (feed f chunk) [
  | none ↦ none
  | some (emitted, g) ↦ feed_all g chunks
]

abbrev pub finished_result : Option Framer → Option FramingResult
finished_result none = none
finished_result (some f) = some (finish f).0

-- `frame_stream` once its framer is made
unfoldable pub frame_with : InitResult → Bytes → Option StreamResult
frame_with (invalid why) payload = some (bad_limits why)
frame_with (made f) payload = elim (feed f payload) [
  | none ↦ none
  | some (emitted, g) ↦ some (framed (finish g).0)
]

-- `frame_stream`; the framer that it makes retains its history.
unfoldable pub frame_stream : Limits → Bytes → Option StreamResult
frame_stream limits payload = frame_with (init (record limits { retain_history = true })) payload
