-- ===== src/Framing/Types.antt =====
-- src/commercialrchproxy/rch/framing.py: the stream events, the issues and the framing result.
-- A text field of one character or of ASCII digits is a list of code points.
use commercial_rchproxy.Common.{
  ℕ, ◌+◌, Bool, not, ◌&&◌, Option, none, some, List, [], ◌∷◌, Bytes, length, all, ◌==◌,
}

abbrev pub stx : ℕ
stx = 0x02

abbrev pub etx : ℕ
etx = 0x03

abbrev pub ack_byte : ℕ
ack_byte = 0x06

abbrev pub frame_overhead : ℕ
frame_overhead = 11

pub data IssueCode : Type 0 where
  buffer_limit_exceeded event_limit_exceeded issue_limit_exceeded unframed_bytes : IssueCode
  truncated_frame malformed_header oversize_frame invalid_terminator invalid_bcc : IssueCode

-- The text of a `detail`, as its message and the values that the message shows.
pub data Detail : Type 0 where
  no_progress : Detail
  events_not_retained : ℕ → Detail
  issues_omitted : ℕ → Detail
  outside_frame : Detail
  ended_in_header : Detail
  header_not_decimal : Detail
  length_over_limit : ℕ → ℕ → Detail
  ended_in_frame : ℕ → ℕ → Detail
  no_etx_at : ℕ → Detail
  bcc_not_hexadecimal : Bytes → Detail
  bcc_mismatch : Bytes → Bytes → Detail

pub record FramingIssue : Type 0 where
  pub code : IssueCode
  pub stream_offset : ℕ
  pub raw : Bytes
  pub detail : Detail
  pub span_length : Option ℕ

unfoldable pub issue_span : FramingIssue → ℕ
issue_span i = elim i.span_length [ none ↦ length i.raw | some n ↦ n ]

-- `FramingIssue.end_offset`
unfoldable pub issue_end_offset : FramingIssue → ℕ
unfolding issue_span
issue_end_offset i = i.stream_offset + issue_span i

pub record AckEvent : Type 0 where
  pub event_id : ℕ
  pub stream_offset : ℕ
  pub raw : Bytes

pub record RchFrame : Type 0 where
  pub event_id : ℕ
  pub frame_id : ℕ
  pub stream_offset : ℕ
  pub raw : Bytes
  pub address : Bytes
  pub data_length : ℕ
  pub frame_class : ℕ
  pub payload : Bytes
  pub sequence : ℕ
  pub bcc : Bytes
  pub expected_bcc : Bytes
  pub bcc_valid : Bool

pub data StreamEvent : Type 0 where
  ack : AckEvent → StreamEvent
  frame : RchFrame → StreamEvent

unfoldable pub event_offset : StreamEvent → ℕ
event_offset (ack a) = a.stream_offset
event_offset (frame f) = f.stream_offset

-- `end_offset` of the two kinds of event
unfoldable pub event_end_offset : StreamEvent → ℕ
event_end_offset (ack a) = a.stream_offset + 1
event_end_offset (frame f) = f.stream_offset + length f.raw

-- `FramingResult.frames` and `FramingResult.acks`
unfoldable pub frames : List StreamEvent → List RchFrame
frames [] = []
frames (frame f ∷ es) = f ∷ frames es
frames (ack a ∷ es) = frames es

unfoldable pub acks : List StreamEvent → List AckEvent
acks [] = []
acks (frame f ∷ es) = acks es
acks (ack a ∷ es) = a ∷ acks es

pub record FramingResult : Type 0 where
  pub events : List StreamEvent
  pub issues : List FramingIssue
  pub bytes_seen : ℕ
  pub total_frame_count : ℕ
  pub total_ack_count : ℕ
  pub events_truncated : Bool
  pub omitted_issue_count : ℕ

-- `FramingResult.valid`
unfoldable pub result_valid : FramingResult → Bool
unfolding frames
result_valid r =
    not (length (frames r.events) == 0)
    && (length r.issues == 0)
    && not r.events_truncated
    && (r.omitted_issue_count == 0)
    && all (λ f. f.bcc_valid) (frames r.events)
