-- ===== src/Receipt/Correlate.antt =====
-- src/commercialrchproxy/rch/receipt_parser.py: `_correlate_directions`, the association of request
-- frames with the acknowledgements and response frames at the same place of their order.
use commercial_rchproxy.Common.{
  ℕ, zero, suc, ◌+◌, ◌-◌, ◌%◌, Bool, true, false, ◌&&◌, Option, none, some, List, [], ◌∷◌, ◌++◌,
  length, drop, ltb, leb, ◌==◌, if◌then◌else◌,
}
use commercial_rchproxy.Framing.Types.{RchFrame, AckEvent, FramingResult, frames, acks}

-- `RequestResponseCorrelation`; a sequence is the code of its character.
pub record Correlation : Type 0 where
  pub request_frame_id : ℕ
  pub request_stream_offset : ℕ
  pub request_sequence : ℕ
  pub ack_event_id : Option ℕ
  pub ack_stream_offset : Option ℕ
  pub response_frame_id : Option ℕ
  pub response_stream_offset : Option ℕ
  pub expected_response_sequence : Option ℕ
  pub observed_response_sequence : Option ℕ
  pub sequence_matches : Option Bool

pub data CorrelationCode : Type 0 where
  missing_ack_candidate missing_response_frame_candidate : CorrelationCode
  response_sequence_mismatch : Option ℕ → ℕ → CorrelationCode
  unmatched_response_frame unmatched_ack : CorrelationCode

-- A `ReceiptIssue` of the correlation; its code gives its text and direction.
pub record CorrelationIssue : Type 0 where
  pub code : CorrelationCode
  pub stream_offset : ℕ
  pub frame_id : Option ℕ

-- `_expected_response_sequence`; the argument is one character of a byte.
abbrev pub expected_response_sequence : ℕ → Option ℕ
expected_response_sequence sequence =
    if leb b'0' sequence && leb sequence b'9'
    then some ((sequence - b'0' + 8) % 10 + b'0')
    else none

-- `items[index] if index < len(items) else None`
unfoldable pub item_at {ℓ} : {A : Type ℓ} → ℕ → List A → Option A
item_at index [] = none
item_at zero (x ∷ xs) = some x
item_at (suc index) (x ∷ xs) = item_at index xs

abbrev pub ack_id : Option AckEvent → Option ℕ
ack_id none = none
ack_id (some a) = some a.event_id

abbrev pub ack_offset : Option AckEvent → Option ℕ
ack_offset none = none
ack_offset (some a) = some a.stream_offset

abbrev pub frame_id_of : Option RchFrame → Option ℕ
frame_id_of none = none
frame_id_of (some f) = some f.frame_id

abbrev pub frame_offset : Option RchFrame → Option ℕ
frame_offset none = none
frame_offset (some f) = some f.stream_offset

abbrev pub sequence_of : Option RchFrame → Option ℕ
sequence_of none = none
sequence_of (some f) = some f.sequence

abbrev pub matches : Option ℕ → Option ℕ → Option Bool
matches (some e) (some o) = some (e == o)
matches _ _ = none

unfoldable pub correlation_of : RchFrame → Option AckEvent → Option RchFrame → Correlation
correlation_of request ack response =
    let expected = expected_response_sequence request.sequence in
    record {
      request_frame_id = request.frame_id;
      request_stream_offset = request.stream_offset;
      request_sequence = request.sequence;
      ack_event_id = ack_id ack;
      ack_stream_offset = ack_offset ack;
      response_frame_id = frame_id_of response;
      response_stream_offset = frame_offset response;
      expected_response_sequence = expected;
      observed_response_sequence = sequence_of response;
      sequence_matches = matches expected (sequence_of response);
    }

-- The nested `add_issue`
unfoldable pub add_correlation_issue :
    ℕ → List CorrelationIssue → CorrelationIssue → List CorrelationIssue
add_correlation_issue max_issues issues issue =
    if ltb (length issues) max_issues then issues ++ (issue ∷ []) else issues

unfoldable pub note_ack :
    ℕ → RchFrame → Option AckEvent → List CorrelationIssue → List CorrelationIssue
unfolding add_correlation_issue
note_ack max_issues request (some a) issues = issues
note_ack max_issues request none issues = add_correlation_issue max_issues issues (record {
  code = missing_ack_candidate;
  stream_offset = request.stream_offset;
  frame_id = some request.frame_id;
})

unfoldable pub note_response :
    ℕ → RchFrame → Option RchFrame → List CorrelationIssue → List CorrelationIssue
unfolding add_correlation_issue
note_response max_issues request none issues = add_correlation_issue max_issues issues (record {
  code = missing_response_frame_candidate;
  stream_offset = request.stream_offset;
  frame_id = some request.frame_id;
})
note_response max_issues request (some f) issues =
    let expected = expected_response_sequence request.sequence in
    elim (matches expected (some f.sequence)) [
      | some false ↦ add_correlation_issue max_issues issues (record {
        code = response_sequence_mismatch expected f.sequence;
        stream_offset = f.stream_offset;
        frame_id = some f.frame_id;
      })
      | some true ↦ issues
      | none ↦ issues
    ]

-- The loop over the request frames, at an index.
unfoldable pub correlate_requests :
    ℕ
    → List AckEvent
    → List RchFrame
    → ℕ
    → List RchFrame
    → List Correlation × List CorrelationIssue
    → List Correlation × List CorrelationIssue
unfolding item_at correlation_of note_ack note_response
correlate_requests max_issues acknowledgements responses index [] (correlations, issues) =
    (correlations, issues)
correlate_requests max_issues acknowledgements responses index (request ∷ requests)
      (correlations, issues) =
    let ack = item_at index acknowledgements in
    let response = item_at index responses in
    correlate_requests max_issues acknowledgements responses (index + 1) requests (
      correlations ++ (correlation_of request ack response ∷ []),
      note_response max_issues request response (note_ack max_issues request ack issues),
    )

unfoldable pub note_unmatched_frames :
    ℕ → List RchFrame → List CorrelationIssue → List CorrelationIssue
unfolding add_correlation_issue
note_unmatched_frames max_issues [] issues = issues
note_unmatched_frames max_issues (f ∷ fs) issues = note_unmatched_frames max_issues fs (
    add_correlation_issue max_issues issues (record {
      code = unmatched_response_frame;
      stream_offset = f.stream_offset;
      frame_id = some f.frame_id;
    }))

unfoldable pub note_unmatched_acks :
    ℕ → List AckEvent → List CorrelationIssue → List CorrelationIssue
unfolding add_correlation_issue
note_unmatched_acks max_issues [] issues = issues
note_unmatched_acks max_issues (a ∷ rest) issues = note_unmatched_acks max_issues rest (
    add_correlation_issue max_issues issues
      (record { code = unmatched_ack; stream_offset = a.stream_offset; frame_id = none }))

-- `_correlate_directions`, of the frames and acknowledgements of the two results
unfoldable pub correlate :
    ℕ → List RchFrame → List AckEvent → List RchFrame → List Correlation × List CorrelationIssue
correlate max_issues requests acknowledgements responses =
    let (correlations, issues) =
      correlate_requests max_issues acknowledgements responses 0 requests ([], []) in
    (
      correlations,
      note_unmatched_acks max_issues (drop (length requests) acknowledgements)
          (note_unmatched_frames max_issues (drop (length requests) responses) issues),
    )

-- `_correlate_directions`
unfoldable pub correlate_directions :
    FramingResult → FramingResult → ℕ → List Correlation × List CorrelationIssue
correlate_directions request_framing response_framing max_issues =
    correlate max_issues (frames request_framing.events) (acks response_framing.events)
      (frames response_framing.events)
