-- ===== src/Receipt/Protocol.antt =====
-- src/commercialrchproxy/rch/receipt_parser.py: `_parse_framed_copies` and `parse_protocol_chunks`, which
-- put the parts together.
use commercial_rchproxy.Common.{
  ℕ, ◌+◌, Bool, true, false, ◌||◌, Option, none, some, List, [], ◌∷◌, ◌++◌, Bytes, length, take,
  map, ltb, ◌==◌, if◌then◌else◌,
}
use commercial_rchproxy.Framing.Types.{
  FramingIssue, IssueCode, buffer_limit_exceeded, event_limit_exceeded, issue_limit_exceeded,
  FramingResult, frames,
}
use commercial_rchproxy.Framing.Framer.{Framer, Limits, LimitError, made, invalid, init}
use commercial_rchproxy.Framing.Process.{finish, StreamResult, framed, bad_limits, frame_stream}
use commercial_rchproxy.Receipt.Budget.{LimitIssue, new_budget}
use commercial_rchproxy.Receipt.Model.{
  DocumentIssue, DocumentIssueCode, document_limit_exceeded, ParsedReceipt,
}
use commercial_rchproxy.Receipt.Assembly.{parse_documents}
use commercial_rchproxy.Receipt.Correlate.{Correlation, CorrelationIssue, correlate_directions}
use commercial_rchproxy.Receipt.Counters.{Exchange, attach_counters}
use commercial_rchproxy.Receipt.Subtypes.{Subtyping, assign_document_subtypes}
use commercial_rchproxy.Receipt.Messages.{
  Direction, request, response, ProtocolMessage, MessageLimit, messages_of,
}
use commercial_rchproxy.Receipt.Issues.{ResultIssue, reported, bounded_result_issues}
use commercial_rchproxy.Receipt.Chunks.{BoundedFeed, bounded_start, feed_bounded}

-- A `ReceiptIssue`, by where it is made.
pub data CopiesIssue : Type 0 where
  -- the text counts the bytes that were left out, or all bytes
  analysis_limit : Direction → (omitted : ℕ) → CopiesIssue
  stream_limit : Direction → (size : ℕ) → CopiesIssue
  framing_issue : Direction → FramingIssue → CopiesIssue
  document_issue : DocumentIssue → CopiesIssue
  correlation_issue : CorrelationIssue → CopiesIssue
  semantic_limit : LimitIssue → CopiesIssue
  message_limit : MessageLimit → CopiesIssue

abbrev pub is_limit_code : IssueCode → Bool
is_limit_code buffer_limit_exceeded = true
is_limit_code event_limit_exceeded = true
is_limit_code issue_limit_exceeded = true
is_limit_code _ = false

abbrev pub is_document_limit : DocumentIssueCode → Bool
is_document_limit document_limit_exceeded = true
is_document_limit _ = false

-- Whether the code ends with `_limit_exceeded`
unfoldable pub is_limit_of : CopiesIssue → Bool
is_limit_of (analysis_limit d omitted) = true
is_limit_of (stream_limit d size) = true
is_limit_of (framing_issue d i) = is_limit_code i.code
is_limit_of (document_issue i) = is_document_limit i.code
is_limit_of (correlation_issue i) = false
is_limit_of (semantic_limit i) = true
is_limit_of (message_limit i) = true

-- The issues with their places in the list.
unfoldable pub placed : ℕ → List CopiesIssue → List ResultIssue
unfolding is_limit_of
placed n [] = []
placed n (i ∷ is) = reported (is_limit_of i) n ∷ placed (n + 1) is

pub record CopiesLimits : Type 0 where
  pub max_documents : ℕ
  pub max_messages : ℕ
  pub max_issues : ℕ
  pub max_semantic_fields : ℕ

-- `ProtocolCopiesResult`; a kept issue names its place in `all_issues`.
pub record CopiesResult : Type 0 where
  pub request_framing : FramingResult
  pub response_framing : FramingResult
  pub documents : List ParsedReceipt
  pub subtypes : List Subtyping
  pub messages : List ProtocolMessage
  pub correlations : List Correlation
  pub all_issues : List CopiesIssue
  pub issues : List ResultIssue

abbrev pub if_some {ℓ} : {A : Type ℓ} → (A → CopiesIssue) → Option A → List CopiesIssue
if_some f none = []
if_some f (some a) = f a ∷ []

-- `_parse_framed_copies`
unfoldable pub parse_framed_copies :
    CopiesLimits → List CopiesIssue → FramingResult → FramingResult → CopiesResult
unfolding parse_documents correlate_directions attach_counters assign_document_subtypes messages_of
    placed bounded_result_issues
parse_framed_copies l initial_issues request_framing response_framing =
    let requests = frames request_framing.events in
    let assembly = parse_documents requests l.max_documents (new_budget l.max_semantic_fields) in
    let (correlations, correlation_issues) =
      correlate_directions request_framing response_framing l.max_issues in
    let exchange : Exchange = record {
      requests = requests;
      responses = frames response_framing.events;
      correlations = correlations;
    } in
    let (documents, budget) =
      attach_counters exchange assembly.documents assembly.semantic_budget in
    let messages = messages_of l.max_messages request_framing.events response_framing.events in
    let issues =
      initial_issues
      ++ map (framing_issue request) request_framing.issues
      ++ map (framing_issue response) response_framing.issues
      ++ map document_issue assembly.issues
      ++ map correlation_issue correlation_issues
      ++ if_some semantic_limit budget.issue
      ++ if_some message_limit messages.limit_issue in
    record {
      request_framing = request_framing;
      response_framing = response_framing;
      documents = documents;
      subtypes = assign_document_subtypes documents;
      messages = messages.messages;
      correlations = correlations;
      all_issues = issues;
      issues = bounded_result_issues (placed 0 issues) l.max_issues;
    }

-- What `parse_protocol_chunks` does: a result, or one of its errors.
pub data ParseOutcome : Type 0 where
  parsed : CopiesResult → ParseOutcome
  bad_framing_limit : LimitError → ParseOutcome
  limit_not_positive feed_failed : ParseOutcome

abbrev pub analysis_issue : Direction → BoundedFeed → List CopiesIssue
analysis_issue d s = if ltb 0 s.omitted then analysis_limit d s.omitted ∷ [] else []

-- The rest, when the request side is fed.
unfoldable pub parse_fed : CopiesLimits → BoundedFeed → Option BoundedFeed → ParseOutcome
unfolding parse_framed_copies finish
parse_fed l requests none = feed_failed
parse_fed l requests (some responses) = parsed (
    parse_framed_copies l (analysis_issue request requests ++ analysis_issue response responses)
      (finish requests.framer).0 (finish responses.framer).0)

unfoldable pub feed_both : CopiesLimits → ℕ → List Bytes → List Bytes → Framer → ParseOutcome
unfolding feed_bounded parse_fed
feed_both l max_analyzed_bytes request_chunks response_chunks framer =
    elim (feed_bounded max_analyzed_bytes request_chunks (bounded_start framer)) [
      | none ↦ feed_failed
      | some requests ↦
          parse_fed l requests
            (feed_bounded max_analyzed_bytes response_chunks (bounded_start framer))
    ]

-- The limits of a framer that keeps its history, as by default.
abbrev pub retaining : Limits → Limits
retaining limits = record limits { retain_history = true }

-- `parse_protocol_chunks`; both directions have a framer of the same limits.
unfoldable pub parse_protocol_chunks :
    Limits → CopiesLimits → ℕ → List Bytes → List Bytes → ParseOutcome
unfolding init feed_both
parse_protocol_chunks framing l max_analyzed_bytes request_chunks response_chunks =
    elim (init (retaining framing)) [
      | invalid why ↦ bad_framing_limit why
      | made framer ↦
          if ltb l.max_documents 1
            || ltb l.max_messages 1
            || ltb max_analyzed_bytes 1
            || ltb l.max_semantic_fields 1
          then limit_not_positive
          else feed_both (record l { max_issues = framing.max_issues }) max_analyzed_bytes
              request_chunks response_chunks framer
    ]

abbrev pub stream_issue : Direction → ℕ → Bytes → List CopiesIssue
stream_issue d limit stream =
    if length stream == length (take limit stream) then [] else stream_limit d (length stream) ∷ []

-- The end of `parse_protocol_copies`, from the framings of both directions.
unfoldable pub parse_framings :
    CopiesLimits → List CopiesIssue → Option StreamResult → Option StreamResult → ParseOutcome
unfolding parse_framed_copies
parse_framings l initial_issues none responses = feed_failed
parse_framings l initial_issues (some (bad_limits why)) responses = bad_framing_limit why
parse_framings l initial_issues (some (framed q)) none = feed_failed
parse_framings l initial_issues (some (framed q)) (some (bad_limits why)) = bad_framing_limit why
parse_framings l initial_issues (some (framed q)) (some (framed p)) =
    parsed (parse_framed_copies l initial_issues q p)

-- `parse_protocol_copies`
unfoldable pub parse_protocol_copies : Limits → CopiesLimits → ℕ → Bytes → Bytes → ParseOutcome
unfolding frame_stream parse_framings
parse_protocol_copies framing l max_analyzed_bytes requests responses =
    if ltb l.max_documents 1
      || ltb l.max_messages 1
      || ltb max_analyzed_bytes 1
      || ltb l.max_semantic_fields 1
    then limit_not_positive
    else parse_framings (record l { max_issues = framing.max_issues })
        (stream_issue request max_analyzed_bytes requests
          ++ stream_issue response max_analyzed_bytes responses)
        (frame_stream framing (take max_analyzed_bytes requests))
        (frame_stream framing (take max_analyzed_bytes responses))
