-- ===== src/Receipt/Assembly.antt =====
-- src/commercialrchproxy/rch/receipt_parser.py: `_parse_documents`, the reading of the request frames
-- into documents.
use commercial_rchproxy.Common.{
  ℕ, ◌+◌, Bool, true, false, ◌&&◌, ◌||◌, Option, none, some, List, [], ◌∷◌, ◌++◌, Bytes, length,
  codes, text_eq, starts_with, ltb, ◌==◌, if◌then◌else◌,
}
use commercial_rchproxy.Framing.Types.{RchFrame}
use commercial_rchproxy.Regex.{Captures, Match, re_match, re_fullmatch, captured, captured_text}
use commercial_rchproxy.Receipt.Patterns.{
  management_line_re, commercial_item_re, commercial_text_re, commercial_total_re, display_re,
  closing_control_re, text_group, style_group,
}
use commercial_rchproxy.Receipt.Budget.{SemanticBudget}
use commercial_rchproxy.Receipt.Builder.{
  new_builder, transition, add_frame, add_issue, finish_builder, is_commercial, same_state,
}
use commercial_rchproxy.Receipt.Fields.{apply_management_line}
use commercial_rchproxy.Receipt.Commercial.{
  apply_commercial_item, apply_commercial_text, apply_commercial_total,
}
use commercial_rchproxy.Receipt.Model.{
  documento_commerciale, documento_gestionale, commercial_payment, commercial_postlude,
  missing_open_boundary, missing_commercial_start, document_limit_exceeded, DocumentIssue,
  ReceiptBuilder, ParsedReceipt,
}

-- The variables of the loop.
pub record Assembly : Type 0 where
  pub max_documents : ℕ
  pub documents : List ParsedReceipt
  pub issues : List DocumentIssue
  pub active : Option ReceiptBuilder
  pub pending_start : Option RchFrame
  pub document_limit_reported : Bool
  pub semantic_budget : SemanticBudget

-- The document limit is noted once, at the first document that it omits.
unfoldable pub note_limit : ReceiptBuilder → Assembly → Assembly
note_limit b s = if s.document_limit_reported then s else record s {
  document_limit_reported = true;
  issues =
      s.issues
      ++ (record {
        code = document_limit_exceeded;
        stream_offset = b.start_frame.stream_offset;
        frame_id = b.start_frame.frame_id;
      }
          ∷ []);
}

-- `finish_active`, of the document that is active
unfoldable pub finish_document : ReceiptBuilder → Bool → Assembly → Assembly
unfolding finish_builder note_limit
finish_document b is_complete s =
    let document = finish_builder b (length s.documents + 1) is_complete in
    let finished =
      if ltb (length s.documents) s.max_documents
      then record s {
        documents = s.documents ++ (document ∷ []);
        issues = s.issues ++ document.issues;
      }
      else note_limit b s in
    record finished { active = none }

-- `finish_active`
unfoldable pub finish_active : Bool → Assembly → Assembly
unfolding finish_document
finish_active is_complete s = elim s.active [ none ↦ s | some b ↦ finish_document b is_complete s ]

-- `data_text == "<</?" or re.fullmatch(r"<</\?\d", data_text)`
unfoldable pub is_closing_control : Bytes → Bool
unfolding text_eq closing_control_re re_fullmatch
is_closing_control text =
    text_eq text (codes "<</?")
    || elim (re_fullmatch closing_control_re text) [ none ↦ false | some _ ↦ true ]

-- A control frame in the commercial document `b`.
unfoldable pub continue_control : RchFrame → ReceiptBuilder → Assembly → Assembly
unfolding add_frame is_closing_control transition finish_document
continue_control frame b s =
    let extended = add_frame frame b in
    if is_closing_control frame.payload
    then finish_document extended true s
    else if same_state extended.state commercial_payment
    then record s { active = some (transition commercial_postlude frame extended) }
    else record s { active = some extended }

unfoldable pub read_control : RchFrame → Assembly → Assembly
unfolding continue_control text_eq
read_control frame s =
    let waiting = record s {
      pending_start = if text_eq frame.payload (codes "<</?s") then some frame else none;
    } in
    elim s.active [
      | none ↦ waiting
      | some b ↦ if is_commercial b.kind then continue_control frame b s else waiting
    ]

abbrev pub or_frame : Option RchFrame → RchFrame → RchFrame
or_frame none frame = frame
or_frame (some pending) frame = pending

-- `=K`
unfoldable pub read_start : RchFrame → Assembly → Assembly
unfolding finish_active new_builder add_frame
read_start frame s =
    let b = new_builder documento_commerciale (or_frame s.pending_start frame) in
    record (finish_active false s) { active = some (add_frame frame b); pending_start = none }

-- `=o`
unfoldable pub read_boundary : RchFrame → Assembly → Assembly
unfolding finish_active finish_document new_builder add_frame
read_boundary frame s =
    let opened = record (finish_active false s) {
      active = some (new_builder documento_gestionale frame);
      pending_start = none;
    } in
    elim s.active [
      | none ↦ opened
      | some b ↦
          if is_commercial b.kind
          then opened
          else record (finish_document (add_frame frame b) true s) { pending_start = none }
    ]

-- The document that a management line goes to, in the state without it.
unfoldable pub management_document : RchFrame → Assembly → ReceiptBuilder × Assembly
unfolding finish_active new_builder
management_document frame s = elim s.active [
  | none ↦ (add_issue missing_open_boundary frame (new_builder documento_gestionale frame), s)
  | some b ↦
      if is_commercial b.kind
      then (new_builder documento_gestionale frame, finish_active false s)
      else (b, s)
]

-- The document that an item or a total goes to.
unfoldable pub commercial_document : RchFrame → Assembly → ReceiptBuilder × Assembly
unfolding finish_active new_builder
commercial_document frame s =
    let fresh =
      add_issue missing_commercial_start frame (new_builder documento_commerciale frame) in
    elim s.active [
      | none ↦ (fresh, s)
      | some b ↦ if is_commercial b.kind then (b, s) else (fresh, finish_active false s)
    ]

-- The frame is added to a document and then handled.
unfoldable pub extend_document :
    RchFrame
    → (ReceiptBuilder → SemanticBudget → ReceiptBuilder × SemanticBudget)
    → ReceiptBuilder × Assembly
    → Assembly
unfolding add_frame
extend_document frame apply (b, s) =
    let (b', left) = apply (add_frame frame b) s.semantic_budget in
    record s { active = some b'; semantic_budget = left }

-- What a command of the request asks for, tested in the order of the source.
pub data Command : Type 0 where
  control start boundary : Command
  management_line commercial_item commercial_text commercial_total : Captures → Command
  display other : Command

-- `if match: …`
abbrev pub or_match : Option Match → (Captures → Command) → Command → Command
or_match none command otherwise = otherwise
or_match (some m) command otherwise = command m.0

unfoldable pub command_of : Bytes → Command
unfolding starts_with text_eq re_match management_line_re commercial_item_re commercial_text_re
    commercial_total_re display_re
command_of text =
    if starts_with (codes "<</?") text
    then control
    else if text_eq text (codes "=K")
    then start
    else if text_eq text (codes "=o")
    then boundary
    else or_match (re_match management_line_re text) management_line (
        or_match (re_match commercial_item_re text) commercial_item (
          or_match (re_match commercial_text_re text) commercial_text (
            or_match (re_match commercial_total_re text) commercial_total
              (or_match (re_match display_re text) (λ _. display) other))))

-- The last branch: another command is kept in the active document.
unfoldable pub read_other : RchFrame → Assembly → Assembly
unfolding add_frame
read_other frame s = elim s.active [
  | none ↦ s
  | some b ↦ record s { active = some (add_frame frame b) }
]

-- A text, of a commercial document only.
unfoldable pub read_text : RchFrame → Captures → Assembly → Assembly
unfolding extend_document apply_commercial_text read_other
read_text frame groups s = elim s.active [
  | none ↦ s
  | some b ↦
      if is_commercial b.kind
      then extend_document frame (apply_commercial_text frame groups) (b, s)
      else read_other frame s
]

unfoldable pub read_command : RchFrame → Command → Assembly → Assembly
unfolding read_control read_start read_boundary management_document commercial_document
    extend_document apply_management_line apply_commercial_item apply_commercial_total read_text
    read_other
read_command frame control s = read_control frame s
read_command frame start s = read_start frame s
read_command frame boundary s = read_boundary frame s
read_command frame (management_line groups) s =
    extend_document frame
      (apply_management_line frame (captured_text text_group groups) (captured style_group groups))
      (management_document frame s)
read_command frame (commercial_item groups) s =
    extend_document frame (apply_commercial_item frame groups) (commercial_document frame s)
read_command frame (commercial_text groups) s = read_text frame groups s
read_command frame (commercial_total groups) s =
    extend_document frame (apply_commercial_total frame groups) (commercial_document frame s)
read_command frame display s = s
read_command frame other s = read_other frame s

-- The test at the head of the loop.
unfoldable pub is_request_profile : RchFrame → Bool
unfolding text_eq
is_request_profile frame =
    frame.bcc_valid && text_eq frame.address (codes "00") && (frame.frame_class == b'z')

unfoldable pub read_frame : RchFrame → Assembly → Assembly
unfolding is_request_profile command_of read_command
read_frame frame s =
    if is_request_profile frame then read_command frame (command_of frame.payload) s else s

unfoldable pub read_frames : List RchFrame → Assembly → Assembly
unfolding read_frame
read_frames [] s = s
read_frames (f ∷ fs) s = read_frames fs (read_frame f s)

abbrev pub new_assembly : ℕ → SemanticBudget → Assembly
new_assembly max_documents semantic_budget = record {
  max_documents = max_documents;
  documents = [];
  issues = [];
  active = none;
  pending_start = none;
  document_limit_reported = false;
  semantic_budget = semantic_budget;
}

-- `_parse_documents`, with all variables at the end
unfoldable pub parse_documents : List RchFrame → ℕ → SemanticBudget → Assembly
unfolding read_frames finish_active
parse_documents fs max_documents semantic_budget =
    finish_active false (read_frames fs (new_assembly max_documents semantic_budget))
