-- ===== src/Receipt/Messages.antt =====
-- src/commercialrchproxy/rch/receipt_parser.py: the protocol messages of the events of both directions.
use commercial_rchproxy.Common.{
  ℕ, ◌+◌, Bool, ◌&&◌, Option, none, some, List, [], ◌∷◌, ◌++◌, Bytes, ℤ, length, leb, codes,
  text_eq, starts_with, ◌==◌, if◌then◌else◌,
}
use commercial_rchproxy.Framing.Types.{RchFrame, AckEvent, StreamEvent, ack, frame, event_offset}
use commercial_rchproxy.Regex.{Captures, Match, re_match, captured, captured_text}
use commercial_rchproxy.Receipt.Patterns.{
  management_line_re, commercial_item_re, commercial_text_re, commercial_total_re, display_re,
  response_counter_re, text_group, style_group, code_group, amount_group, quantity_group,
  description_group, line_group, counter_group, int_of, value,
}
use commercial_rchproxy.Receipt.Commercial.{optional_int}
use commercial_rchproxy.Receipt.Model.{frame_end}
use commercial_rchproxy.Receipt.Assembly.{is_request_profile}

pub data Direction : Type 0 where
  request response : Direction

-- A role with its fields; those that all frames have are read from the message itself.
pub data Role : Type 0 where
  management_boundary commercial_start_candidate unknown_request_command : Role
  management_printable_line : (text : Bytes) (style : Option Bytes) → Role
  commercial_printable_text : (text : Bytes) (style : Option Bytes) → Role
  commercial_item :
      (description : Bytes) (amount_cents : ℤ) (quantity : Option ℤ) (command_code : Bytes) → Role
  commercial_total : (amount_cents : ℤ) (command_code : Bytes) → Role
  auxiliary_display : (display_line : ℕ) (text : Bytes) → Role
  commercial_control_candidate : (command : Bytes) → Role
  unexpected_request_profile response_frame unexpected_response_profile standalone_ack : Role
  response_counter_candidate : (counter_raw : Bytes) (counter : ℕ) → Role

pub data Evidence : Type 0 where
  confirmed inferred unknown : Evidence

abbrev or_role : Option Match → (Captures → Role) → Role → Role
or_role none role otherwise = otherwise
or_role (some m) role otherwise = role m.0

abbrev item_role : Captures → Role
unfolding int_of
item_role groups =
    commercial_item (captured_text description_group groups)
      (int_of (captured_text amount_group groups)) (optional_int (captured quantity_group groups))
      (captured_text code_group groups)

abbrev total_role : Captures → Role
unfolding int_of
total_role groups =
    commercial_total (int_of (captured_text amount_group groups)) (captured_text code_group groups)

abbrev display_role : Captures → Role
unfolding value
display_role groups =
    auxiliary_display (value 0 (captured_text line_group groups)) (captured_text text_group groups)

-- The last tests of `_request_role`.
unfoldable pub rest_role : Bytes → Role
unfolding text_eq starts_with
rest_role text =
    if text_eq text (codes "=K")
    then commercial_start_candidate
    else if starts_with (codes "<</?") text
    then commercial_control_candidate text
    else unknown_request_command

-- `_request_role`
unfoldable pub request_role : Bytes → Role
unfolding text_eq re_match management_line_re commercial_text_re commercial_item_re
    commercial_total_re display_re rest_role int_of value
request_role text =
    if text_eq text (codes "=o")
    then management_boundary
    else or_role (re_match management_line_re text)
        (λ g. management_printable_line (captured_text text_group g) (captured style_group g))
        (or_role (re_match commercial_text_re text)
          (λ g. commercial_printable_text (captured_text text_group g) (captured style_group g))
          (or_role (re_match commercial_item_re text) item_role (
            or_role (re_match commercial_total_re text) total_role
              (or_role (re_match display_re text) display_role (rest_role text)))))

-- The evidence that goes with a role.
abbrev evidence_of : Role → Evidence
evidence_of unknown_request_command = unknown
evidence_of unexpected_request_profile = unknown
evidence_of response_frame = unknown
evidence_of unexpected_response_profile = unknown
evidence_of standalone_ack = confirmed
evidence_of _ = inferred

unfoldable pub is_response_profile : RchFrame → Bool
unfolding text_eq
is_response_profile f = f.bcc_valid && text_eq f.address (codes "01") && (f.frame_class == b'N')

abbrev counter_role : Option Match → Role
unfolding value
counter_role none = response_frame
counter_role (some m) =
    let counter = captured_text counter_group m.0 in
    response_counter_candidate counter (value 0 counter)

-- The role of a frame in `_message_from_frame`.
unfoldable pub frame_role : Direction → RchFrame → Role
unfolding is_request_profile request_role is_response_profile re_match response_counter_re value
frame_role request f =
    if is_request_profile f then request_role f.payload else unexpected_request_profile
frame_role response f =
    if is_response_profile f
    then counter_role (re_match response_counter_re f.payload)
    else unexpected_response_profile

-- `ProtocolMessage`
pub record ProtocolMessage : Type 0 where
  pub message_id : ℕ
  pub direction : Direction
  pub role : Role
  pub evidence : Evidence
  pub stream_offset : ℕ
  pub end_offset : ℕ
  pub source_frame : Option RchFrame
  pub raw : Bytes

-- `_message_from_frame`
unfoldable pub message_from_frame : ℕ → Direction → RchFrame → ProtocolMessage
unfolding frame_role
message_from_frame message_id direction f = record {
  message_id = message_id;
  direction = direction;
  role = frame_role direction f;
  evidence = evidence_of (frame_role direction f);
  stream_offset = f.stream_offset;
  end_offset = frame_end f;
  source_frame = some f;
  raw = f.raw;
}

-- `_message_from_ack`
unfoldable pub message_from_ack : ℕ → Direction → AckEvent → ProtocolMessage
message_from_ack message_id direction a = record {
  message_id = message_id;
  direction = direction;
  role = standalone_ack;
  evidence = confirmed;
  stream_offset = a.stream_offset;
  end_offset = a.stream_offset + 1;
  source_frame = none;
  raw = a.raw;
}

unfoldable pub message_from : ℕ → Direction → StreamEvent → ProtocolMessage
unfolding message_from_frame message_from_ack
message_from message_id direction (ack a) = message_from_ack message_id direction a
message_from message_id direction (frame f) = message_from_frame message_id direction f

-- The issue of the message limit.
pub record MessageLimit : Type 0 where
  pub direction : Direction
  pub stream_offset : ℕ

-- `messages` and the issue of the limit, which `message_limit_reported` tells of
pub record Messages : Type 0 where
  pub messages : List ProtocolMessage
  pub limit_issue : Option MessageLimit

unfoldable pub note_message_limit :
    Direction → StreamEvent → Option MessageLimit → Option MessageLimit
unfolding event_offset
note_message_limit direction event none =
    some (record { direction = direction; stream_offset = event_offset event })
note_message_limit direction event (some reported) = some reported

-- The loop over the events of a direction.
unfoldable pub add_messages : ℕ → Direction → List StreamEvent → Messages → Messages
unfolding note_message_limit message_from
add_messages max_messages direction [] m = m
add_messages max_messages direction (event ∷ events) m =
    add_messages max_messages direction events (
      if leb max_messages (length m.messages)
      then record m { limit_issue = note_message_limit direction event m.limit_issue }
      else record m {
        messages = m.messages ++ (message_from (length m.messages + 1) direction event ∷ []);
      })

-- The loop over both directions.
unfoldable pub messages_of : ℕ → List StreamEvent → List StreamEvent → Messages
unfolding add_messages
messages_of max_messages requests responses =
    add_messages max_messages response responses
      (add_messages max_messages request requests (record { messages = []; limit_issue = none }))
