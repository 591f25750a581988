-- ===== src/Receipt/Model.antt =====
-- src/commercialrchproxy/render/document_model.py and the records of receipt_parser.py that a
-- document is made of. A dictionary of the source with fixed keys is a record here.
use commercial_rchproxy.Common.{ℕ, ◌+◌, Bool, false, Option, none, List, [], Bytes, length, ℤ}
use commercial_rchproxy.Framing.Types.{RchFrame}

-- `_source`, whose direction and evidence are the same for all uses
pub record Source : Type 0 where
  pub frame_id : ℕ
  pub stream_offset : ℕ
  pub end_offset : ℕ

-- `RCHFrame.end_offset`
abbrev pub frame_end : RchFrame → ℕ
frame_end f = f.stream_offset + length f.raw

unfoldable pub source_of : RchFrame → Source
source_of f = record {
  frame_id = f.frame_id;
  stream_offset = f.stream_offset;
  end_offset = frame_end f;
}

-- `SourceTrace`
pub record Trace : Type 0 where
  pub source_offset : ℕ
  pub source_frame : ℕ

unfoldable pub trace_of : RchFrame → Trace
trace_of f = record { source_offset = f.stream_offset; source_frame = f.frame_id }

pub record DocumentLine : Type 0 where
  pub text : Bytes
  pub trace : Trace
  pub bold : Bool
  pub double_width : Bool
  pub double_height : Bool

pub record Amount : Type 0 where
  pub raw : Bytes
  pub cents : ℤ
  pub source : Source

-- An entry of `items`, by the function that appends it.
pub data Item : Type 0 where
  printed_item :
      (description : Bytes) (amount_cents : Option ℤ) (amount_raw : Bytes)
      (tax_class : Option Bytes)
      → Source
      → Item
  command_item :
      (description : Bytes) (amount_cents : ℤ) (quantity : Option ℤ) (command_code : Bytes)
      → Source
      → Item

pub record Tax : Type 0 where
  pub raw_text : Bytes
  pub taxable_amount : Amount
  pub tax_amount : Amount
  pub source : Source

pub data Payment : Type 0 where
  printed_payment : (method_text : Bytes) → Amount → Source → Payment
  command_payment : (amount_cents : ℤ) (code : Bytes) → Source → Payment

pub data Total : Type 0 where
  printed_total : (label : Bytes) (amount_cents : Option ℤ) → List Amount → Source → Total
  command_total : (amount_cents : ℤ) (command_code : Bytes) → Source → Total

pub record Order : Type 0 where
  pub order_text : Bytes
  pub rendered_order_text : Option Bytes
  pub order_value : Option Bytes
  pub order_source : Source

-- The keys of `metadata` that are set while frames are read and response counters attached.
pub record Metadata : Type 0 where
  pub currency_is_euro : Bool
  pub order : Option Order
  pub printed_reference_source : Option Source
  pub change : Option Amount
  pub close_candidate_frame_id : Option ℕ
  pub document_number_source : Option Source

pub record DocumentModel : Type 0 where
  pub lines : List DocumentLine
  pub items : List Item
  pub quantities : List ℤ
  pub descriptions : List Bytes
  pub amounts : List Amount
  pub taxes : List Tax
  pub payments : List Payment
  pub totals : List Total
  pub metadata : Metadata
  pub date : Option Bytes
  pub time : Option Bytes
  pub document_number : Option Bytes
  pub footer : List DocumentLine
  pub response_counter_suffix : Option Bytes

abbrev pub new_model : DocumentModel
new_model = record {
  lines = [];
  items = [];
  quantities = [];
  descriptions = [];
  amounts = [];
  taxes = [];
  payments = [];
  totals = [];
  metadata = record {
    currency_is_euro = false;
    order = none;
    printed_reference_source = none;
    change = none;
    close_candidate_frame_id = none;
    document_number_source = none;
  };
  date = none;
  time = none;
  document_number = none;
  footer = [];
  response_counter_suffix = none;
}

-- `document_type`, which is `kind` of a builder
pub data Kind : Type 0 where
  documento_commerciale documento_gestionale : Kind

pub data DocumentAssemblyState : Type 0 where
  idle commercial_body commercial_payment commercial_postlude : DocumentAssemblyState
  management_body complete incomplete : DocumentAssemblyState

pub data DocumentIssueCode : Type 0 where
  incomplete_document missing_open_boundary missing_commercial_start : DocumentIssueCode
  document_limit_exceeded : DocumentIssueCode

-- A `ReceiptIssue` of the request direction
pub record DocumentIssue : Type 0 where
  pub code : DocumentIssueCode
  pub stream_offset : ℕ
  pub frame_id : ℕ

-- An entry of `state_transitions`
pub record Transition : Type 0 where
  pub from_state : DocumentAssemblyState
  pub to_state : DocumentAssemblyState
  pub frame_id : ℕ
  pub stream_offset : ℕ

-- `_ReceiptBuilder`
pub record ReceiptBuilder : Type 0 where
  pub kind : Kind
  pub start_frame : RchFrame
  pub model : DocumentModel
  pub frames : List RchFrame
  pub issues : List DocumentIssue
  pub seen_primary_total : Bool
  pub state : DocumentAssemblyState
  pub state_transitions : List Transition

-- `ParsedReceipt`, with the entries of its metadata that `_finish_builder` sets
pub record ParsedReceipt : Type 0 where
  pub document_number : ℕ
  pub kind : Kind
  pub is_complete : Bool
  pub model : DocumentModel
  pub frame_ids : List ℕ
  pub start_offset : ℕ
  pub end_offset : ℕ
  pub issues : List DocumentIssue
  pub state_transitions : List Transition
  pub final_state : DocumentAssemblyState
