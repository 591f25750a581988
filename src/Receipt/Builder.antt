-- ===== src/Receipt/Builder.antt =====
-- src/commercialrchproxy/rch/receipt_parser.py: `_ReceiptBuilder`, `_new_builder`, `_transition` and
-- `_finish_builder`.
use commercial_rchproxy.Common.{ℕ, Bool, true, false, List, [], ◌∷◌, ◌++◌, map, ◌==◌, if◌then◌else◌}
use commercial_rchproxy.Framing.Types.{RchFrame}
use commercial_rchproxy.Receipt.Model.{
  Kind, documento_commerciale, documento_gestionale, DocumentAssemblyState, idle, commercial_body,
  commercial_payment, commercial_postlude, management_body, complete, incomplete, DocumentIssueCode,
  incomplete_document, ReceiptBuilder, ParsedReceipt, new_model, frame_end,
}

abbrev pub state_number : DocumentAssemblyState → ℕ
state_number idle = 0
state_number commercial_body = 1
state_number commercial_payment = 2
state_number commercial_postlude = 3
state_number management_body = 4
state_number complete = 5
state_number incomplete = 6

-- `==` on the states
abbrev pub same_state : DocumentAssemblyState → DocumentAssemblyState → Bool
same_state a b = state_number a == state_number b

abbrev pub is_commercial : Kind → Bool
is_commercial documento_commerciale = true
is_commercial documento_gestionale = false

-- `xs[-1]`, of a list that starts with `x`
abbrev pub last_of {ℓ} : {A : Type ℓ} → A → List A → A
last_of x [] = x
last_of x (y ∷ ys) = last_of y ys

-- `self.frames[-1]`; a builder has its start frame at least.
unfoldable pub last_frame : ReceiptBuilder → RchFrame
last_frame b = last_of b.start_frame b.frames

-- `_transition`
unfoldable pub transition : DocumentAssemblyState → RchFrame → ReceiptBuilder → ReceiptBuilder
transition target frame b = if same_state b.state target then b else record b {
  state_transitions =
      b.state_transitions
      ++ (record {
        from_state = b.state;
        to_state = target;
        frame_id = frame.frame_id;
        stream_offset = frame.stream_offset;
      }
          ∷ []);
  state = target;
}

abbrev pub body_state : Kind → DocumentAssemblyState
body_state documento_commerciale = commercial_body
body_state documento_gestionale = management_body

-- `_new_builder`, with `__post_init__`
unfoldable pub new_builder : Kind → RchFrame → ReceiptBuilder
unfolding transition
new_builder kind frame = transition (body_state kind) frame (record {
  kind = kind;
  start_frame = frame;
  model = new_model;
  frames = frame ∷ [];
  issues = [];
  seen_primary_total = false;
  state = idle;
  state_transitions = [];
})

-- `add_frame`
unfoldable pub add_frame : RchFrame → ReceiptBuilder → ReceiptBuilder
unfolding last_frame
add_frame frame b =
    if (last_frame b).frame_id == frame.frame_id
    then b
    else record b { frames = b.frames ++ (frame ∷ []) }

abbrev pub add_issue : DocumentIssueCode → RchFrame → ReceiptBuilder → ReceiptBuilder
add_issue code frame b = record b {
  issues =
      b.issues
      ++ (record { code = code; stream_offset = frame.stream_offset; frame_id = frame.frame_id }
          ∷ []);
}

-- The issue that `_finish_builder` adds to an incomplete document.
unfoldable pub note_incomplete : Bool → ReceiptBuilder → ReceiptBuilder
unfolding last_frame
note_incomplete true b = b
note_incomplete false b = record b {
  issues =
      b.issues
      ++ (record {
        code = incomplete_document;
        stream_offset = frame_end (last_frame b);
        frame_id = (last_frame b).frame_id;
      }
          ∷ []);
}

abbrev pub final_state_of : Bool → DocumentAssemblyState
final_state_of true = complete
final_state_of false = incomplete

abbrev pub receipt_of : ReceiptBuilder → ℕ → Bool → ParsedReceipt
unfolding last_frame
receipt_of b document_number is_complete = record {
  document_number = document_number;
  kind = b.kind;
  is_complete = is_complete;
  model = b.model;
  frame_ids = map (λ f. f.frame_id) b.frames;
  start_offset = b.start_frame.stream_offset;
  end_offset = frame_end (last_frame b);
  issues = b.issues;
  state_transitions = b.state_transitions;
  final_state = b.state;
}

-- `_finish_builder`
unfoldable pub finish_builder : ReceiptBuilder → ℕ → Bool → ParsedReceipt
unfolding transition note_incomplete last_frame receipt_of
finish_builder b document_number is_complete =
    let noted = note_incomplete is_complete b in
    receipt_of (transition (final_state_of is_complete) (last_frame noted) noted) document_number
      is_complete
