-- ===== src/Receipt/Outline.antt =====
-- What the semantic budget of src/commercialrchproxy/rch/receipt_parser.py cannot change: the outline
-- of the documents, which is all but their human-readable fields.
use commercial_rchproxy.Common.{
  ℕ, Bool, true, false, Option, ◌==◌, ◌≡◌, refl, sym, ap, ◌∙◌, if-map, Bytes,
}
use commercial_rchproxy.Framing.Types.{RchFrame}
use commercial_rchproxy.Regex.{Captures}
use commercial_rchproxy.Receipt.Budget.{SemanticBudget}
use commercial_rchproxy.Receipt.Builder.{
  transition, add_frame, finish_builder, same_state, note_incomplete, last_frame, receipt_of,
  final_state_of,
}
use commercial_rchproxy.Receipt.Fields.{apply_management_line}
use commercial_rchproxy.Receipt.Commercial.{
  apply_commercial_item, apply_commercial_text, apply_commercial_total,
}
use commercial_rchproxy.Receipt.Model.{
  DocumentAssemblyState, commercial_payment, ReceiptBuilder, ParsedReceipt, new_model,
}

abbrev pub outline_receipt : ParsedReceipt → ParsedReceipt
outline_receipt d = record d { model = new_model }

abbrev pub outline_builder : ReceiptBuilder → ReceiptBuilder
outline_builder b = record b { model = new_model; seen_primary_total = false }

-- Two documents in the making that differ in the fields only.
abbrev pub Like : ReceiptBuilder → ReceiptBuilder → Type 0
Like b c = outline_builder b ≡ outline_builder c

transition-outline :
    (target : DocumentAssemblyState) (f : RchFrame) (b : ReceiptBuilder)
    → outline_builder (transition target f b) ≡ transition target f (outline_builder b)
unfolding transition
transition-outline target f b = if-map outline_builder (same_state b.state target) _ _

add_frame-outline :
    (f : RchFrame) (b : ReceiptBuilder)
    → outline_builder (add_frame f b) ≡ add_frame f (outline_builder b)
unfolding add_frame last_frame
add_frame-outline f b = if-map outline_builder ((last_frame b).frame_id == f.frame_id) _ _

note_incomplete-outline :
    (c : Bool) (b : ReceiptBuilder)
    → outline_builder (note_incomplete c b) ≡ note_incomplete c (outline_builder b)
unfolding note_incomplete last_frame
note_incomplete-outline true b = refl
note_incomplete-outline false b = refl

last_frame-note_incomplete :
    (c : Bool) (b : ReceiptBuilder)
    → last_frame (note_incomplete c (outline_builder b)) ≡ last_frame (note_incomplete c b)
unfolding note_incomplete last_frame
last_frame-note_incomplete true b = refl
last_frame-note_incomplete false b = refl

finish_builder-outline :
    (b : ReceiptBuilder) (n : ℕ) (c : Bool)
    → outline_receipt (finish_builder b n c)
      ≡ outline_receipt (finish_builder (outline_builder b) n c)
unfolding finish_builder last_frame
finish_builder-outline b n c =
    let target = final_state_of c in
    let noted = note_incomplete c b in
    ap (λ (x : ReceiptBuilder). outline_receipt (receipt_of x n c))
      (transition-outline target (last_frame noted) noted
        ∙ ap (transition target (last_frame noted)) (note_incomplete-outline c b)
        ∙ ap (λ f. transition target f (note_incomplete c (outline_builder b)))
            (sym (last_frame-note_incomplete c b)))

pub transition-Like :
    (target : DocumentAssemblyState) (f : RchFrame) (b c : ReceiptBuilder)
    → Like b c
    → Like (transition target f b) (transition target f c)
transition-Like target f b c h =
    transition-outline target f b ∙ ap (transition target f) h ∙ sym (transition-outline target f c)

pub add_frame-Like :
    (f : RchFrame) (b c : ReceiptBuilder) → Like b c → Like (add_frame f b) (add_frame f c)
add_frame-Like f b c h = add_frame-outline f b ∙ ap (add_frame f) h ∙ sym (add_frame-outline f c)

pub finish_builder-Like :
    (b c : ReceiptBuilder) (m n : ℕ) (is_complete : Bool)
    → Like b c
    → m ≡ n
    → outline_receipt (finish_builder b m is_complete)
      ≡ outline_receipt (finish_builder c n is_complete)
finish_builder-Like b c m n is_complete h e =
    finish_builder-outline b m is_complete
    ∙ ap (λ x. outline_receipt (finish_builder x m is_complete)) h
    ∙ sym (finish_builder-outline c m is_complete)
    ∙ ap (λ k. outline_receipt (finish_builder c k is_complete)) e

-- What a command adds, in two documents that are alike, whatever budgets are left.
abbrev pub Agrees : (ReceiptBuilder → SemanticBudget → ReceiptBuilder × SemanticBudget) → Type 0
Agrees apply =
    (b c : ReceiptBuilder) (left right : SemanticBudget)
    → Like b c
    → Like (apply b left).0 (apply c right).0

pub management_line-Agrees :
    (f : RchFrame) (text : Bytes) (style : Option Bytes)
    → Agrees (apply_management_line f text style)
unfolding apply_management_line
management_line-Agrees f text style b c left right h = h

pub commercial_item-Agrees :
    (f : RchFrame) (groups : Captures) → Agrees (apply_commercial_item f groups)
unfolding apply_commercial_item
commercial_item-Agrees f groups b c left right h = h

pub commercial_text-Agrees :
    (f : RchFrame) (groups : Captures) → Agrees (apply_commercial_text f groups)
unfolding apply_commercial_text
commercial_text-Agrees f groups b c left right h = h

pub commercial_total-Agrees :
    (f : RchFrame) (groups : Captures) → Agrees (apply_commercial_total f groups)
unfolding apply_commercial_total
commercial_total-Agrees f groups b c left right h = transition-Like commercial_payment f _ _ h
