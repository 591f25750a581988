-- ===== src/Receipt/Commercial.antt =====
-- src/commercialrchproxy/rch/receipt_parser.py: what the commands of a commercial document add to it.
use commercial_rchproxy.Common.{
  ℕ, true, false, Option, none, some, List, [], ◌∷◌, ◌++◌, Bytes, ℤ, codes, text_eq,
}
use commercial_rchproxy.Framing.Types.{RchFrame}
use commercial_rchproxy.Regex.{Captures, captured, captured_text}
use commercial_rchproxy.Receipt.Patterns.{
  text_group, style_group, amount_group, description_group, quantity_group, code_group, int_of,
}
use commercial_rchproxy.Receipt.Amounts.{format_cents}
use commercial_rchproxy.Receipt.Budget.{SemanticBudget}
use commercial_rchproxy.Receipt.Builder.{transition}
use commercial_rchproxy.Receipt.Fields.{if_granted, add_line, note_order, is_double}
use commercial_rchproxy.Receipt.Model.{
  source_of, command_item, command_payment, command_total, DocumentModel, ReceiptBuilder,
  commercial_payment,
}

-- `int(text) if text is not None else None`
abbrev pub optional_int : Option Bytes → Option ℤ
unfolding int_of
optional_int none = none
optional_int (some text) = some (int_of text)

abbrev pub item_count : Option ℤ → ℕ
item_count none = 4
item_count (some quantity) = 5

abbrev pub item_line : Bytes → ℤ → Bytes
unfolding format_cents
item_line [] cents = format_cents cents
item_line (c ∷ cs) cents = (c ∷ cs) ++ (codes " " ++ format_cents cents)

abbrev pub with_quantity : Option ℤ → List ℤ → List ℤ
with_quantity none quantities = quantities
with_quantity (some quantity) quantities = quantities ++ (quantity ∷ [])

abbrev pub add_item : Captures → RchFrame → DocumentModel → DocumentModel
unfolding int_of
add_item groups frame m =
    let raw = captured_text amount_group groups in
    let cents = int_of raw in
    let quantity = optional_int (captured quantity_group groups) in
    let description = captured_text description_group groups in
    let code = captured_text code_group groups in
    add_line (item_line description cents) false false frame (record m {
      items = m.items ++ (command_item description cents quantity code (source_of frame) ∷ []);
      descriptions = m.descriptions ++ (description ∷ []);
      amounts = m.amounts ++ (record { raw = raw; cents = cents; source = source_of frame } ∷ []);
      quantities = with_quantity quantity m.quantities;
    })

-- `_apply_commercial_item`
unfoldable pub apply_commercial_item :
    RchFrame → Captures → ReceiptBuilder → SemanticBudget → ReceiptBuilder × SemanticBudget
unfolding if_granted int_of format_cents
apply_commercial_item frame groups b budget =
    let count = item_count (optional_int (captured quantity_group groups)) in
    let (model, left) = if_granted count frame (add_item groups frame) (b.model, budget) in
    (record b { model = model }, left)

-- The branch of a commercial text in `_parse_documents`.
unfoldable pub apply_commercial_text :
    RchFrame → Captures → ReceiptBuilder → SemanticBudget → ReceiptBuilder × SemanticBudget
unfolding if_granted note_order text_eq
apply_commercial_text frame groups b budget =
    let literal_text = captured_text text_group groups in
    let double = is_double (captured style_group groups) in
    let rendered = codes "#" ++ literal_text in
    let (model, left) =
      if_granted 1 frame (add_line rendered double double frame) (b.model, budget) in
    (record b { model = note_order literal_text (some rendered) frame model }, left)

abbrev pub add_total_of : Captures → RchFrame → DocumentModel → DocumentModel
unfolding int_of format_cents
add_total_of groups frame m =
    let raw = captured_text amount_group groups in
    let cents = int_of raw in
    let code = captured_text code_group groups in
    add_line (codes "IMPORTO PAGAMENTO " ++ format_cents cents) false false frame (
      add_line (codes "TOTALE " ++ format_cents cents) true false frame (record m {
        totals = m.totals ++ (command_total cents code (source_of frame) ∷ []);
        payments = m.payments ++ (command_payment cents code (source_of frame) ∷ []);
        amounts = m.amounts ++ (record { raw = raw; cents = cents; source = source_of frame } ∷ []);
      }))

-- `_apply_commercial_total`
unfoldable pub apply_commercial_total :
    RchFrame → Captures → ReceiptBuilder → SemanticBudget → ReceiptBuilder × SemanticBudget
unfolding if_granted transition int_of format_cents
apply_commercial_total frame groups b budget =
    let (model, left) = if_granted 5 frame (add_total_of groups frame) (b.model, budget) in
    let closing = record model {
      metadata = record model.metadata { close_candidate_frame_id = some frame.frame_id };
    } in
    (transition commercial_payment frame (record b { model = closing }), left)
