-- ===== src/Receipt/Fields.antt =====
-- src/commercialrchproxy/rch/receipt_parser.py: what a line, an item and a total add to the model of
-- a document, within the semantic budget.
use commercial_rchproxy.Common.{
  ℕ, Bool, true, false, Option, none, some, List, [], ◌∷◌, ◌++◌, Bytes, take, ℤ, codes, text_eq,
  starts_with, strip, upper, contains_text, first_word, leb, if◌then◌else◌,
}
use commercial_rchproxy.Framing.Types.{RchFrame}
use commercial_rchproxy.Regex.{Captures, re_match, re_search, find_all, captured, captured_text}
use commercial_rchproxy.Receipt.Patterns.{
  order_re, reference_re, printed_amount_re, printed_item_re, amount_group, description_group,
  tax_class_group, value_group, date_group, time_group, number_group,
}
use commercial_rchproxy.Receipt.Amounts.{parse_printed_amount}
use commercial_rchproxy.Receipt.Budget.{SemanticBudget, LimitIssue, reserve}
use commercial_rchproxy.Receipt.Model.{
  source_of, trace_of, Amount, printed_item, printed_payment, printed_total, DocumentModel,
  ReceiptBuilder,
}

abbrev pub limit_at : RchFrame → LimitIssue
limit_at f = record { stream_offset = f.stream_offset; frame_id = f.frame_id }

-- `semantic_budget.reserve(count, frame)`, and what is done to a model if it is granted
unfoldable pub if_granted :
    ℕ
    → RchFrame
    → (DocumentModel → DocumentModel)
    → DocumentModel × SemanticBudget
    → DocumentModel × SemanticBudget
unfolding reserve
if_granted count frame change (model, budget) =
    let (granted, left) = reserve count (limit_at frame) budget in
    (if granted then change model else model, left)

-- The loop of `_amount_fields`.
unfoldable pub collect_amounts :
    RchFrame → List Captures → SemanticBudget → List Amount × SemanticBudget
unfolding parse_printed_amount reserve
collect_amounts frame [] budget = ([], budget)
collect_amounts frame (m ∷ ms) budget =
    let raw = captured_text amount_group m in
    let refused = (reserve 1 (limit_at frame) budget).1 in
    let skipped = collect_amounts frame ms budget in
    let (granted, left) = reserve 1 (limit_at frame) budget in
    let others = collect_amounts frame ms left in
    if leb budget.limit budget.used then ([], refused) else elim (parse_printed_amount raw) [
      | none ↦ skipped
      | some cents ↦
          if granted
          then (record { raw = raw; cents = cents; source = source_of frame } ∷ others.0, others.1)
          else others
    ]

-- `_amount_fields`
unfoldable pub amount_fields : Bytes → RchFrame → SemanticBudget → List Amount × SemanticBudget
unfolding collect_amounts find_all printed_amount_re
amount_fields line frame budget =
    collect_amounts frame (find_all printed_amount_re 0 none line) budget

abbrev pub is_double : Option Bytes → Bool
unfolding text_eq
is_double none = false
is_double (some style) = text_eq style (codes "2")

abbrev pub add_line : Bytes → Bool → Bool → RchFrame → DocumentModel → DocumentModel
add_line text bold double frame m = record m {
  lines =
      m.lines
      ++ (record {
        text = text;
        trace = trace_of frame;
        bold = bold;
        double_width = double;
        double_height = double;
      }
          ∷ []);
}

abbrev pub some_text : Bytes → Option Bytes
some_text [] = none
some_text (c ∷ cs) = some (c ∷ cs)

-- The metadata of an order text, `rendered` being what a commercial document adds.
unfoldable pub note_order : Bytes → Option Bytes → RchFrame → DocumentModel → DocumentModel
unfolding order_re re_match
note_order text rendered frame m = elim (re_match order_re text) [
  | none ↦ m
  | some found ↦ record m {
    metadata = record m.metadata {
      order = some (record {
        order_text = text;
        rendered_order_text = rendered;
        order_value = some_text (captured_text value_group found.0);
        order_source = source_of frame;
      });
    };
  }
]

unfoldable pub note_reference : Bytes → RchFrame → DocumentModel → DocumentModel
unfolding reference_re re_search
note_reference stripped frame m = elim (re_search reference_re none stripped) [
  | none ↦ m
  | some found ↦ record m {
    date = captured date_group found.0;
    time = captured time_group found.0;
    document_number = captured number_group found.0;
    metadata = record m.metadata { printed_reference_source = some (source_of frame) };
  }
]

unfoldable pub note_currency : Bytes → DocumentModel → DocumentModel
unfolding upper text_eq
note_currency stripped m =
    if text_eq (upper stripped) (codes "EURO")
    then record m { metadata = record m.metadata { currency_is_euro = true } }
    else m

-- The last amount and the one before it.
abbrev pub last_amount : List Amount → Option Amount
last_amount [] = none
last_amount (a ∷ []) = some a
last_amount (a ∷ b ∷ rest) = last_amount (b ∷ rest)

abbrev pub last_two : List Amount → Option (Amount × Amount)
last_two [] = none
last_two (a ∷ []) = none
last_two (a ∷ b ∷ []) = some (a, b)
last_two (a ∷ b ∷ c ∷ rest) = last_two (b ∷ c ∷ rest)

abbrev pub single_cents : List Amount → Option ℤ
single_cents [] = none
single_cents (a ∷ []) = some a.cents
single_cents (a ∷ b ∷ rest) = none

-- What the rest of `_apply_management_line` may change.
pub record LineState : Type 0 where
  pub model : DocumentModel
  pub seen_primary_total : Bool
  pub budget : SemanticBudget

abbrev pub grant : ℕ → RchFrame → (DocumentModel → DocumentModel) → LineState → LineState
unfolding if_granted
grant count frame change s =
    let (model, budget) = if_granted count frame change (s.model, s.budget) in
    record s { model = model; budget = budget }

unfoldable pub apply_printed_item : Bytes → RchFrame → LineState → LineState
unfolding printed_item_re re_match parse_printed_amount if_granted
apply_printed_item stripped frame s = elim (re_match printed_item_re stripped) [
  | none ↦ s
  | some (groups, _) ↦
      if s.seen_primary_total
      then s
      else let description = captured_text description_group groups in
        let raw = captured_text amount_group groups in
        grant 2 frame
          (λ m. record m {
            items =
                m.items
                ++ (printed_item description (parse_printed_amount raw) raw
                      (captured tax_class_group groups) (source_of frame)
                    ∷ []);
            descriptions = m.descriptions ++ (description ∷ []);
          })
          s
]

abbrev pub add_payment : Bytes → Amount → RchFrame → DocumentModel → DocumentModel
add_payment method_text a frame m = record m {
  payments = m.payments ++ (printed_payment method_text a (source_of frame) ∷ []);
}

abbrev pub add_total : Bytes → List Amount → RchFrame → DocumentModel → DocumentModel
add_total label amounts frame m = record m {
  totals = m.totals ++ (printed_total label (single_cents amounts) amounts (source_of frame) ∷ []);
}

unfoldable pub apply_tax_or_item : Bytes → List Amount → RchFrame → LineState → LineState
unfolding contains_text apply_printed_item if_granted
apply_tax_or_item stripped amounts frame s =
    if contains_text (codes "%") stripped
    then elim (last_two amounts) [
      | some (taxable, tax) ↦
          grant 1 frame
            (λ m. record m {
              taxes =
                  m.taxes
                  ++ (record {
                    raw_text = stripped;
                    taxable_amount = taxable;
                    tax_amount = tax;
                    source = source_of frame;
                  }
                      ∷ []);
            })
            s
      | none ↦ apply_printed_item stripped frame s
    ]
    else apply_printed_item stripped frame s

-- The branches on how the line starts.
unfoldable pub apply_label : Bytes → List Amount → RchFrame → LineState → LineState
unfolding upper starts_with first_word apply_tax_or_item if_granted
apply_label stripped amounts frame s = elim (last_amount amounts) [
  | none ↦ apply_tax_or_item stripped amounts frame s
  | some a ↦
      if starts_with (codes "RESTO") (upper stripped)
      then record s {
        model = record s.model { metadata = record s.model.metadata { change = some a } };
      }
      else if starts_with (codes "CONTANTI") (upper stripped)
      then grant 1 frame (add_payment (first_word stripped) a frame) s
      else if starts_with (codes "TOT") (upper stripped)
      then record (grant 1 frame (add_total (take 3 stripped) amounts frame) s) {
        seen_primary_total = true;
      }
      else apply_tax_or_item stripped amounts frame s
]

-- `_apply_management_line`
unfoldable pub apply_management_line :
    RchFrame
    → Bytes
    → Option Bytes
    → ReceiptBuilder
    → SemanticBudget
    → ReceiptBuilder × SemanticBudget
unfolding amount_fields note_currency note_order note_reference apply_label strip if_granted text_eq
apply_management_line frame text style b budget =
    let double = is_double style in
    let (lined, left) = if_granted 1 frame (add_line text double double frame) (b.model, budget) in
    let (amounts, rest) = amount_fields text frame left in
    let stripped = strip text in
    let model = note_reference stripped frame (
      note_order stripped none frame
        (note_currency stripped (record lined { amounts = lined.amounts ++ amounts }))) in
    let s =
      apply_label stripped amounts frame
        (record { model = model; seen_primary_total = b.seen_primary_total; budget = rest }) in
    (record b { model = s.model; seen_primary_total = s.seen_primary_total }, s.budget)
