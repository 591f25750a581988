-- ===== src/Receipt/Counters.antt =====
-- src/commercialrchproxy/rch/receipt_parser.py: `_attach_response_counters`, which gives a commercial
-- document the counter that the printer answered after its payment.
use commercial_rchproxy.Common.{
  ℕ, Bool, true, false, ◌&&◌, Option, none, some, List, [], ◌∷◌, ◌++◌, Bytes, codes, text_eq, ◌==◌,
  if◌then◌else◌,
}
use commercial_rchproxy.Framing.Types.{RchFrame}
use commercial_rchproxy.Regex.{re_match, re_fullmatch, captured_text}
use commercial_rchproxy.Receipt.Patterns.{commercial_total_re, response_counter_re, counter_group}
use commercial_rchproxy.Receipt.Budget.{SemanticBudget}
use commercial_rchproxy.Receipt.Builder.{is_commercial}
use commercial_rchproxy.Receipt.Fields.{if_granted}
use commercial_rchproxy.Receipt.Correlate.{Correlation}
use commercial_rchproxy.Receipt.Messages.{is_response_profile}
use commercial_rchproxy.Receipt.Assembly.{is_request_profile}
use commercial_rchproxy.Receipt.Model.{
  source_of, trace_of, DocumentLine, DocumentModel, ParsedReceipt,
}

-- A lookup in a dictionary that a comprehension fills: the last entry of a key counts.
unfoldable pub frame_by_id : ℕ → List RchFrame → Option RchFrame
frame_by_id id [] = none
frame_by_id id (f ∷ fs) = elim (frame_by_id id fs) [
  | some g ↦ some g
  | none ↦ if f.frame_id == id then some f else none
]

unfoldable pub correlation_by_request : ℕ → List Correlation → Option Correlation
correlation_by_request id [] = none
correlation_by_request id (c ∷ cs) = elim (correlation_by_request id cs) [
  | some d ↦ some d
  | none ↦ if c.request_frame_id == id then some c else none
]

-- What the candidates are looked up in.
pub record Exchange : Type 0 where
  pub requests : List RchFrame
  pub responses : List RchFrame
  pub correlations : List Correlation

-- The request of an id, if it has the expected profile.
unfoldable pub request_of : Exchange → ℕ → Option RchFrame
unfolding frame_by_id is_request_profile
request_of x id = elim (frame_by_id id x.requests) [
  | none ↦ none
  | some f ↦ if is_request_profile f then some f else none
]

unfoldable pub is_total : RchFrame → Bool
unfolding re_fullmatch commercial_total_re
is_total f = elim (re_fullmatch commercial_total_re f.payload) [ none ↦ false | some m ↦ true ]

unfoldable pub is_query : RchFrame → Bool
unfolding text_eq
is_query f = text_eq f.payload (codes "<</?s")

abbrev pub is_true : Option Bool → Bool
is_true none = false
is_true (some b) = b

-- The id of the response frame, of a correlation whose sequence matches.
abbrev pub matched_response : Correlation → Option ℕ
matched_response c = if is_true c.sequence_matches then c.response_frame_id else none

-- The counter in a response.
unfoldable pub counter_in : RchFrame → Option (RchFrame × Bytes)
unfolding is_response_profile re_match response_counter_re
counter_in f =
    if is_response_profile f
    then elim (re_match response_counter_re f.payload) [
      | none ↦ none
      | some m ↦ some (f, captured_text counter_group m.0)
    ]
    else none

-- The response counter of a query.
unfoldable pub answer_of : Exchange → ℕ → Option (RchFrame × Bytes)
unfolding correlation_by_request frame_by_id counter_in
answer_of x id = elim (correlation_by_request id x.correlations) [
  | none ↦ none
  | some c ↦ elim (matched_response c) [
    | none ↦ none
    | some response ↦ elim (frame_by_id response x.responses) [
      | none ↦ none
      | some f ↦ counter_in f
    ]
  ]
]

abbrev pub with_answer {ℓ} : {A : Type ℓ} → Option A → List A → List A
with_answer none as' = as'
with_answer (some a) as' = a ∷ as'

-- `candidates`, from the state of `payment_seen`
unfoldable pub candidates : Exchange → Bool → List ℕ → List (RchFrame × Bytes)
unfolding request_of is_total is_query answer_of
candidates x payment_seen [] = []
candidates x payment_seen (id ∷ ids) =
    let unchanged = candidates x payment_seen ids in
    let paid = candidates x true ids in
    elim (request_of x id) [
      | none ↦ unchanged
      | some f ↦
          if is_total f
          then paid
          else if payment_seen && is_query f
          then with_answer (answer_of x id) unchanged
          else unchanged
    ]

abbrev pub last_candidate : List (RchFrame × Bytes) → Option (RchFrame × Bytes)
last_candidate [] = none
last_candidate (c ∷ []) = some c
last_candidate (c ∷ d ∷ cs) = last_candidate (d ∷ cs)

abbrev plain_line : Bytes → RchFrame → DocumentLine
plain_line text f = record {
  text = text;
  trace = trace_of f;
  bold = false;
  double_width = false;
  double_height = false;
}

-- What the counter adds to the model.
unfoldable pub add_counter : RchFrame → Bytes → DocumentModel → DocumentModel
unfolding source_of trace_of
add_counter f suffix m = record m {
  document_number = some suffix;
  response_counter_suffix = some suffix;
  metadata = record m.metadata { document_number_source = some (source_of f) };
  footer =
      m.footer
      ++ (plain_line [] f ∷ plain_line (codes "DOCUMENTO N. (solo suffisso) " ++ suffix) f ∷ []);
}

-- The round of the loop for one document.
unfoldable pub attach_counter :
    Exchange → ParsedReceipt → SemanticBudget → ParsedReceipt × SemanticBudget
unfolding candidates add_counter if_granted
attach_counter x d budget =
    if is_commercial d.kind && d.is_complete
    then elim (last_candidate (candidates x false d.frame_ids)) [
      | none ↦ (d, budget)
      | some (f, suffix) ↦
          let (model, left) = if_granted 4 f (add_counter f suffix) (d.model, budget) in
          (record d { model = model }, left)
    ]
    else (d, budget)

-- `_attach_response_counters`
unfoldable pub attach_counters :
    Exchange → List ParsedReceipt → SemanticBudget → List ParsedReceipt × SemanticBudget
unfolding attach_counter
attach_counters x [] budget = ([], budget)
attach_counters x (d ∷ ds) budget =
    let (attached, left) = attach_counter x d budget in
    let (others, rest) = attach_counters x ds left in (attached ∷ others, rest)
