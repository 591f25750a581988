-- ===== src/Receipt/DocumentTests.antt =====
-- Documents and amounts on concrete inputs.
use commercial_rchproxy.Common.{
  ℕ, true, none, some, List, [], ◌∷◌, Bytes, length, take, ◌-◌, map, ◌++◌, ◌≡◌, refl, codes, pos,
  negsuc, ◌*◌,
}
use commercial_rchproxy.Framing.Types.{RchFrame}
use commercial_rchproxy.Receipt.Budget.{new_budget}
use commercial_rchproxy.Receipt.Assembly.{parse_documents}
use commercial_rchproxy.Framing.Types.{StreamEvent, frame}
use commercial_rchproxy.Receipt.Model.{source_of, ParsedReceipt}
use commercial_rchproxy.Receipt.Correlate.{Correlation}
use commercial_rchproxy.Receipt.Kept.{IsKept}
use commercial_rchproxy.Receipt.Sound.{parse_documents-IsKept}
use commercial_rchproxy.Receipt.Outline.{outline_receipt}
use commercial_rchproxy.Receipt.Alike.{parse_documents-budget}
use commercial_rchproxy.Receipt.Cents.{parse_printed_amount-format_cents}
use commercial_rchproxy.Receipt.Counters.{Exchange, attach_counters}
use commercial_rchproxy.Receipt.Supported.{Attaches, attach_counters-Attaches}
use commercial_rchproxy.Receipt.Messages.{
  Direction, messages_of, commercial_start_candidate, commercial_item,
}
use commercial_rchproxy.Framing.Framer.{Limits, init, made, fresh}
use commercial_rchproxy.Framing.Process.{finish}
use commercial_rchproxy.Framing.Feeding.{joined}
use commercial_rchproxy.Framing.Finishing.{IsComplete}
use commercial_rchproxy.Receipt.Chunks.{
  BoundedFeed, feed_bounded, bounded_start, feed_bounded-IsComplete,
}
use commercial_rchproxy.Receipt.Numbering.{Collects, toward, messages_of-Collects}
use commercial_rchproxy.Receipt.Amounts.{parse_printed_amount, format_cents}

abbrev pub request : ℕ → Bytes → RchFrame
request id payload = record {
  event_id = id;
  frame_id = id;
  stream_offset = 100 * id;
  raw = [];
  address = codes "00";
  data_length = 0;
  frame_class = b'z';
  payload = payload;
  sequence = 48;
  bcc = [];
  expected_bcc = [];
  bcc_valid = true;
}

-- A sale of one item, and a management document of two lines that is not closed.
abbrev stream : List RchFrame
stream =
    request 1 (codes "=K")
    ∷ request 2 (codes "=R1/$250/*2/(Caffe (lungo))")
    ∷ request 3 (codes "=\"/?A/(Ordine: 12)/*2")
    ∷ request 4 (codes "=D1/(TOTALE)")
    ∷ request 5 (codes "=T1/$500")
    ∷ request 6 (codes "<</?s")
    ∷ request 7 (codes "<</?7")
    ∷ request 8 (codes "=o")
    ∷ request 9 (codes "=\"/(PIZZA  1.007,50 B)")
    ∷ request 10 (codes "=\"/(TOT EURO 1.007,50)/*2")
    ∷ []

frames_of_documents :
    map (λ d. d.frame_ids) (parse_documents stream 5 (new_budget 100)).documents
    ≡ (1 ∷ 2 ∷ 3 ∷ 5 ∷ 6 ∷ 7 ∷ []) ∷ (8 ∷ 9 ∷ 10 ∷ []) ∷ []
unfolding parse_documents
frames_of_documents = refl

amounts_of_documents :
    map
      (λ d. map (λ a. a.cents) d.model.amounts)
      (parse_documents stream 5 (new_budget 100)).documents
    ≡ (pos 250 ∷ pos 500 ∷ []) ∷ (pos 100750 ∷ pos 100750 ∷ []) ∷ []
unfolding parse_documents
amounts_of_documents = refl

descriptions_of_documents :
    map (λ d. d.model.descriptions) (parse_documents stream 5 (new_budget 100)).documents
    ≡ (codes "Caffe (lungo)" ∷ []) ∷ (codes "PIZZA" ∷ []) ∷ []
unfolding parse_documents
descriptions_of_documents = refl

totals_of_documents :
    map (λ d. length d.model.totals) (parse_documents stream 5 (new_budget 100)).documents
    ≡ 1 ∷ 1 ∷ []
unfolding parse_documents
totals_of_documents = refl

order_of_document :
    map (λ d. d.model.metadata.order) (parse_documents stream 1 (new_budget 100)).documents
    ≡ some (record {
      order_text = codes "Ordine: 12";
      rendered_order_text = some (codes "#Ordine: 12");
      order_value = some (codes "12");
      order_source = record { frame_id = 3; stream_offset = 300; end_offset = 300 };
    })
      ∷ []
unfolding parse_documents source_of
order_of_document = refl

parse_documents-IsKept_example :
    let s = parse_documents stream 1 (new_budget 100) in
    IsKept 1 s.documents s.issues s.document_limit_reported
parse_documents-IsKept_example = parse_documents-IsKept stream 1 (new_budget 100)

parse_documents-budget_example :
    let s = parse_documents stream 5 (new_budget 100) in
    let t = parse_documents stream 5 (new_budget 3) in
    (map outline_receipt s.documents ≡ map outline_receipt t.documents)
    × (s.issues ≡ t.issues)
    × (s.document_limit_reported ≡ t.document_limit_reported)
parse_documents-budget_example = parse_documents-budget stream 5 (new_budget 100) (new_budget 3)

parse_printed_amount-format_cents_example :
    parse_printed_amount (format_cents (negsuc 123404)) ≡ some (negsuc 123404)
parse_printed_amount-format_cents_example = parse_printed_amount-format_cents (negsuc 123404)

-- With thousands marked by dots, and spaces around.
amount_with_dots : parse_printed_amount (codes " -1.234,05 ") ≡ some (negsuc 123404)
unfolding parse_printed_amount
amount_with_dots = refl

amount_without_cents : parse_printed_amount (codes "12,5") ≡ none
unfolding parse_printed_amount
amount_without_cents = refl

-- The printer's answers to the queries before and after the payment.
abbrev answer : ℕ → Bytes → RchFrame
answer id payload = record (request id payload) { address = codes "01"; frame_class = b'N' }

abbrev correlation : ℕ → ℕ → Correlation
correlation id response = record {
  request_frame_id = id;
  request_stream_offset = 0;
  request_sequence = 48;
  ack_event_id = none;
  ack_stream_offset = none;
  response_frame_id = some response;
  response_stream_offset = none;
  expected_response_sequence = none;
  observed_response_sequence = none;
  sequence_matches = some true;
}

abbrev exchange : Exchange
exchange = record {
  requests = stream;
  responses = answer 1 (codes "s000000RE0011") ∷ answer 6 (codes "s000000RE0012") ∷ [];
  correlations = correlation 1 1 ∷ correlation 6 6 ∷ [];
}

abbrev sold : List ParsedReceipt
unfolding parse_documents
sold = (parse_documents stream 1 (new_budget 100)).documents

numbers_of_sold :
    map (λ d. d.model.document_number) (attach_counters exchange sold (new_budget 100)).0
    ≡ some (codes "0012") ∷ []
unfolding parse_documents attach_counters
numbers_of_sold = refl

attach_counters-Attaches_example :
    Attaches exchange sold (attach_counters exchange sold (new_budget 100)).0
attach_counters-Attaches_example = attach_counters-Attaches exchange sold (new_budget 100)

abbrev events : List StreamEvent
events = frame (request 1 (codes "=K")) ∷ frame (request 2 (codes "=R1/$250/(Caffe)")) ∷ []

messages_of-Collects_example :
    Collects 1
      (toward Direction.request events ++ toward Direction.response [])
      (messages_of 1 events [])
messages_of-Collects_example = messages_of-Collects 1 events []

roles_of_events :
    map (λ m. m.role) (messages_of 5 events []).messages
    ≡ commercial_start_candidate ∷ commercial_item (codes "Caffe") (pos 250) none (codes "1") ∷ []
unfolding messages_of
roles_of_events = refl

-- Three bytes of a limit of four arrive first; of the next three bytes two are omitted.
abbrev chunks : List Bytes
chunks = (6 ∷ 6 ∷ 6 ∷ []) ∷ (6 ∷ 2 ∷ 48 ∷ []) ∷ []

abbrev pub standard : Limits
standard = record {
  max_data_length = 999;
  max_buffer_bytes = 4096;
  max_events = 8192;
  max_issues = 1024;
  max_issue_raw_bytes = 4096;
  retain_history = true;
}

pub init-standard : init standard ≡ made (fresh standard)
unfolding init
init-standard = refl

feed_bounded-IsComplete_example :
    (t : BoundedFeed) × (feed_bounded 4 chunks (bounded_start (fresh standard)) ≡ some t)
    × IsComplete standard (take 4 (joined chunks)) (finish t.framer).0
    × (t.omitted ≡ length (joined chunks) - 4)
feed_bounded-IsComplete_example =
    feed_bounded-IsComplete standard (fresh standard) init-standard refl 4 chunks
