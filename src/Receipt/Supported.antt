-- ===== src/Receipt/Supported.antt =====
-- What supports the number that `_attach_response_counters` of
-- src/commercialrchproxy/rch/receipt_parser.py gives to a document.
use commercial_rchproxy.Common.{
  ℕ, Bool, true, false, ◌&&◌, List, [], ◌∷◌, Bytes, ◌≡◌, refl, ◌⊎◌, inl, inr, if-cases,
  option-cases, arith,
}
use commercial_rchproxy.Framing.Types.{RchFrame}
use commercial_rchproxy.Receipt.Budget.{SemanticBudget, reserve}
use commercial_rchproxy.Receipt.Builder.{is_commercial}
use commercial_rchproxy.Receipt.Fields.{if_granted, limit_at}
use commercial_rchproxy.Receipt.Model.{ParsedReceipt}
use commercial_rchproxy.Receipt.Counters.{
  Exchange, request_of, is_total, is_query, answer_of, candidates, last_candidate, add_counter,
  attach_counter, attach_counters,
}
use commercial_rchproxy.Receipt.Support.{
  AllOf-map, Answered, Supports, AllOf, AllOf-last, Answered-cons, Supports-cons, with_answer-AllOf,
}
use commercial_rchproxy.Receipt.Answers.{
  is_total-IsTotal, answer_of-Replies, is_query-IsQuery, request_of-Frame,
}

-- After a payment each candidate is the answer to a query that is left.
candidates-Answered : (x : Exchange) (ids : List ℕ) → AllOf (Answered x ids) (candidates x true ids)
unfolding candidates
candidates-Answered x [] = tt
candidates-Answered x (id ∷ ids) =
    let P = Answered x (id ∷ ids) in
    let rest =
      AllOf-map (λ c. Answered-cons x id ids c) (candidates x true ids)
        (candidates-Answered x ids) in
    option-cases (AllOf P) (request_of x id) (λ _. rest)
      (λ f found.
        if-cases (AllOf P) (is_total f) (λ _. rest)
          (λ _.
            if-cases (AllOf P) (is_query f)
              (λ query.
                with_answer-AllOf (answer_of x id) (candidates x true ids)
                  (λ c answer. record {
                    before = [];
                    query = id;
                    after = ids;
                    places = refl;
                    queried = record {
                      request = f;
                      sent = request_of-Frame x id f found;
                      says = is_query-IsQuery f query;
                    };
                    answer = answer_of-Replies x id c answer;
                  })
                  rest)
              (λ _. rest)))

candidates-Supports :
    (x : Exchange) (ids : List ℕ) → AllOf (Supports x ids) (candidates x false ids)
unfolding candidates
candidates-Supports x [] = tt
candidates-Supports x (id ∷ ids) =
    let P = Supports x (id ∷ ids) in
    let rest =
      AllOf-map (λ c. Supports-cons x id ids c) (candidates x false ids)
        (candidates-Supports x ids) in
    option-cases (AllOf P) (request_of x id) (λ _. rest)
      (λ f found.
        if-cases (AllOf P) (is_total f)
          (λ total.
            AllOf-map
              (λ c answered. record {
                before = [];
                total = id;
                after = ids;
                places = refl;
                paid = record {
                  request = f;
                  sent = request_of-Frame x id f found;
                  says = is_total-IsTotal f total;
                };
                answered = answered;
              })
              (candidates x true ids) (candidates-Answered x ids))
          (λ _. rest))

-- A document with the counter of a response, for which it has support.
pub record GetsCounter (x : Exchange) (d d' : ParsedReceipt) : Type 0 where
  pub counter : RchFrame × Bytes
  pub commercial : is_commercial d.kind ≡ true
  pub completed : d.is_complete ≡ true
  pub supported : Supports x d.frame_ids counter
  pub result : d' ≡ record d { model = add_counter counter.0 counter.1 d.model }

abbrev pub Attaches : Exchange → List ParsedReceipt → List ParsedReceipt → Type 0
Attaches x [] [] = Unit {0}
Attaches x [] (d' ∷ ds') = ⊥
Attaches x (d ∷ ds) [] = ⊥
Attaches x (d ∷ ds) (d' ∷ ds') = ((d' ≡ d) ⊎ GetsCounter x d d') × Attaches x ds ds'

both : (a b : Bool) → (a && b) ≡ true → (a ≡ true) × (b ≡ true)
both a b h = ground arith

attach_counter-or :
    (x : Exchange) (d : ParsedReceipt) (budget : SemanticBudget)
    → ((attach_counter x d budget).0 ≡ d) ⊎ GetsCounter x d (attach_counter x d budget).0
unfolding attach_counter if_granted
attach_counter-or x d budget =
    let P = λ (p : ParsedReceipt × SemanticBudget). (p.0 ≡ d) ⊎ GetsCounter x d p.0 in
    let found = candidates x false d.frame_ids in
    if-cases P (is_commercial d.kind && d.is_complete)
      (λ eligible.
        option-cases P (last_candidate found) (λ _. inl refl)
          (λ c last.
            if-cases (λ m. (record d { model = m } ≡ d) ⊎ GetsCounter x d (record d { model = m }))
              (reserve 4 (limit_at c.0) budget).0
              (λ _. inr (record {
                counter = c;
                commercial = (both (is_commercial d.kind) d.is_complete eligible).0;
                completed = (both (is_commercial d.kind) d.is_complete eligible).1;
                supported =
                    AllOf-last (Supports x d.frame_ids) found c (candidates-Supports x d.frame_ids)
                      last;
                result = refl;
              }))
              (λ _. inl refl)))
      (λ _. inl refl)

-- Each document is unchanged or gets the counter of a response: then it is a complete commercial one,
-- and its frames hold the id of an intact request with a total, and behind it that of an intact
-- counter query. A correlation of the query has a matching sequence and names an intact response, of
-- the printer's address and class, whose text starts with that counter.
pub attach_counters-Attaches :
    (x : Exchange) (ds : List ParsedReceipt) (budget : SemanticBudget)
    → Attaches x ds (attach_counters x ds budget).0
unfolding attach_counters
attach_counters-Attaches x [] budget = tt
attach_counters-Attaches x (d ∷ ds) budget =
    (attach_counter-or x d budget, attach_counters-Attaches x ds (attach_counter x d budget).1)
