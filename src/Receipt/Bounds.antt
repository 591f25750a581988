-- ===== src/Receipt/Bounds.antt =====
-- The result of src/commercialrchproxy/rch/receipt_parser.py as a whole: that there is one, and its size.
use commercial_rchproxy.Common.{
  ℕ, suc, ◌≤◌, ◌<◌, false, ◌||◌, some, List, [], ◌∷◌, ◌++◌, Bytes, length, length-take, take, ltb,
  ◌≡◌, refl, sym, ap, ◌∙◌, subst, arith,
}
use commercial_rchproxy.Framing.Types.{FramingResult, StreamEvent, frames}
use commercial_rchproxy.Framing.Framer.{Framer, Limits, made, init}
use commercial_rchproxy.Framing.Process.{finish}
use commercial_rchproxy.Framing.Feeding.{joined}
use commercial_rchproxy.Framing.Finishing.{IsComplete}
use commercial_rchproxy.Receipt.Budget.{SemanticBudget, new_budget}
use commercial_rchproxy.Receipt.Model.{
  Kind, documento_commerciale, documento_gestionale, ParsedReceipt,
}
use commercial_rchproxy.Receipt.Assembly.{parse_documents}
use commercial_rchproxy.Receipt.Counters.{Exchange, attach_counters, attach_counter}
use commercial_rchproxy.Receipt.Sound.{parse_documents-IsKept}
use commercial_rchproxy.Receipt.Messages.{request, response, messages_of}
use commercial_rchproxy.Receipt.Numbering.{toward, length-numbered, messages_of-Collects}
use commercial_rchproxy.Receipt.Issues.{length-bounded_result_issues}
use commercial_rchproxy.Receipt.Chunks.{
  BoundedFeed, bounded_start, feed_bounded, feed_bounded-IsComplete,
}
use commercial_rchproxy.Receipt.Subtypes.{
  Subtyping, subtypes_from, management_subtyping, by_fields, documento_commerciale_subtype,
  assign_document_subtypes,
}
use commercial_rchproxy.Receipt.Protocol.{
  retaining, analysis_issue, CopiesIssue, CopiesLimits, CopiesResult, parse_framed_copies, parsed,
  parse_fed, feed_both, analysis_issue, parse_protocol_chunks,
}

pub record IsBounded (l : CopiesLimits) (r : CopiesResult) : Type 0 where
  pub documents_within : length r.documents ≤ l.max_documents
  pub messages_within : length r.messages ≤ l.max_messages
  pub issues_within : length r.issues ≤ l.max_issues
  pub subtype_each : length r.subtypes ≡ length r.documents

length-attach_counters :
    (x : Exchange) (ds : List ParsedReceipt) (budget : SemanticBudget)
    → length (attach_counters x ds budget).0 ≡ length ds
unfolding attach_counters
length-attach_counters x [] budget = refl
length-attach_counters x (d ∷ ds) budget =
    ap suc (length-attach_counters x ds (attach_counter x d budget).1)

length-messages_of :
    (most : ℕ) (requests responses : List StreamEvent)
    → length (messages_of most requests responses).messages ≤ most
length-messages_of most requests responses =
    let seen = toward request requests ++ toward response responses in
    let m = messages_of-Collects most requests responses in
    let size = ap length m.collected ∙ length-numbered 1 (take most seen) ∙ length-take most seen in
    omega (arith, size)

length-subtypes_from : (prior ds : List ParsedReceipt) → length (subtypes_from prior ds) ≡ length ds
unfolding subtypes_from
length-subtypes_from prior [] = refl
length-subtypes_from prior (d ∷ ds) =
    by_kind d.kind (ap suc (length-subtypes_from (d ∷ prior) ds))
      (ap suc (length-subtypes_from prior ds))
  where
    by_kind :
        (k : Kind)
        → suc (length (subtypes_from (d ∷ prior) ds)) ≡ suc (length ds)
        → suc (length (subtypes_from prior ds)) ≡ suc (length ds)
        → length (elim k as (λ _. List Subtyping) [
          | documento_commerciale ↦
              by_fields documento_commerciale_subtype ∷ subtypes_from (d ∷ prior) ds
          | documento_gestionale ↦ management_subtyping prior d ∷ subtypes_from prior ds
        ])
          ≡ suc (length ds)
    by_kind documento_commerciale h k = h
    by_kind documento_gestionale h k = k

parse_framed_copies-IsBounded :
    (l : CopiesLimits) (initial_issues : List CopiesIssue) (requests responses : FramingResult)
    → 0 < l.max_issues
    → IsBounded l (parse_framed_copies l initial_issues requests responses)
unfolding parse_framed_copies assign_document_subtypes
parse_framed_copies-IsBounded l initial_issues requests responses some_room =
    let budget = new_budget l.max_semantic_fields in
    let r = parse_framed_copies l initial_issues requests responses in
    let s = parse_documents (frames requests.events) l.max_documents budget in
    let kept = parse_documents-IsKept (frames requests.events) l.max_documents budget in
    let exchange : Exchange = record {
      requests = frames requests.events;
      responses = frames responses.events;
      correlations = r.correlations;
    } in
    let same = length-attach_counters exchange s.documents s.semantic_budget in
    record {
      documents_within = subst (λ n. n ≤ l.max_documents) (sym same) kept.within;
      messages_within = length-messages_of l.max_messages requests.events responses.events;
      issues_within = length-bounded_result_issues _ l.max_issues some_room;
      subtype_each = length-subtypes_from [] r.documents;
    }

init-issues : (l : Limits) (f : Framer) → init l ≡ made f → 0 < l.max_issues
unfolding init
init-issues l f h = ground (arith, h)

-- Where both directions are fed, the rest gives a result.
feed_both-parsed :
    (l : CopiesLimits) (limit : ℕ) (request_chunks response_chunks : List Bytes) (f : Framer)
    (requests responses : BoundedFeed)
    → feed_bounded limit request_chunks (bounded_start f) ≡ some requests
    → feed_bounded limit response_chunks (bounded_start f) ≡ some responses
    → feed_both l limit request_chunks response_chunks f ≡ parse_fed l requests (some responses)
unfolding feed_both
feed_both-parsed l limit request_chunks response_chunks f requests responses fed fed_too =
    rw (fed, feed_both) (rw fed_too refl)

pub chunks-feed_both :
    (framing : Limits) (l : CopiesLimits) (limit : ℕ) (request_chunks response_chunks : List Bytes)
    (f : Framer)
    → init (retaining framing) ≡ made f
    → (ltb l.max_documents 1 || ltb l.max_messages 1 || ltb limit 1 || ltb l.max_semantic_fields 1)
      ≡ false
    → parse_protocol_chunks framing l limit request_chunks response_chunks
      ≡ feed_both
          (record l { max_issues = framing.max_issues })
          limit
          request_chunks
          response_chunks
          f
unfolding parse_protocol_chunks
chunks-feed_both framing l limit request_chunks response_chunks f made_f positive =
    rw (made_f, parse_protocol_chunks) (rw positive refl)

-- For limits that the framers accept and that are positive, and whatever bytes arrive in whatever
-- chunks from both sides, there is a result: its framings are complete for the first bytes of each
-- side, and its documents, messages and issues are within their limits, with a subtype for each
-- document.
pub parse_protocol_chunks-parsed :
    (framing : Limits) (l : CopiesLimits) (max_analyzed_bytes : ℕ)
    (request_chunks response_chunks : List Bytes) (f : Framer)
    → init (retaining framing) ≡ made f
    → 0 < l.max_documents
    → 0 < l.max_messages
    → 0 < max_analyzed_bytes
    → 0 < l.max_semantic_fields
    → (r : CopiesResult) × (parse_protocol_chunks framing l max_analyzed_bytes request_chunks
          response_chunks
        ≡ parsed r)
      × IsBounded (record l { max_issues = framing.max_issues }) r
      × IsComplete
          (retaining framing)
          (take max_analyzed_bytes (joined request_chunks))
          r.request_framing
      × IsComplete
          (retaining framing)
          (take max_analyzed_bytes (joined response_chunks))
          r.response_framing
unfolding parse_fed parse_framed_copies
parse_protocol_chunks-parsed framing l limit reqs resps f made_f docs messages bytes fields =
    let (q, fed, complete, count) =
      feed_bounded-IsComplete (retaining framing) f made_f refl limit reqs in
    let (p, fed_too, complete_too, count_too) =
      feed_bounded-IsComplete (retaining framing) f made_f refl limit resps in
    let limits : CopiesLimits = record l { max_issues = framing.max_issues } in
    let initial = analysis_issue request q ++ analysis_issue response p in
    (
      parse_framed_copies limits initial (finish q.framer).0 (finish p.framer).0,
      chunks-feed_both framing l limit reqs resps f made_f
            (ground (arith, docs, messages, bytes, fields))
          ∙ feed_both-parsed limits limit reqs resps f q p fed fed_too,
      parse_framed_copies-IsBounded limits initial (finish q.framer).0 (finish p.framer).0
          (init-issues (retaining framing) f made_f),
      complete,
      complete_too,
    )
