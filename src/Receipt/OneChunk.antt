-- ===== src/Receipt/OneChunk.antt =====
-- The two entries of src/commercialrchproxy/rch/receipt_parser.py: whole streams and chunks.
use commercial_rchproxy.Common.{
  ℕ, ◌+◌, ◌-◌, ◌≤◌, ◌<◌, min, true, false, ◌||◌, Option, none, some, List, [], ◌∷◌, ◌++◌, Bytes,
  length, take, take_all, ltb, ◌==◌, ◌≡◌, refl, sym, ap, ◌∙◌, arith,
}
use commercial_rchproxy.Framing.Types.{StreamEvent}
use commercial_rchproxy.Framing.Framer.{Framer, Limits, made, init}
use commercial_rchproxy.Framing.Process.{
  feed, finish, StreamResult, framed, frame_with, frame_stream,
}
use commercial_rchproxy.Receipt.Messages.{Direction, request, response}
use commercial_rchproxy.Receipt.Chunks.{BoundedFeed, bounded_start, feed_bounded}
use commercial_rchproxy.Receipt.Protocol.{
  CopiesLimits, feed_failed, retaining, parse_fed, feed_both, parse_protocol_chunks, stream_issue,
  parse_framings, parse_protocol_copies,
}
use commercial_rchproxy.Receipt.Bounds.{chunks-feed_both}

-- One round of `feed_bounded` that feeds `stream`, with the count of omitted bytes after it.
abbrev after_feed : ℕ → Bytes → Option (List StreamEvent × Framer) → Option BoundedFeed
after_feed left_out stream none = none
after_feed left_out stream (some (emitted, g)) =
    some (record { framer = g; seen = 0 + length stream; omitted = left_out })

feed_bounded-one :
    (limit : ℕ) (stream : Bytes) (f : Framer)
    → 0 < limit
    → length stream ≤ limit
    → feed_bounded limit (stream ∷ []) (bounded_start f) ≡ after_feed 0 stream (feed f stream)
unfolding feed_bounded
feed_bounded-one limit stream f positive within =
    let some_room : (limit - 0 == 0) ≡ false = ground (arith, positive) in
    let all : take (limit - 0) stream ≡ stream =
      take_all (limit - 0) stream (omega (arith, within)) in
    let none_left : 0 + (length stream - min (length stream) (limit - 0)) ≡ 0 =
      omega (arith, within) in
    rw (some_room, feed_bounded) (λ i. after_feed (none_left i) (all i) (feed f (all i)))

stream_issue-none :
    (d : Direction) (limit : ℕ) (stream : Bytes)
    → length stream ≤ limit
    → stream_issue d limit stream ≡ []
stream_issue-none d limit stream within =
    let same = ap length (take_all limit stream within) in
    let equal : (length stream == length (take limit stream)) ≡ true = ground (arith, same) in
    rw equal refl

frame_stream-within :
    (framing : Limits) (f : Framer) (limit : ℕ) (stream : Bytes)
    → init (retaining framing) ≡ made f
    → length stream ≤ limit
    → frame_stream framing (take limit stream) ≡ frame_with (made f) stream
unfolding frame_stream
frame_stream-within framing f limit stream made_f within =
    ap (frame_with (init (retaining framing))) (take_all limit stream within)
    ∙ ap (λ r. frame_with r stream) made_f

feed_both-failed :
    (l : CopiesLimits) (limit : ℕ) (qs ps : List Bytes) (f : Framer)
    → feed_bounded limit qs (bounded_start f) ≡ none
    → feed_both l limit qs ps f ≡ feed_failed
unfolding feed_both
feed_both-failed l limit qs ps f failed = rw (failed, feed_both) refl

feed_both-fed :
    (l : CopiesLimits) (limit : ℕ) (qs ps : List Bytes) (f : Framer) (q : BoundedFeed)
    → feed_bounded limit qs (bounded_start f) ≡ some q
    → feed_both l limit qs ps f ≡ parse_fed l q (feed_bounded limit ps (bounded_start f))
unfolding feed_both
feed_both-fed l limit qs ps f q fed = rw (fed, feed_both) refl

abbrev framed_by : Option (List StreamEvent × Framer) → Option StreamResult
framed_by none = none
framed_by (some (emitted, g)) = some (framed (finish g).0)

frame_with-framed_by :
    (f : Framer) (stream : Bytes) → frame_with (made f) stream ≡ framed_by (feed f stream)
unfolding frame_with
frame_with-framed_by f stream = by_feed (feed f stream)
  where
    by_feed :
        (o : Option (List StreamEvent × Framer))
        → (elim o as (λ _. Option StreamResult) [
          | none ↦ none
          | some (emitted, g) ↦ some (framed (finish g).0)
        ])
          ≡ framed_by o
    by_feed none = refl
    by_feed (some (e, g)) = refl

-- The same outcome from what both framers return.
same_outcome :
    (l : CopiesLimits) (requests responses : Bytes) (limit : ℕ) (f : Framer)
    (o p : Option (List StreamEvent × Framer))
    → feed_bounded limit (requests ∷ []) (bounded_start f) ≡ after_feed 0 requests o
    → feed_bounded limit (responses ∷ []) (bounded_start f) ≡ after_feed 0 responses p
    → feed_both l limit (requests ∷ []) (responses ∷ []) f
      ≡ parse_framings l [] (framed_by o) (framed_by p)
unfolding parse_framings parse_fed
same_outcome l qs ps limit f none p fed fed_too = feed_both-failed l limit (qs ∷ []) (ps ∷ []) f fed
same_outcome l qs ps limit f (some (e, g)) none fed fed_too =
    feed_both-fed l limit (qs ∷ []) (ps ∷ []) f _ fed
    ∙ ap (parse_fed l (record { framer = g; seen = 0 + length qs; omitted = 0 })) fed_too
same_outcome l qs ps limit f (some (e, g)) (some (e', g')) fed fed_too =
    feed_both-fed l limit (qs ∷ []) (ps ∷ []) f _ fed
    ∙ ap (parse_fed l (record { framer = g; seen = 0 + length qs; omitted = 0 })) fed_too

copies-framings :
    (framing : Limits) (l : CopiesLimits) (limit : ℕ) (requests responses : Bytes)
    → (ltb l.max_documents 1 || ltb l.max_messages 1 || ltb limit 1 || ltb l.max_semantic_fields 1)
      ≡ false
    → parse_protocol_copies framing l limit requests responses
      ≡ parse_framings
          (record l { max_issues = framing.max_issues })
          (stream_issue request limit requests ++ stream_issue response limit responses)
          (frame_stream framing (take limit requests))
          (frame_stream framing (take limit responses))
unfolding parse_protocol_copies
copies-framings framing l limit requests responses positive = rw positive refl

-- For limits that the framers accept and that are positive, and streams of at most
-- `max_analyzed_bytes` bytes, parsing both streams whole and parsing each as one chunk come out the
-- same.
pub parse_protocol_copies-parse_protocol_chunks :
    (framing : Limits) (l : CopiesLimits) (max_analyzed_bytes : ℕ) (requests responses : Bytes)
    (f : Framer)
    → init (retaining framing) ≡ made f
    → 0 < l.max_documents
    → 0 < l.max_messages
    → 0 < max_analyzed_bytes
    → 0 < l.max_semantic_fields
    → length requests ≤ max_analyzed_bytes
    → length responses ≤ max_analyzed_bytes
    → parse_protocol_copies framing l max_analyzed_bytes requests responses
      ≡ parse_protocol_chunks framing l max_analyzed_bytes (requests ∷ []) (responses ∷ [])
parse_protocol_copies-parse_protocol_chunks framing l limit qs ps f made_f docs messages bytes
      fields few few_too =
    let limits : CopiesLimits = record l { max_issues = framing.max_issues } in
    let positive : (ltb l.max_documents 1
          || ltb l.max_messages 1
          || ltb limit 1
          || ltb l.max_semantic_fields 1)
        ≡ false =
      ground (arith, docs, messages, bytes, fields) in
    let no_issues : stream_issue request limit qs ++ stream_issue response limit ps ≡ [] = λ i.
      stream_issue-none request limit qs few i ++ stream_issue-none response limit ps few_too i in
    let framed_qs = frame_stream-within framing f limit qs made_f few ∙ frame_with-framed_by f qs in
    let framed_ps =
      frame_stream-within framing f limit ps made_f few_too ∙ frame_with-framed_by f ps in
    copies-framings framing l limit qs ps positive
    ∙ (λ i. parse_framings limits (no_issues i) (framed_qs i) (framed_ps i))
    ∙ sym (
        same_outcome limits qs ps limit f (feed f qs) (feed f ps)
          (feed_bounded-one limit qs f bytes few) (feed_bounded-one limit ps f bytes few_too))
    ∙ sym (chunks-feed_both framing l limit (qs ∷ []) (ps ∷ []) f made_f positive)
