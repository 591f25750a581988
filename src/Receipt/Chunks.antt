-- ===== src/Receipt/Chunks.antt =====
-- src/commercialrchproxy/rch/receipt_parser.py: `feed_bounded` of `parse_protocol_chunks`, which frames
-- the first bytes of a stream that arrives in chunks.
use commercial_rchproxy.Common.{
  ℕ, ◌+◌, ◌-◌, min, true, false, Option, none, some, List, [], ◌∷◌, ◌++◌, Bytes, length,
  length-append, length-take, take, take_all, take_of_append, ◌==◌, ◌≡◌, refl, sym, ap, subst, ◌∙◌,
  arith, Bool-cases, inl, inr, Option-cases, some-injective,
}
use commercial_rchproxy.Framing.Types.{StreamEvent}
use commercial_rchproxy.Framing.Framer.{Framer, Limits, init, made}
use commercial_rchproxy.Framing.Process.{feed, feed_all, finish, finished_result}
use commercial_rchproxy.Framing.Feeding.{joined}
use commercial_rchproxy.Framing.Finishing.{IsComplete}
use commercial_rchproxy.Framing.Contract.{finish-feed_all}

-- The variables of `feed_bounded`, with its framer.
pub record BoundedFeed : Type 0 where
  pub framer : Framer
  pub seen : ℕ
  pub omitted : ℕ

abbrev omit : Bytes → ℕ → BoundedFeed → BoundedFeed
omit chunk remaining s = record s {
  omitted = s.omitted + (length chunk - min (length chunk) remaining);
}

-- `-` stops at 0, which is `max(0, max_analyzed_bytes - seen)`.
unfoldable pub feed_bounded : ℕ → List Bytes → BoundedFeed → Option BoundedFeed
unfolding feed
feed_bounded max_analyzed_bytes [] s = some s
feed_bounded max_analyzed_bytes (chunk ∷ chunks) s =
    let remaining = max_analyzed_bytes - s.seen in
    let accepted = take remaining chunk in
    elim (remaining == 0) [
      | true ↦ feed_bounded max_analyzed_bytes chunks (omit chunk remaining s)
      | false ↦ elim (feed s.framer accepted) [
        | none ↦ none
        | some (_, g) ↦
            feed_bounded max_analyzed_bytes chunks
              (omit chunk remaining (record s { framer = g; seen = s.seen + length accepted }))
      ]
    ]

-- The pieces that are fed.
pieces : ℕ → ℕ → List Bytes → List Bytes
pieces limit seen [] = []
pieces limit seen (chunk ∷ chunks) = elim (limit - seen == 0) [
  | true ↦ pieces limit seen chunks
  | false ↦
      take (limit - seen) chunk ∷ pieces limit (seen + length (take (limit - seen) chunk)) chunks
]

pieces_done :
    (limit seen : ℕ) (chunk : Bytes) (chunks : List Bytes)
    → (limit - seen == 0) ≡ true
    → pieces limit seen (chunk ∷ chunks) ≡ pieces limit seen chunks
unfolding pieces
pieces_done limit seen chunk chunks done = rw (done, pieces) refl

pieces_more :
    (limit seen : ℕ) (chunk : Bytes) (chunks : List Bytes)
    → (limit - seen == 0) ≡ false
    → pieces limit seen (chunk ∷ chunks)
      ≡ take (limit - seen) chunk ∷ pieces limit (seen + length (take (limit - seen) chunk)) chunks
unfolding pieces
pieces_more limit seen chunk chunks more = rw (more, pieces) refl

joined-pieces :
    (limit seen : ℕ) (chunks : List Bytes)
    → joined (pieces limit seen chunks) ≡ take (limit - seen) (joined chunks)
unfolding pieces
joined-pieces limit seen [] = sym (take_all (limit - seen) [] (omega arith))
joined-pieces limit seen (chunk ∷ chunks) = elim (Bool-cases (limit - seen == 0)) [
  | inl done ↦
      let nothing : limit - seen ≡ 0 = ground (arith, done) in
      let rest = joined-pieces limit seen chunks in
      rw (done, pieces)
        (rest
          ∙ ap (λ n. take n (joined chunks)) nothing
          ∙ sym (ap (λ n. take n (chunk ++ joined chunks)) nothing))
  | inr more ↦
      let size = length-take (limit - seen) chunk in
      let left : limit - (seen + length (take (limit - seen) chunk)) ≡ limit - seen - length chunk =
        omega (arith, size) in
      rw (more, pieces)
        (ap (λ l. take (limit - seen) chunk ++ l)
            (joined-pieces limit (seen + length (take (limit - seen) chunk)) chunks
              ∙ ap (λ n. take n (joined chunks)) left)
          ∙ sym (take_of_append (limit - seen) chunk (joined chunks)))
]

feed_all_refused :
    (f : Framer) (chunk : Bytes) (chunks : List Bytes)
    → feed f chunk ≡ none
    → feed_all f (chunk ∷ chunks) ≡ none
unfolding feed_all
feed_all_refused f chunk chunks e = rw (e, feed_all) refl

feed_all_step :
    (f h : Framer) (chunk : Bytes) (chunks : List Bytes) (emitted : List StreamEvent)
    → feed f chunk ≡ some (emitted, h)
    → feed_all h chunks ≡ feed_all f (chunk ∷ chunks)
unfolding feed_all
feed_all_step f h chunk chunks emitted e = rw (e, feed_all) refl

-- Where the framer takes the pieces, the loop comes to its end.
pub record Ends (limit : ℕ) (chunks : List Bytes) (s : BoundedFeed) (g : Framer) : Type 0 where
  pub end : BoundedFeed
  pub runs : feed_bounded limit chunks s ≡ some end
  pub framer_fed : end.framer ≡ g
  pub counted : end.omitted ≡ s.omitted + (length (joined chunks) - (limit - s.seen))

feed_bounded-Ends :
    (limit : ℕ) (chunks : List Bytes) (s : BoundedFeed) (g : Framer)
    → feed_all s.framer (pieces limit s.seen chunks) ≡ some g
    → Ends limit chunks s g
unfolding feed_bounded pieces feed_all
feed_bounded-Ends limit [] s g e = record {
  end = s;
  runs = refl;
  framer_fed = cc e;
  counted = omega arith;
}
feed_bounded-Ends limit (chunk ∷ chunks) s g e =
    let remaining = limit - s.seen in
    let accepted = take remaining chunk in
    let size = length-append chunk (joined chunks) in
    let taken = length-take remaining chunk in
    elim (Bool-cases (remaining == 0)) [
      | inl done ↦
          let nothing : remaining ≡ 0 = ground (arith, done) in
          let ih =
            feed_bounded-Ends limit chunks (omit chunk remaining s) g
              (ap (feed_all s.framer) (sym (pieces_done limit s.seen chunk chunks done)) ∙ e) in
          let count = ih.counted in
          record {
            end = ih.end;
            runs = rw (done, feed_bounded) ih.runs;
            framer_fed = ih.framer_fed;
            counted = omega (arith, count, nothing, size);
          }
      | inr more ↦
          let later = pieces limit (s.seen + length accepted) chunks in
          let e' = ap (feed_all s.framer) (sym (pieces_more limit s.seen chunk chunks more)) ∙ e in
          elim (Option-cases (feed s.framer accepted)) [
            | inl refused ↦ cc (feed_all_refused s.framer accepted later refused, e')
            | inr ((emitted, h), fed) ↦
                let ih =
                  feed_bounded-Ends limit chunks
                    (omit chunk remaining
                      (record s { framer = h; seen = s.seen + length accepted }))
                    g (feed_all_step s.framer h accepted later emitted fed ∙ e') in
                let count = ih.counted in
                record {
                  end = ih.end;
                  runs = rw (more, feed_bounded) (rw (fed, feed_bounded) ih.runs);
                  framer_fed = ih.framer_fed;
                  counted = omega (arith, count, size, taken);
                }
          ]
    ]

-- `feed_bounded` from its start
abbrev pub bounded_start : Framer → BoundedFeed
bounded_start f = record { framer = f; seen = 0; omitted = 0 }

module _ (l : Limits) (f : Framer) (made_f : init l ≡ made f)
    (retains : l.retain_history ≡ true) where
  -- However the bytes arrive in chunks, `feed_bounded` comes to its end: it counts the bytes beyond
  -- the limit, and the result of its framer is complete for the bytes before it.
  pub feed_bounded-IsComplete :
      (max_analyzed_bytes : ℕ) (chunks : List Bytes)
      → (t : BoundedFeed) × (feed_bounded max_analyzed_bytes chunks (bounded_start f) ≡ some t)
        × IsComplete l (take max_analyzed_bytes (joined chunks)) (finish t.framer).0
        × (t.omitted ≡ length (joined chunks) - max_analyzed_bytes)
  feed_bounded-IsComplete limit chunks =
      let fed = pieces limit 0 chunks in
      let (r, e, complete) = finish-feed_all l f made_f retains fed in
      elim (Option-cases (feed_all f fed)) [
        | inl failed ↦
            let nothing : none ≡ some r = sym (ap finished_result failed) ∙ e in cc nothing
        | inr (g, fed_g) ↦
            let t = feed_bounded-Ends limit chunks (bounded_start f) g fed_g in
            let same : (finish g).0 ≡ r = some-injective _ _ (sym (ap finished_result fed_g) ∙ e) in
            let framer_fed = t.framer_fed in
            let whole : limit - 0 ≡ limit = omega arith in
            (
              t.end,
              t.runs,
              subst (λ x. IsComplete l x (finish t.end.framer).0)
                  (joined-pieces limit 0 chunks ∙ ap (λ n. take n (joined chunks)) whole)
                  (subst (IsComplete l (joined fed))
                    (sym (ap (λ x. (finish x).0) framer_fed ∙ same)) complete),
              t.counted ∙ omega arith,
            )
      ]
