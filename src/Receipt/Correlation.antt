-- ===== src/Receipt/Correlation.antt =====
-- What `_correlate_directions` of src/commercialrchproxy/rch/receipt_parser.py means: the three lists
-- are read side by side, and of all there is to report the first part is kept.
use commercial_rchproxy.Common.{
  ℕ, zero, suc, ◌+◌, ◌-◌, Bool, true, false, Option, none, some, List, [], ◌∷◌, ◌++◌, map, length,
  drop, take, ltb, ◌≡◌, refl, sym, ap, ◌∙◌, inl, inr, Bool-cases, arith, append-nil, append_assoc,
  take_of_append, take-nil, take_all, length-take, length-append, ltb→lt, ltb→le,
}
use commercial_rchproxy.Framing.Types.{RchFrame, AckEvent}
use commercial_rchproxy.Receipt.Correlate.{
  Correlation, CorrelationIssue, missing_ack_candidate, missing_response_frame_candidate,
  response_sequence_mismatch, unmatched_response_frame, unmatched_ack, expected_response_sequence,
  item_at, matches, correlation_of, add_correlation_issue, note_ack, note_response,
  correlate_requests, note_unmatched_frames, note_unmatched_acks, correlate,
}

abbrev pub first {ℓ} : {A : Type ℓ} → List A → Option A
first [] = none
first (x ∷ xs) = some x

abbrev pub rest {ℓ} : {A : Type ℓ} → List A → List A
rest [] = []
rest (x ∷ xs) = xs

-- The correlations: each request with what stands at its place in the other two lists.
abbrev pub paired : List RchFrame → List AckEvent → List RchFrame → List Correlation
paired [] ks fs = []
paired (r ∷ rs) ks fs = correlation_of r (first ks) (first fs) ∷ paired rs (rest ks) (rest fs)

abbrev pub ack_report : RchFrame → Option AckEvent → List CorrelationIssue
ack_report r (some a) = []
ack_report r none =
    record {
      code = missing_ack_candidate;
      stream_offset = r.stream_offset;
      frame_id = some r.frame_id;
    }
    ∷ []

abbrev pub mismatch_report : RchFrame → RchFrame → Option Bool → List CorrelationIssue
mismatch_report r f (some false) =
    record {
      code = response_sequence_mismatch (expected_response_sequence r.sequence) f.sequence;
      stream_offset = f.stream_offset;
      frame_id = some f.frame_id;
    }
    ∷ []
mismatch_report r f _ = []

abbrev pub response_report : RchFrame → Option RchFrame → List CorrelationIssue
response_report r none =
    record {
      code = missing_response_frame_candidate;
      stream_offset = r.stream_offset;
      frame_id = some r.frame_id;
    }
    ∷ []
response_report r (some f) =
    mismatch_report r f (matches (expected_response_sequence r.sequence) (some f.sequence))

abbrev pub unmatched_frame_report : RchFrame → CorrelationIssue
unmatched_frame_report f = record {
  code = unmatched_response_frame;
  stream_offset = f.stream_offset;
  frame_id = some f.frame_id;
}

abbrev pub unmatched_ack_report : AckEvent → CorrelationIssue
unmatched_ack_report a = record {
  code = unmatched_ack;
  stream_offset = a.stream_offset;
  frame_id = none;
}

-- All that there is to report, with no limit.
abbrev pub reports : List RchFrame → List AckEvent → List RchFrame → List CorrelationIssue
reports [] ks fs = map unmatched_frame_report fs ++ map unmatched_ack_report ks
reports (r ∷ rs) ks fs =
    ack_report r (first ks) ++ (response_report r (first fs) ++ reports rs (rest ks) (rest fs))

-- Only the first issues are kept.
keep_first :
    (max : ℕ) (l : List CorrelationIssue) (x : CorrelationIssue)
    → add_correlation_issue max (take max l) x ≡ take max (l ++ (x ∷ []))
unfolding add_correlation_issue
keep_first max l x = elim (Bool-cases (ltb (length l) max)) [
  | inl room ↦
      (let whole = take_all max l (let r = ltb→lt _ _ room in omega (arith, r)) in
        let size = length-append l (x ∷ []) in
        let r = ltb→lt _ _ room in
        simp (whole, room) (sym (take_all max (l ++ (x ∷ [])) (omega (arith, r, size)))))
  | inr full ↦
      (let size = length-take max l in
        let f = ltb→le _ _ full in
        let shut : ltb (length (take max l)) max ≡ false = ground (arith, size, f) in
        let none_left : max - length l ≡ 0 = omega (arith, f) in
        simp shut (
          sym (
            take_of_append max l (x ∷ [])
            ∙ ap (λ n. take max l ++ take n (x ∷ [])) none_left
            ∙ append-nil (take max l))))
]

note_ack-take :
    (max : ℕ) (r : RchFrame) (k : Option AckEvent) (l : List CorrelationIssue)
    → note_ack max r k (take max l) ≡ take max (l ++ ack_report r k)
unfolding note_ack
note_ack-take max r (some a) l = ap (take max) (sym (append-nil l))
note_ack-take max r none l = keep_first max l _

mismatch-take :
    (max : ℕ) (r f : RchFrame) (m : Option Bool) (l : List CorrelationIssue)
    → (elim m [
      | some false ↦ add_correlation_issue max (take max l) (record {
        code = response_sequence_mismatch (expected_response_sequence r.sequence) f.sequence;
        stream_offset = f.stream_offset;
        frame_id = some f.frame_id;
      })
      | some true ↦ take max l
      | none ↦ take max l
    ])
      ≡ take max (l ++ mismatch_report r f m)
mismatch-take max r f (some false) l = keep_first max l _
mismatch-take max r f (some true) l = ap (take max) (sym (append-nil l))
mismatch-take max r f none l = ap (take max) (sym (append-nil l))

note_response-take :
    (max : ℕ) (r : RchFrame) (f : Option RchFrame) (l : List CorrelationIssue)
    → note_response max r f (take max l) ≡ take max (l ++ response_report r f)
unfolding note_response
note_response-take max r none l = keep_first max l _
note_response-take max r (some f) l =
    mismatch-take max r f (matches (expected_response_sequence r.sequence) (some f.sequence)) l

note_unmatched_frames-take :
    (max : ℕ) (fs : List RchFrame) (l : List CorrelationIssue)
    → note_unmatched_frames max fs (take max l) ≡ take max (l ++ map unmatched_frame_report fs)
unfolding note_unmatched_frames
note_unmatched_frames-take max [] l = ap (take max) (sym (append-nil l))
note_unmatched_frames-take max (f ∷ fs) l =
    ap (note_unmatched_frames max fs) (keep_first max l (unmatched_frame_report f))
    ∙ note_unmatched_frames-take max fs (l ++ (unmatched_frame_report f ∷ []))
    ∙ ap (take max) (append_assoc l (unmatched_frame_report f ∷ []) (map unmatched_frame_report fs))

note_unmatched_acks-take :
    (max : ℕ) (ks : List AckEvent) (l : List CorrelationIssue)
    → note_unmatched_acks max ks (take max l) ≡ take max (l ++ map unmatched_ack_report ks)
unfolding note_unmatched_acks
note_unmatched_acks-take max [] l = ap (take max) (sym (append-nil l))
note_unmatched_acks-take max (k ∷ ks) l =
    ap (note_unmatched_acks max ks) (keep_first max l (unmatched_ack_report k))
    ∙ note_unmatched_acks-take max ks (l ++ (unmatched_ack_report k ∷ []))
    ∙ ap (take max) (append_assoc l (unmatched_ack_report k ∷ []) (map unmatched_ack_report ks))

item_at-drop {ℓ} : {A : Type ℓ} (i : ℕ) (xs : List A) → item_at i xs ≡ first (drop i xs)
unfolding item_at
item_at-drop zero [] = refl
item_at-drop (suc i) [] = refl
item_at-drop zero (x ∷ xs) = refl
item_at-drop (suc i) (x ∷ xs) = item_at-drop i xs

sum_one : (i : ℕ) → suc i ≡ i + 1
sum_one i = omega arith

rest-drop {ℓ} : {A : Type ℓ} (i : ℕ) (xs : List A) → rest (drop i xs) ≡ drop (i + 1) xs
rest-drop zero [] = ap (λ k. drop k []) (sum_one 0)
rest-drop zero (x ∷ xs) = ap (λ k. drop k (x ∷ xs)) (sum_one 0)
rest-drop (suc i) [] = ap (λ k. drop k []) (sum_one (suc i))
rest-drop (suc i) (x ∷ xs) =
    rest-drop i xs
    ∙ ap (λ k. drop k xs) (sym (sum_one i))
    ∙ ap (λ k. drop k (x ∷ xs)) (sum_one (suc i))

-- What the loop over the requests reports.
abbrev request_reports : List RchFrame → List AckEvent → List RchFrame → List CorrelationIssue
request_reports [] ks fs = []
request_reports (r ∷ rs) ks fs =
    ack_report r (first ks)
    ++ (response_report r (first fs) ++ request_reports rs (rest ks) (rest fs))

drop-rest {ℓ} : {A : Type ℓ} (n : ℕ) (xs : List A) → drop (suc n) xs ≡ drop n (rest xs)
drop-rest zero [] = refl
drop-rest (suc n) [] = refl
drop-rest n (x ∷ xs) = refl

reports-split :
    (rs : List RchFrame) (ks : List AckEvent) (fs : List RchFrame)
    → (request_reports rs ks fs ++ map unmatched_frame_report (drop (length rs) fs))
        ++ map unmatched_ack_report (drop (length rs) ks)
      ≡ reports rs ks fs
reports-split [] ks fs = refl
reports-split (r ∷ rs) ks fs =
    let a = ack_report r (first ks) in
    let b = response_report r (first fs) in
    let q = request_reports rs (rest ks) (rest fs) in
    let u = map unmatched_frame_report (drop (suc (length rs)) fs) in
    let w = map unmatched_ack_report (drop (suc (length rs)) ks) in
    ap (λ l. l ++ w) (append_assoc a (b ++ q) u)
    ∙ append_assoc a ((b ++ q) ++ u) w
    ∙ ap (λ l. a ++ (l ++ w)) (append_assoc b q u)
    ∙ ap (λ l. a ++ l) (append_assoc b (q ++ u) w)
    ∙ ap (λ l. a ++ (b ++ ((q ++ map unmatched_frame_report l) ++ w))) (drop-rest (length rs) fs)
    ∙ ap
        (λ l.
          a
          ++ (b
              ++ ((q ++ map unmatched_frame_report (drop (length rs) (rest fs)))
                  ++ map unmatched_ack_report l)))
        (drop-rest (length rs) ks)
    ∙ ap (λ l. a ++ (b ++ l)) (reports-split rs (rest ks) (rest fs))

-- The result with the first request in front, at the places of the other lists.
abbrev with_request :
    ℕ
    → RchFrame
    → List RchFrame
    → List Correlation
    → List CorrelationIssue
    → Option AckEvent
    → Option RchFrame
    → List AckEvent
    → List RchFrame
    → List Correlation × List CorrelationIssue
with_request max r rs cs l k f ks fs = (
  cs ++ (correlation_of r k f ∷ paired rs ks fs),
  take max (l ++ (ack_report r k ++ (response_report r f ++ request_reports rs ks fs))),
)

correlate_requests-take :
    (max : ℕ) (ks : List AckEvent) (fs : List RchFrame) (i : ℕ) (rs : List RchFrame)
    (cs : List Correlation) (l : List CorrelationIssue)
    → correlate_requests max ks fs i rs (cs, take max l) ≡ (
      cs ++ paired rs (drop i ks) (drop i fs),
      take max (l ++ request_reports rs (drop i ks) (drop i fs)),
    )
unfolding correlate_requests
correlate_requests-take max ks fs i [] cs l =
    ap (λ c. (c, take max l)) (sym (append-nil cs))
    ∙ ap (λ q. (cs ++ [], take max q)) (sym (append-nil l))
correlate_requests-take max ks fs i (r ∷ rs) cs l =
    let k = item_at i ks in
    let f = item_at i fs in
    let c = correlation_of r k f in
    ap (λ q. correlate_requests max ks fs (i + 1) rs (cs ++ (c ∷ []), q))
      (ap (note_response max r f) (note_ack-take max r k l)
        ∙ note_response-take max r f (l ++ ack_report r k))
    ∙ correlate_requests-take max ks fs (i + 1) rs (cs ++ (c ∷ []))
        ((l ++ ack_report r k) ++ response_report r f)
    ∙ ap
        (λ q. (
          q,
          take max (
              ((l ++ ack_report r k) ++ response_report r f)
              ++ request_reports rs (drop (i + 1) ks) (drop (i + 1) fs)),
        ))
        (append_assoc cs (c ∷ []) (paired rs (drop (i + 1) ks) (drop (i + 1) fs)))
    ∙ ap (λ q. (cs ++ (c ∷ paired rs (drop (i + 1) ks) (drop (i + 1) fs)), take max q))
        (append_assoc (l ++ ack_report r k) (response_report r f)
            (request_reports rs (drop (i + 1) ks) (drop (i + 1) fs))
          ∙ append_assoc l (ack_report r k)
              (response_report r f ++ request_reports rs (drop (i + 1) ks) (drop (i + 1) fs)))
    ∙ ap (λ q. with_request max r rs cs l q f (drop (i + 1) ks) (drop (i + 1) fs))
        (item_at-drop i ks)
    ∙ ap (λ q. with_request max r rs cs l (first (drop i ks)) q (drop (i + 1) ks) (drop (i + 1) fs))
        (item_at-drop i fs)
    ∙ ap
        (λ q.
          with_request max r rs cs l (first (drop i ks)) (first (drop i fs)) q (drop (i + 1) fs))
        (sym (rest-drop i ks))
    ∙ ap (with_request max r rs cs l (first (drop i ks)) (first (drop i fs)) (rest (drop i ks)))
        (sym (rest-drop i fs))

-- The directions are correlated by place: the correlations pair each request with the
-- acknowledgement and the response at its place, and the issues are the first `max` of all that
-- there is to report, for each request its missing acknowledgement and its missing or mismatched
-- response, then the responses without a request, then the acknowledgements without one.
pub correlate-paired :
    (max : ℕ) (rs : List RchFrame) (ks : List AckEvent) (fs : List RchFrame)
    → correlate max rs ks fs ≡ (paired rs ks fs, take max (reports rs ks fs))
unfolding correlate
correlate-paired max rs ks fs =
    let after : List Correlation × List CorrelationIssue
        → List Correlation × List CorrelationIssue =
      λ q. (
        q.0,
        note_unmatched_acks max (drop (length rs) ks)
            (note_unmatched_frames max (drop (length rs) fs) q.1),
      ) in
    let l = request_reports rs ks fs in
    let u = map unmatched_frame_report (drop (length rs) fs) in
    ap (λ q. after (correlate_requests max ks fs 0 rs ([], q))) (sym (take-nil max))
    ∙ ap after (correlate_requests-take max ks fs 0 rs [] [])
    ∙ ap (λ q. (paired rs ks fs, note_unmatched_acks max (drop (length rs) ks) q))
        (note_unmatched_frames-take max (drop (length rs) fs) l)
    ∙ ap (λ q. (paired rs ks fs, q)) (note_unmatched_acks-take max (drop (length rs) ks) (l ++ u))
    ∙ ap (λ q. (paired rs ks fs, take max q)) (reports-split rs ks fs)
