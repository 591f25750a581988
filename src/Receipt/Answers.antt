-- ===== src/Receipt/Answers.antt =====
-- The lookups of `_attach_response_counters` of src/commercialrchproxy/rch/receipt_parser.py find what
-- they look for.
use commercial_rchproxy.Common.{
  ℕ, Bool, true, false, ◌&&◌, Option, none, some, List, [], ◌∷◌, Bytes, ◌≡◌, refl, sym, ◌∙◌, ◌==◌,
  if◌then◌else◌, codes, text_eq, some-injective, subst, ap, inl, inr, if-cases, option-cases, arith,
}
use commercial_rchproxy.Framing.Types.{RchFrame}
use commercial_rchproxy.Regex.{re_match, re_fullmatch, captured_text}
use commercial_rchproxy.Receipt.Patterns.{commercial_total_re, response_counter_re, counter_group}
use commercial_rchproxy.Receipt.Correlate.{Correlation}
use commercial_rchproxy.Receipt.Messages.{is_response_profile}
use commercial_rchproxy.Receipt.Assembly.{is_request_profile}
use commercial_rchproxy.Receipt.Counters.{
  frame_by_id, correlation_by_request, is_true, matched_response, counter_in, Exchange, request_of,
  is_total, is_query, answer_of,
}
use commercial_rchproxy.Receipt.Support.{Has, Frame, IsQuery, IsTotal, Replies}

-- A lookup by an id finds an entry of the list with that id.
pub frame_by_id-Has :
    (id : ℕ) (fs : List RchFrame) (f : RchFrame)
    → frame_by_id id fs ≡ some f
    → Has f fs × (f.frame_id ≡ id)
unfolding frame_by_id
frame_by_id-Has id [] f h = absurd (cc h)
frame_by_id-Has id (g ∷ fs) f h = later (frame_by_id id fs) (frame_by_id-Has id fs f) h
  where
    later :
        (o : Option RchFrame)
        → (o ≡ some f → Has f fs × (f.frame_id ≡ id))
        → (elim o as (λ _. Option RchFrame) [
          | some e ↦ some e
          | none ↦ if g.frame_id == id then some g else none
        ])
          ≡ some f
        → Has f (g ∷ fs) × (f.frame_id ≡ id)
    later (some e) rest h = let (there, same) = rest h in (inr there, same)
    later none rest h =
        (if-cases (λ (o : Option RchFrame). o ≡ some f → Has f (g ∷ fs) × (f.frame_id ≡ id))
            (g.frame_id == id)
            (λ same h.
              let here : g ≡ f = some-injective g f h in
              (
                inl (sym here),
                subst (λ (e : RchFrame). e.frame_id ≡ id) here (ground (arith, same)),
              ))
            (λ other h. absurd (cc h)))
          h

pub correlation_by_request-Has :
    (id : ℕ) (cs : List Correlation) (c : Correlation)
    → correlation_by_request id cs ≡ some c
    → Has c cs × (c.request_frame_id ≡ id)
unfolding correlation_by_request
correlation_by_request-Has id [] c h = absurd (cc h)
correlation_by_request-Has id (e ∷ cs) c h =
    later (correlation_by_request id cs) (correlation_by_request-Has id cs c) h
  where
    later :
        (o : Option Correlation)
        → (o ≡ some c → Has c cs × (c.request_frame_id ≡ id))
        → (elim o as (λ _. Option Correlation) [
          | some d ↦ some d
          | none ↦ if e.request_frame_id == id then some e else none
        ])
          ≡ some c
        → Has c (e ∷ cs) × (c.request_frame_id ≡ id)
    later (some d) rest h = let (there, same) = rest h in (inr there, same)
    later none rest h =
        (if-cases
            (λ (o : Option Correlation). o ≡ some c → Has c (e ∷ cs) × (c.request_frame_id ≡ id))
            (e.request_frame_id == id)
            (λ same h.
              let here : e ≡ c = some-injective e c h in
              (
                inl (sym here),
                subst (λ (d : Correlation). d.request_frame_id ≡ id) here (ground (arith, same)),
              ))
            (λ other h. absurd (cc h)))
          h

text_eq-equal : (t u : Bytes) → text_eq t u ≡ true → t ≡ u
unfolding text_eq
text_eq-equal (a ∷ x) (b ∷ y) h = let rest = text_eq-equal x y in ground (arith, rest, h)
text_eq-equal [] [] h = refl
text_eq-equal [] (b ∷ y) h = absurd (cc h)
text_eq-equal (a ∷ x) [] h = absurd (cc h)

profiled :
    (fs : List RchFrame) (id : ℕ) (address : Bytes) (frame_class : ℕ) (f : RchFrame)
    → frame_by_id id fs ≡ some f
    → (f.bcc_valid && text_eq f.address address && (f.frame_class == frame_class)) ≡ true
    → Frame fs id address frame_class f
profiled fs id address frame_class f found passes =
    let (there, same) = frame_by_id-Has id fs f found in
    record {
      listed = there;
      same_id = same;
      intact = ground (arith, passes);
      addressed = text_eq-equal f.address address (ground (arith, passes));
      classed = ground (arith, passes);
    }

pub request_of-Frame :
    (x : Exchange) (id : ℕ) (f : RchFrame)
    → request_of x id ≡ some f
    → Frame x.requests id (codes "00") b'z' f
unfolding request_of is_request_profile
request_of-Frame x id f =
    option-cases (λ (o : Option RchFrame). o ≡ some f → Frame x.requests id (codes "00") b'z' f)
      (frame_by_id id x.requests) (λ _ h. absurd (cc h))
      (λ g found.
        if-cases (λ (o : Option RchFrame). o ≡ some f → Frame x.requests id (codes "00") b'z' f)
          (g.bcc_valid && text_eq g.address (codes "00") && (g.frame_class == b'z'))
          (λ passes h.
            subst (Frame x.requests id (codes "00") b'z') (some-injective g f h)
              (profiled x.requests id (codes "00") b'z' g found passes))
          (λ _ h. absurd (cc h)))

pub is_query-IsQuery : (f : RchFrame) → is_query f ≡ true → IsQuery f
unfolding is_query
is_query-IsQuery f h = text_eq-equal f.payload (codes "<</?s") h

pub is_total-IsTotal : (f : RchFrame) → is_total f ≡ true → IsTotal f
unfolding is_total
is_total-IsTotal f =
    option-cases (λ (b : Bool). b ≡ true → IsTotal f) (re_fullmatch commercial_total_re f.payload)
      (λ _ h. absurd (cc h)) (λ m found h. (m, found))

-- The last two lookups of an answer.
counter_in-Replies :
    (x : Exchange) (query : ℕ) (k : Correlation) (response : ℕ) (f : RchFrame)
    (c : RchFrame × Bytes)
    → correlation_by_request query x.correlations ≡ some k
    → k.sequence_matches ≡ some true
    → k.response_frame_id ≡ some response
    → frame_by_id response x.responses ≡ some f
    → counter_in f ≡ some c
    → Replies x query c.0 c.1
unfolding counter_in is_response_profile
counter_in-Replies x query k response f c correlated matches named found =
    if-cases (λ (o : Option (RchFrame × Bytes)). o ≡ some c → Replies x query c.0 c.1)
      (f.bcc_valid && text_eq f.address (codes "01") && (f.frame_class == b'N'))
      (λ passes.
        option-cases (λ (o : Option (RchFrame × Bytes)). o ≡ some c → Replies x query c.0 c.1)
          (re_match response_counter_re f.payload) (λ _ h. absurd (cc h))
          (λ m matched h.
            let (there, same) = correlation_by_request-Has query x.correlations k correlated in
            let p = profiled x.responses response (codes "01") b'N' f found passes in
            subst (λ (d : RchFrame × Bytes). Replies x query d.0 d.1)
              (some-injective (f, captured_text counter_group m.0) c h)
              (record {
                correlation = k;
                correlated = there;
                same_request = same;
                in_sequence = matches;
                same_response = named ∙ ap some (sym p.same_id);
                received = record {
                  listed = p.listed;
                  same_id = refl;
                  intact = p.intact;
                  addressed = p.addressed;
                  classed = p.classed;
                };
                found = m;
                matched = matched;
                same_suffix = refl;
              })))
      (λ _ h. absurd (cc h))

matched_response-sequence :
    (m : Option Bool) (id : Option ℕ) (response : ℕ)
    → (if is_true m then id else none) ≡ some response
    → (m ≡ some true) × (id ≡ some response)
matched_response-sequence (some true) id response h = (refl, h)
matched_response-sequence (some false) id response h = absurd (cc h)
matched_response-sequence none id response h = absurd (cc h)

pub answer_of-Replies :
    (x : Exchange) (query : ℕ) (c : RchFrame × Bytes)
    → answer_of x query ≡ some c
    → Replies x query c.0 c.1
unfolding answer_of
answer_of-Replies x query c =
    let P = λ (o : Option (RchFrame × Bytes)). o ≡ some c → Replies x query c.0 c.1 in
    option-cases P (correlation_by_request query x.correlations) (λ _ h. absurd (cc h))
      (λ k correlated.
        option-cases P (matched_response k) (λ _ h. absurd (cc h))
          (λ response named.
            let (matches, same) =
              matched_response-sequence k.sequence_matches k.response_frame_id response named in
            option-cases P (frame_by_id response x.responses) (λ _ h. absurd (cc h))
              (λ f found. counter_in-Replies x query k response f c correlated matches same found)))
