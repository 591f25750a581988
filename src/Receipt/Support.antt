-- ===== src/Receipt/Support.antt =====
-- What it means that a query was answered with the counter that `_attach_response_counters` of
-- src/commercialrchproxy/rch/receipt_parser.py takes.
use commercial_rchproxy.Common.{
  ℕ, true, Option, none, some, List, [], ◌∷◌, ◌++◌, Bytes, ◌≡◌, refl, codes, subst, ap, ◌⊎◌,
}
use commercial_rchproxy.Framing.Types.{RchFrame}
use commercial_rchproxy.Regex.{Match, re_match, re_fullmatch, captured_text}
use commercial_rchproxy.Receipt.Patterns.{commercial_total_re, response_counter_re, counter_group}
use commercial_rchproxy.Receipt.Correlate.{Correlation}
use commercial_rchproxy.Receipt.Counters.{Exchange, with_answer, last_candidate}

abbrev pub Has : {A : Type 0} → A → List A → Type 0
Has a [] = ⊥
Has a (b ∷ bs) = (a ≡ b) ⊎ Has a bs

-- An intact frame of a list, with an id, an address and a class.
pub record Frame (fs : List RchFrame) (id : ℕ) (address : Bytes) (frame_class : ℕ) (f : RchFrame)
    : Type 0 where
  pub listed : Has f fs
  pub same_id : f.frame_id ≡ id
  pub intact : f.bcc_valid ≡ true
  pub addressed : f.address ≡ address
  pub classed : f.frame_class ≡ frame_class

-- A request of the exchange with a property, of an id.
pub record Requested (x : Exchange) (P : RchFrame → Type 0) (id : ℕ) : Type 0 where
  pub request : RchFrame
  pub sent : Frame x.requests id (codes "00") b'z' request
  pub says : P request

abbrev pub IsQuery : RchFrame → Type 0
IsQuery f = f.payload ≡ codes "<</?s"

abbrev pub IsTotal : RchFrame → Type 0
IsTotal f = (m : Match) × (re_fullmatch commercial_total_re f.payload ≡ some m)

-- A correlation of the query, whose sequence matches, names the response with the counter.
pub record Replies (x : Exchange) (query : ℕ) (response : RchFrame) (suffix : Bytes) : Type 0 where
  pub correlation : Correlation
  pub correlated : Has correlation x.correlations
  pub same_request : correlation.request_frame_id ≡ query
  pub in_sequence : correlation.sequence_matches ≡ some true
  pub same_response : correlation.response_frame_id ≡ some response.frame_id
  pub received : Frame x.responses response.frame_id (codes "01") b'N' response
  pub found : Match
  pub matched : re_match response_counter_re response.payload ≡ some found
  pub same_suffix : suffix ≡ captured_text counter_group found.0

-- Among the ids there is a query that the printer answered with this counter.
pub record Answered (x : Exchange) (ids : List ℕ) (counter : RchFrame × Bytes) : Type 0 where
  pub before : List ℕ
  pub query : ℕ
  pub after : List ℕ
  pub places : ids ≡ before ++ (query ∷ after)
  pub queried : Requested x IsQuery query
  pub answer : Replies x query counter.0 counter.1

-- Such a query stands behind a total.
pub record Supports (x : Exchange) (ids : List ℕ) (counter : RchFrame × Bytes) : Type 0 where
  pub before : List ℕ
  pub total : ℕ
  pub after : List ℕ
  pub places : ids ≡ before ++ (total ∷ after)
  pub paid : Requested x IsTotal total
  pub answered : Answered x after counter

abbrev pub AllOf {ℓ κ} : {A : Type ℓ} → (A → Type κ) → List A → Type κ
AllOf P [] = Unit
AllOf P (a ∷ as') = P a × AllOf P as'

pub AllOf-map {ℓ κ μ} :
    {A : Type ℓ} {P : A → Type κ} {Q : A → Type μ}
    → ((a : A) → P a → Q a)
    → (l : List A) → AllOf P l
    → AllOf Q l
AllOf-map step [] h = tt
AllOf-map step (a ∷ l) (h, rest) = (step a h, AllOf-map step l rest)

pub AllOf-last :
    (P : RchFrame × Bytes → Type 0) (l : List (RchFrame × Bytes)) (c : RchFrame × Bytes)
    → AllOf P l
    → last_candidate l ≡ some c
    → P c
AllOf-last P [] c h e = absurd (cc e)
AllOf-last P (d ∷ []) c h e = let same : d ≡ c = cc e in subst P same h.0
AllOf-last P (d ∷ f ∷ l) c h e = AllOf-last P (f ∷ l) c h.1 e

pub Answered-cons :
    (x : Exchange) (id : ℕ) (ids : List ℕ) (c : RchFrame × Bytes)
    → Answered x ids c
    → Answered x (id ∷ ids) c
Answered-cons x id ids c a = record {
  before = id ∷ a.before;
  query = a.query;
  after = a.after;
  places = ap (λ l. id ∷ l) a.places;
  queried = a.queried;
  answer = a.answer;
}

pub Supports-cons :
    (x : Exchange) (id : ℕ) (ids : List ℕ) (c : RchFrame × Bytes)
    → Supports x ids c
    → Supports x (id ∷ ids) c
Supports-cons x id ids c a = record {
  before = id ∷ a.before;
  total = a.total;
  after = a.after;
  places = ap (λ l. id ∷ l) a.places;
  paid = a.paid;
  answered = a.answered;
}

pub with_answer-AllOf :
    {P : RchFrame × Bytes → Type 0} (o : Option (RchFrame × Bytes)) (l : List (RchFrame × Bytes))
    → ((c : RchFrame × Bytes) → o ≡ some c → P c)
    → AllOf P l
    → AllOf P (with_answer o l)
with_answer-AllOf none l one rest = rest
with_answer-AllOf (some c) l one rest = (one c refl, rest)
