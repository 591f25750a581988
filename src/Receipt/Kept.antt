-- ===== src/Receipt/Kept.antt =====
-- The documents and issues that src/commercialrchproxy/rch/receipt_parser.py has while it reads: an
-- invariant of `_parse_documents`.
use commercial_rchproxy.Common.{
  ℕ, suc, ◌+◌, ◌≤◌, ◌<◌, Bool, true, false, Option, none, some, List, [], ◌∷◌, ◌++◌, length,
  length-append, ltb, ltb→lt, ltb→le, ◌≡◌, refl, sym, ap, subst, ◌∙◌, if-cases, option-cases, arith,
  append_assoc, append-nil,
}
use commercial_rchproxy.Receipt.Builder.{finish_builder}
use commercial_rchproxy.Receipt.Model.{
  document_limit_exceeded, DocumentIssue, ReceiptBuilder, ParsedReceipt,
}
use commercial_rchproxy.Receipt.Documents.{IsAssembled, IsBuilding, finish_builder-IsAssembled}
use commercial_rchproxy.Receipt.Assembly.{Assembly, note_limit, finish_document, finish_active}

-- The documents are numbered from `n`, and each has gone its way.
abbrev pub Documents : ℕ → List ParsedReceipt → Type 0
Documents n [] = Unit {0}
Documents n (d ∷ ds) = (d.document_number ≡ n) × IsAssembled d × Documents (suc n) ds

abbrev pub all_issues : List ParsedReceipt → List DocumentIssue
all_issues [] = []
all_issues (d ∷ ds) = d.issues ++ all_issues ds

-- The issue of the document limit, if it is reported.
abbrev pub limit_part : Option DocumentIssue → List DocumentIssue
limit_part none = []
limit_part (some i) = i ∷ []

abbrev pub IsLimit : Bool → Option DocumentIssue → Type 0
IsLimit reported none = reported ≡ false
IsLimit reported (some i) = (reported ≡ true) × (i.code ≡ document_limit_exceeded)

-- At most `max_documents` documents; the issues are theirs, and at the end that of the limit, which
-- is there only if the limit is reached.
pub record IsKept (max_documents : ℕ) (documents : List ParsedReceipt) (issues : List DocumentIssue)
    (reported : Bool) : Type 0 where
  pub within : length documents ≤ max_documents
  pub numbered : Documents 1 documents
  pub limit_issue : Option DocumentIssue
  pub same_issues : issues ≡ all_issues documents ++ limit_part limit_issue
  pub is_limit : IsLimit reported limit_issue
  pub full : reported ≡ true → length documents ≡ max_documents

abbrev pub IsActive : Option ReceiptBuilder → Type 0
IsActive none = Unit {0}
IsActive (some b) = IsBuilding b

abbrev pub KeptBy : ℕ → Assembly → Type 0
KeptBy most s =
    (s.max_documents ≡ most) × IsKept s.max_documents s.documents s.issues s.document_limit_reported

pub record IsReading (most : ℕ) (s : Assembly) : Type 0 where
  pub kept : KeptBy most s
  pub building : IsActive s.active

Documents-append :
    (n : ℕ) (ds : List ParsedReceipt) (d : ParsedReceipt)
    → Documents n ds
    → d.document_number ≡ n + length ds
    → IsAssembled d
    → Documents n (ds ++ (d ∷ []))
Documents-append n [] d h e a = (omega (arith, e), a, tt)
Documents-append n (x ∷ xs) d (first, whole, rest) e a =
    (first, whole, Documents-append (suc n) xs d rest (omega (arith, e)) a)

all_issues-append :
    (ds : List ParsedReceipt) (d : ParsedReceipt)
    → all_issues (ds ++ (d ∷ [])) ≡ all_issues ds ++ d.issues
all_issues-append [] d = append-nil d.issues
all_issues-append (x ∷ xs) d =
    ap (λ l. x.issues ++ l) (all_issues-append xs d)
    ∙ sym (append_assoc x.issues (all_issues xs) d.issues)

-- Without the limit's issue there are only those of the documents.
no_limit :
    {issues : List DocumentIssue} {own : List DocumentIssue} (i : Option DocumentIssue)
    → IsLimit false i
    → issues ≡ own ++ limit_part i
    → issues ≡ own
no_limit {own = own} none h e = e ∙ append-nil own
no_limit (some i) h e = absurd (cc (h.0))

-- A document is kept while there is room.
room-IsKept :
    (most : ℕ) (ds : List ParsedReceipt) (issues : List DocumentIssue) (reported : Bool)
    (d : ParsedReceipt)
    → IsKept most ds issues reported
    → length ds < most
    → d.document_number ≡ length ds + 1
    → IsAssembled d
    → IsKept most (ds ++ (d ∷ [])) (issues ++ d.issues) reported
room-IsKept most ds issues true d k room number a =
    let all = k.full refl in absurd (omega (arith, all))
room-IsKept most ds issues false d k room number a =
    let size = length-append ds (d ∷ []) in
    record {
      within = omega (arith, size);
      numbered = Documents-append 1 ds d k.numbered (omega (arith, number)) a;
      limit_issue = none;
      same_issues =
          ap (λ l. l ++ d.issues) (no_limit k.limit_issue k.is_limit k.same_issues)
          ∙ sym (all_issues-append ds d)
          ∙ sym (append-nil (all_issues (ds ++ (d ∷ []))));
      is_limit = refl;
      full = λ h. cc;
    }

-- The limit is noted once.
limit-IsKept :
    (most : ℕ) (ds : List ParsedReceipt) (issues : List DocumentIssue) (i : DocumentIssue)
    → IsKept most ds issues false
    → i.code ≡ document_limit_exceeded
    → most ≤ length ds
    → IsKept most ds (issues ++ (i ∷ [])) true
limit-IsKept most ds issues i k code all = record {
  within = k.within;
  numbered = k.numbered;
  limit_issue = some i;
  same_issues = ap (λ l. l ++ (i ∷ [])) (no_limit k.limit_issue k.is_limit k.same_issues);
  is_limit = (refl, code);
  full = λ _. let fits = k.within in omega (arith, fits, all);
}

note_limit-KeptBy :
    {most : ℕ} (b : ReceiptBuilder) (s : Assembly)
    → KeptBy most s
    → s.max_documents ≤ length s.documents
    → KeptBy most (note_limit b s)
unfolding note_limit
note_limit-KeptBy {most = most} b s k all =
    if-cases (KeptBy most) s.document_limit_reported (λ _. k)
      (λ unreported. (
        k.0,
        limit-IsKept s.max_documents s.documents s.issues _
            (subst (IsKept s.max_documents s.documents s.issues) unreported k.1) refl all,
      ))

number-finish_builder :
    (b : ReceiptBuilder) (n : ℕ) (c : Bool) → (finish_builder b n c).document_number ≡ n
unfolding finish_builder
number-finish_builder b n c = refl

-- Finishing an open document keeps the invariant, whether there is room for it or not.
finish_document-KeptBy :
    {most : ℕ} (b : ReceiptBuilder) (c : Bool) (s : Assembly)
    → IsBuilding b
    → KeptBy most s
    → KeptBy most (finish_document b c s)
unfolding finish_document
finish_document-KeptBy {most = most} b c s h k =
    let number = length s.documents + 1 in
    if-cases (λ (t : Assembly). KeptBy most (record t { active = none }))
      (ltb (length s.documents) s.max_documents)
      (λ room. (
        k.0,
        room-IsKept s.max_documents s.documents s.issues s.document_limit_reported
            (finish_builder b number c) k.1 (ltb→lt _ _ room) (number-finish_builder b number c)
            (finish_builder-IsAssembled b number c h),
      ))
      (λ full. note_limit-KeptBy b s k (ltb→le _ _ full))

pub finish_document-IsReading :
    {most : ℕ} (b : ReceiptBuilder) (c : Bool) (s : Assembly)
    → IsBuilding b
    → KeptBy most s
    → IsReading most (finish_document b c s)
unfolding finish_document
finish_document-IsReading b c s h k = record {
  kept = finish_document-KeptBy b c s h k;
  building = tt;
}

-- The document that is active is being built.
pub IsActive-IsBuilding :
    (o : Option ReceiptBuilder) (b : ReceiptBuilder) → o ≡ some b → IsActive o → IsBuilding b
IsActive-IsBuilding o b e h = subst IsActive e h

pub finish_active-IsReading :
    {most : ℕ} (c : Bool) (s : Assembly) → IsReading most s → IsReading most (finish_active c s)
unfolding finish_active
finish_active-IsReading {most = most} c s r =
    option-cases (IsReading most) s.active (λ _. r)
      (λ b e. finish_document-IsReading b c s (IsActive-IsBuilding s.active b e r.building) r.kept)
