-- ===== src/Receipt/Lockstep.antt =====
-- Two assemblies of src/commercialrchproxy/rch/receipt_parser.py that differ by their budgets only, and
-- the end of a document in both.
use commercial_rchproxy.Common.{
  suc, ◌+◌, Bool, Option, none, some, List, [], ◌∷◌, ◌++◌, map, map-append, length, ltb, ◌≡◌, refl,
  sym, ap, ◌∙◌, if-related,
}
use commercial_rchproxy.Framing.Types.{RchFrame}
use commercial_rchproxy.Receipt.Builder.{is_commercial}
use commercial_rchproxy.Receipt.Model.{document_limit_exceeded, ReceiptBuilder, ParsedReceipt}
use commercial_rchproxy.Receipt.Outline.{outline_receipt, Like, finish_builder-Like}
use commercial_rchproxy.Receipt.Assembly.{Assembly, note_limit, finish_document, finish_active}

abbrev pub LikeActive : Option ReceiptBuilder → Option ReceiptBuilder → Type 0
LikeActive none none = Unit {0}
LikeActive none (some c) = ⊥
LikeActive (some b) none = ⊥
LikeActive (some b) (some c) = Like b c

-- What two states share: all but the budgets and the fields of the documents.
pub record Alike (s t : Assembly) : Type 0 where
  pub limit : s.max_documents ≡ t.max_documents
  pub outlines : map outline_receipt s.documents ≡ map outline_receipt t.documents
  pub issues : s.issues ≡ t.issues
  pub active : LikeActive s.active t.active
  pub pending_start : s.pending_start ≡ t.pending_start
  pub reported : s.document_limit_reported ≡ t.document_limit_reported

pub active-related {ℓ κ} :
    {A : Type ℓ} (R : A → A → Type κ) (o p : Option ReceiptBuilder) {x y : A}
    {f g : ReceiptBuilder → A}
    → LikeActive o p
    → R x y
    → ((b c : ReceiptBuilder) → Like b c → R (f b) (g c))
    → R (elim o [ none ↦ x | some b ↦ f b ]) (elim p [ none ↦ y | some c ↦ g c ])
active-related R none none h n s = n
active-related R none (some c) h n s = absurd h
active-related R (some b) none h n s = absurd h
active-related R (some b) (some c) h n s = s b c h

-- A document replaces the active one, and a frame the pending one.
pub turn :
    (s t : Assembly) (o p : Option ReceiptBuilder) (f g : Option RchFrame)
    → Alike s t
    → LikeActive o p
    → f ≡ g
    → Alike
        (record s { active = o; pending_start = f })
        (record t { active = p; pending_start = g })
turn s t o p f g a h e = record {
  limit = a.limit;
  outlines = a.outlines;
  issues = a.issues;
  active = h;
  pending_start = e;
  reported = a.reported;
}

pub same_kind : (b c : ReceiptBuilder) → Like b c → is_commercial b.kind ≡ is_commercial c.kind
same_kind b c h = ap (λ (x : ReceiptBuilder). is_commercial x.kind) h

pub length-outlines :
    (ds es : List ParsedReceipt)
    → map outline_receipt ds ≡ map outline_receipt es
    → length ds ≡ length es
length-outlines ds es h = sym (same ds) ∙ ap length h ∙ same es
  where
    same : (xs : List ParsedReceipt) → length (map outline_receipt xs) ≡ length xs
    same [] = refl
    same (x ∷ xs) = ap suc (same xs)

pub note_limit-Alike :
    (b c : ReceiptBuilder) (s t : Assembly)
    → Like b c
    → Alike s t
    → Alike (note_limit b s) (note_limit c t)
unfolding note_limit
note_limit-Alike b c s t h a =
    if-related Alike s.document_limit_reported t.document_limit_reported a.reported (λ _. a)
      (λ _. record {
        limit = a.limit;
        outlines = a.outlines;
        issues = λ i.
            a.issues i
            ++ (record {
              code = document_limit_exceeded;
              stream_offset = (h i).start_frame.stream_offset;
              frame_id = (h i).start_frame.frame_id;
            }
                ∷ []);
        active = a.active;
        pending_start = a.pending_start;
        reported = refl;
      })

pub finish_document-Alike :
    (b c : ReceiptBuilder) (is_complete : Bool) (s t : Assembly)
    → Like b c
    → Alike s t
    → Alike (finish_document b is_complete s) (finish_document c is_complete t)
unfolding finish_document
finish_document-Alike b c is_complete s t h a =
    let size = length-outlines s.documents t.documents a.outlines in
    let same =
      finish_builder-Like b c (length s.documents + 1) (length t.documents + 1) is_complete h
        (ap (λ n. n + 1) size) in
    if-related (λ (u v : Assembly). Alike (record u { active = none }) (record v { active = none }))
      (ltb (length s.documents) s.max_documents) (ltb (length t.documents) t.max_documents)
      (λ i. ltb (size i) (a.limit i))
      (λ _. record {
        limit = a.limit;
        outlines =
            map-append outline_receipt s.documents _
            ∙ (λ i. a.outlines i ++ (same i ∷ []))
            ∙ sym (map-append outline_receipt t.documents _);
        issues = λ i. a.issues i ++ (same i).issues;
        active = tt;
        pending_start = a.pending_start;
        reported = a.reported;
      })
      (λ _.
        let noted = note_limit-Alike b c s t h a in
        turn (note_limit b s) (note_limit c t) none none _ _ noted tt noted.pending_start)

pub finish_active-Alike :
    (is_complete : Bool) (s t : Assembly)
    → Alike s t
    → Alike (finish_active is_complete s) (finish_active is_complete t)
unfolding finish_active
finish_active-Alike is_complete s t a =
    active-related Alike s.active t.active a.active a
      (λ b c h. finish_document-Alike b c is_complete s t h a)
