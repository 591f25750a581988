-- ===== src/Receipt/Sound.antt =====
-- Every frame that `_parse_documents` of src/commercialrchproxy/rch/receipt_parser.py reads keeps the
-- invariant.
use commercial_rchproxy.Common.{
  ℕ, true, false, Option, none, List, [], ◌∷◌, ◌≡◌, refl, if-cases, option-cases, arith, subst, sym,
  Bytes,
}
use commercial_rchproxy.Framing.Types.{RchFrame}
use commercial_rchproxy.Regex.{Captures, captured, captured_text}
use commercial_rchproxy.Receipt.Patterns.{text_group, style_group}
use commercial_rchproxy.Receipt.Budget.{SemanticBudget}
use commercial_rchproxy.Receipt.Builder.{new_builder, transition, add_frame, is_commercial}
use commercial_rchproxy.Receipt.Fields.{apply_management_line}
use commercial_rchproxy.Receipt.Commercial.{
  apply_commercial_item, apply_commercial_text, apply_commercial_total,
}
use commercial_rchproxy.Receipt.Model.{
  documento_commerciale, documento_gestionale, missing_open_boundary, missing_commercial_start,
  ReceiptBuilder,
}
use commercial_rchproxy.Receipt.Documents.{
  IsBuilding, new_builder-IsBuilding, add_frame-IsBuilding, add_issue-IsBuilding,
  payment-IsBuilding, kind-add_frame,
}
use commercial_rchproxy.Receipt.Kept.{
  IsKept, KeptBy, IsReading, finish_active-IsReading, IsActive-IsBuilding,
}
use commercial_rchproxy.Receipt.Assembly.{
  Assembly, finish_active, management_document, commercial_document, extend_document, Command,
  control, start, boundary, management_line, commercial_item, commercial_text, commercial_total,
  display, other, read_command, read_text, read_other, read_frame, read_frames, new_assembly,
  parse_documents, command_of, is_request_profile,
}
use commercial_rchproxy.Receipt.Boundaries.{
  activate, read_control-IsReading, read_start-IsReading, read_boundary-IsReading,
}

-- The two documents that a line, an item or a total may go to.
abbrev Chosen : ℕ → ReceiptBuilder × Assembly → Type 0
Chosen most (b, s) = IsBuilding b × KeptBy most s

management_document-Chosen :
    {most : ℕ} (f : RchFrame) (s : Assembly)
    → IsReading most s
    → Chosen most (management_document f s)
unfolding management_document
management_document-Chosen {most = most} f s r =
    let fresh = new_builder-IsBuilding documento_gestionale f in
    option-cases (Chosen most) s.active
      (λ _. (add_issue-IsBuilding missing_open_boundary f _ fresh, r.kept))
      (λ b e.
        if-cases (Chosen most) (is_commercial b.kind)
          (λ _. (fresh, (finish_active-IsReading false s r).kept))
          (λ _. (IsActive-IsBuilding s.active b e r.building, r.kept)))

commercial_document-Chosen :
    {most : ℕ} (f : RchFrame) (s : Assembly)
    → IsReading most s
    → Chosen most (commercial_document f s)
unfolding commercial_document
commercial_document-Chosen {most = most} f s r =
    let fresh =
      add_issue-IsBuilding missing_commercial_start f _
        (new_builder-IsBuilding documento_commerciale f) in
    option-cases (Chosen most) s.active (λ _. (fresh, r.kept))
      (λ b e.
        if-cases (Chosen most) (is_commercial b.kind)
          (λ _. (IsActive-IsBuilding s.active b e r.building, r.kept))
          (λ _. (fresh, (finish_active-IsReading false s r).kept)))

-- What is added to a document leaves it open.
abbrev Keeps :
    (ReceiptBuilder → SemanticBudget → ReceiptBuilder × SemanticBudget) → ReceiptBuilder → Type 0
Keeps apply b = (left : SemanticBudget) → IsBuilding b → IsBuilding (apply b left).0

extend_document-IsReading :
    {most : ℕ} (f : RchFrame)
    (apply : ReceiptBuilder → SemanticBudget → ReceiptBuilder × SemanticBudget)
    (chosen : ReceiptBuilder × Assembly)
    → Chosen most chosen
    → Keeps apply (add_frame f chosen.0)
    → IsReading most (extend_document f apply chosen)
unfolding extend_document
extend_document-IsReading f apply (b, s) (h, k) keeps = record {
  kept = k;
  building = keeps s.semantic_budget (add_frame-IsBuilding f b h);
}

management_line-Keeps :
    (f : RchFrame) (text : Bytes) (style : Option Bytes) (b : ReceiptBuilder)
    → Keeps (apply_management_line f text style) b
unfolding apply_management_line
management_line-Keeps f text style b left h = record { path = h.path; opened = h.opened }

commercial_item-Keeps :
    (f : RchFrame) (groups : Captures) (b : ReceiptBuilder)
    → Keeps (apply_commercial_item f groups) b
unfolding apply_commercial_item
commercial_item-Keeps f groups b left h = record { path = h.path; opened = h.opened }

commercial_text-Keeps :
    (f : RchFrame) (groups : Captures) (b : ReceiptBuilder)
    → Keeps (apply_commercial_text f groups) b
unfolding apply_commercial_text
commercial_text-Keeps f groups b left h = record { path = h.path; opened = h.opened }

commercial_total-Keeps :
    (f : RchFrame) (groups : Captures) (b : ReceiptBuilder)
    → is_commercial b.kind ≡ true
    → Keeps (apply_commercial_total f groups) b
unfolding apply_commercial_total
commercial_total-Keeps f groups b commercial left h =
    payment-IsBuilding f _ commercial (record { path = h.path; opened = h.opened })

-- The document that an item or a total goes to is a commercial one.
commercial_document-kind :
    (f : RchFrame) (s : Assembly) → is_commercial (commercial_document f s).0.kind ≡ true
unfolding commercial_document new_builder transition
commercial_document-kind f s =
    let Commercial = λ (p : ReceiptBuilder × Assembly). is_commercial p.0.kind ≡ true in
    option-cases Commercial s.active (λ _. refl)
      (λ b _. if-cases Commercial (is_commercial b.kind) (λ h. h) (λ _. refl))

read_other-IsReading :
    {most : ℕ} (f : RchFrame) (s : Assembly) → IsReading most s → IsReading most (read_other f s)
unfolding read_other
read_other-IsReading {most = most} f s r =
    option-cases (IsReading most) s.active (λ _. r)
      (λ b e.
        activate s _ r.kept
          (add_frame-IsBuilding f b (IsActive-IsBuilding s.active b e r.building)))

read_text-IsReading :
    {most : ℕ} (f : RchFrame) (groups : Captures) (s : Assembly)
    → IsReading most s
    → IsReading most (read_text f groups s)
unfolding read_text
read_text-IsReading {most = most} f groups s r =
    option-cases (IsReading most) s.active (λ _. r)
      (λ b e.
        if-cases (IsReading most) (is_commercial b.kind)
          (λ _.
            extend_document-IsReading f (apply_commercial_text f groups) (b, s)
              (IsActive-IsBuilding s.active b e r.building, r.kept)
              (commercial_text-Keeps f groups (add_frame f b)))
          (λ _. read_other-IsReading f s r))

read_command-IsReading :
    {most : ℕ} (f : RchFrame) (c : Command) (s : Assembly)
    → IsReading most s
    → IsReading most (read_command f c s)
unfolding read_command
read_command-IsReading f control s r = read_control-IsReading f s r
read_command-IsReading f start s r = read_start-IsReading f s r
read_command-IsReading f boundary s r = read_boundary-IsReading f s r
read_command-IsReading f (management_line groups) s r =
    extend_document-IsReading f
      (apply_management_line f (captured_text text_group groups) (captured style_group groups))
      (management_document f s) (management_document-Chosen f s r)
      (management_line-Keeps f (captured_text text_group groups) (captured style_group groups) _)
read_command-IsReading f (commercial_item groups) s r =
    extend_document-IsReading f (apply_commercial_item f groups) (commercial_document f s)
      (commercial_document-Chosen f s r) (commercial_item-Keeps f groups _)
read_command-IsReading f (commercial_text groups) s r = read_text-IsReading f groups s r
read_command-IsReading f (commercial_total groups) s r =
    let b = (commercial_document f s).0 in
    extend_document-IsReading f (apply_commercial_total f groups) (commercial_document f s)
      (commercial_document-Chosen f s r)
      (commercial_total-Keeps f groups (add_frame f b) (
        subst (λ kind. is_commercial kind ≡ true) (sym (kind-add_frame f b))
          (commercial_document-kind f s)))
read_command-IsReading f display s r = r
read_command-IsReading f other s r = read_other-IsReading f s r

read_frame-IsReading :
    {most : ℕ} (f : RchFrame) (s : Assembly) → IsReading most s → IsReading most (read_frame f s)
unfolding read_frame
read_frame-IsReading {most = most} f s r =
    if-cases (IsReading most) (is_request_profile f)
      (λ _. read_command-IsReading f (command_of f.payload) s r) (λ _. r)

read_frames-IsReading :
    {most : ℕ} (fs : List RchFrame) (s : Assembly)
    → IsReading most s
    → IsReading most (read_frames fs s)
unfolding read_frames
read_frames-IsReading [] s r = r
read_frames-IsReading (f ∷ fs) s r =
    read_frames-IsReading fs (read_frame f s) (read_frame-IsReading f s r)

-- Whatever frames are read and whatever the limits, the documents are at most `max_documents`, they
-- are numbered from 1 in order, the transitions of each lead from `idle` to `complete` or
-- `incomplete` as it is complete or not, each of them allowed for its kind, and the issues are those
-- of the documents and, only if the limit is reached, one that says so.
pub parse_documents-IsKept :
    (fs : List RchFrame) (max_documents : ℕ) (semantic_budget : SemanticBudget)
    → let s = parse_documents fs max_documents semantic_budget in
      IsKept max_documents s.documents s.issues s.document_limit_reported
unfolding parse_documents
parse_documents-IsKept fs max_documents semantic_budget =
    let first = new_assembly max_documents semantic_budget in
    let begun : IsReading max_documents first = record {
      kept = (
        refl,
        record {
          within = omega arith;
          numbered = tt;
          limit_issue = none;
          same_issues = refl;
          is_limit = refl;
          full = λ h. cc;
        },
      );
      building = tt;
    } in
    let s = finish_active false (read_frames fs first) in
    let (same_limit, kept) =
      (finish_active-IsReading false (read_frames fs first)
        (read_frames-IsReading fs first begun)).kept in
    subst (λ most. IsKept most s.documents s.issues s.document_limit_reported) same_limit kept
