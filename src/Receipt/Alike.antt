-- ===== src/Receipt/Alike.antt =====
-- The reading of src/commercialrchproxy/rch/receipt_parser.py with two semantic budgets: the states
-- stay alike but for the fields of the documents.
use commercial_rchproxy.Common.{
  ℕ, true, false, Option, none, some, List, [], ◌∷◌, map, if◌then◌else◌, ◌≡◌, refl, ap, if-related,
  text_eq, codes,
}
use commercial_rchproxy.Framing.Types.{RchFrame}
use commercial_rchproxy.Regex.{Captures, captured, captured_text}
use commercial_rchproxy.Receipt.Patterns.{text_group, style_group}
use commercial_rchproxy.Receipt.Budget.{SemanticBudget}
use commercial_rchproxy.Receipt.Builder.{
  new_builder, transition, add_frame, is_commercial, same_state,
}
use commercial_rchproxy.Receipt.Fields.{apply_management_line}
use commercial_rchproxy.Receipt.Commercial.{
  apply_commercial_item, apply_commercial_text, apply_commercial_total,
}
use commercial_rchproxy.Receipt.Model.{
  documento_commerciale, documento_gestionale, commercial_payment, commercial_postlude,
  ReceiptBuilder,
}
use commercial_rchproxy.Receipt.Outline.{
  outline_receipt, outline_builder, Like, transition-Like, add_frame-Like, Agrees,
  management_line-Agrees, commercial_item-Agrees, commercial_text-Agrees, commercial_total-Agrees,
}
use commercial_rchproxy.Receipt.Assembly.{
  Assembly, finish_document, finish_active, is_closing_control, continue_control, read_control,
  or_frame, read_start, read_boundary, management_document, commercial_document, extend_document,
  Command, control, start, boundary, management_line, commercial_item, commercial_text,
  commercial_total, display, other, read_command, read_text, read_other, read_frame, read_frames,
  new_assembly, parse_documents, command_of, is_request_profile,
}
use commercial_rchproxy.Receipt.Lockstep.{
  Alike, active-related, turn, same_kind, finish_document-Alike, finish_active-Alike,
}

continue_control-Alike :
    (f : RchFrame) (b c : ReceiptBuilder) (s t : Assembly)
    → Like b c
    → Alike s t
    → Alike (continue_control f b s) (continue_control f c t)
unfolding continue_control
continue_control-Alike f b c s t h a =
    let more = add_frame-Like f b c h in
    let b' = add_frame f b in
    let c' = add_frame f c in
    if-related Alike (is_closing_control f.payload) (is_closing_control f.payload) refl
      (λ _. finish_document-Alike b' c' true s t more a)
      (λ _.
        if-related Alike (same_state b'.state commercial_payment)
          (same_state c'.state commercial_payment)
          (ap (λ (x : ReceiptBuilder). same_state x.state commercial_payment) more)
          (λ _.
            turn s t (some (transition commercial_postlude f b'))
              (some (transition commercial_postlude f c')) _ _ a
              (transition-Like commercial_postlude f b' c' more) a.pending_start)
          (λ _. turn s t (some b') (some c') _ _ a more a.pending_start))

read_control-Alike :
    (f : RchFrame) (s t : Assembly) → Alike s t → Alike (read_control f s) (read_control f t)
unfolding read_control
read_control-Alike f s t a =
    let pending = if text_eq f.payload (codes "<</?s") then some f else none in
    let waiting = turn s t s.active t.active pending pending a a.active refl in
    active-related Alike s.active t.active a.active waiting (λ b c h.
      if-related Alike (is_commercial b.kind) (is_commercial c.kind) (same_kind b c h)
        (λ _. continue_control-Alike f b c s t h a) (λ _. waiting))

read_start-Alike :
    (f : RchFrame) (s t : Assembly) → Alike s t → Alike (read_start f s) (read_start f t)
unfolding read_start
read_start-Alike f s t a =
    let begun = λ (p : Option RchFrame). new_builder documento_commerciale (or_frame p f) in
    turn (finish_active false s) (finish_active false t)
      (some (add_frame f (begun s.pending_start))) (some (add_frame f (begun t.pending_start))) none
      none (finish_active-Alike false s t a)
      (add_frame-Like f _ _ (λ i. outline_builder (begun (a.pending_start i)))) refl

read_boundary-Alike :
    (f : RchFrame) (s t : Assembly) → Alike s t → Alike (read_boundary f s) (read_boundary f t)
unfolding read_boundary
read_boundary-Alike f s t a =
    let b = new_builder documento_gestionale f in
    let opened =
      turn (finish_active false s) (finish_active false t) (some b) (some b) none none
        (finish_active-Alike false s t a) refl refl in
    active-related Alike s.active t.active a.active opened (λ b c h.
      if-related Alike (is_commercial b.kind) (is_commercial c.kind) (same_kind b c h) (λ _. opened)
        (λ _.
          let u = finish_document (add_frame f b) true s in
          let v = finish_document (add_frame f c) true t in
          let done =
            finish_document-Alike (add_frame f b) (add_frame f c) true s t (add_frame-Like f b c h)
              a in
          turn u v u.active v.active none none done done.active refl))

-- The choices of the document that a command goes to.
abbrev Related : ReceiptBuilder × Assembly → ReceiptBuilder × Assembly → Type 0
Related (b, s) (c, t) = Like b c × Alike s t

management_document-Related :
    (f : RchFrame) (s t : Assembly)
    → Alike s t
    → Related (management_document f s) (management_document f t)
unfolding management_document
management_document-Related f s t a =
    active-related Related s.active t.active a.active (refl, a)
      (λ b c h.
        if-related Related (is_commercial b.kind) (is_commercial c.kind) (same_kind b c h)
          (λ _. (refl, finish_active-Alike false s t a)) (λ _. (h, a)))

commercial_document-Related :
    (f : RchFrame) (s t : Assembly)
    → Alike s t
    → Related (commercial_document f s) (commercial_document f t)
unfolding commercial_document
commercial_document-Related f s t a =
    active-related Related s.active t.active a.active (refl, a)
      (λ b c h.
        if-related Related (is_commercial b.kind) (is_commercial c.kind) (same_kind b c h)
          (λ _. (h, a)) (λ _. (refl, finish_active-Alike false s t a)))

extend_document-Alike :
    (f : RchFrame) (apply : ReceiptBuilder → SemanticBudget → ReceiptBuilder × SemanticBudget)
    (p q : ReceiptBuilder × Assembly)
    → Agrees apply
    → Related p q
    → Alike (extend_document f apply p) (extend_document f apply q)
unfolding extend_document
extend_document-Alike f apply (b, s) (c, t) agrees (h, a) = record {
  limit = a.limit;
  outlines = a.outlines;
  issues = a.issues;
  active =
      agrees (add_frame f b) (add_frame f c) s.semantic_budget t.semantic_budget
        (add_frame-Like f b c h);
  pending_start = a.pending_start;
  reported = a.reported;
}

read_other-Alike :
    (f : RchFrame) (s t : Assembly) → Alike s t → Alike (read_other f s) (read_other f t)
unfolding read_other
read_other-Alike f s t a = active-related Alike s.active t.active a.active a (λ b c h.
    turn s t (some (add_frame f b)) (some (add_frame f c)) _ _ a (add_frame-Like f b c h)
      a.pending_start)

read_text-Alike :
    (f : RchFrame) (groups : Captures) (s t : Assembly)
    → Alike s t
    → Alike (read_text f groups s) (read_text f groups t)
unfolding read_text
read_text-Alike f groups s t a = active-related Alike s.active t.active a.active a (λ b c h.
    if-related Alike (is_commercial b.kind) (is_commercial c.kind) (same_kind b c h)
      (λ _.
        extend_document-Alike f (apply_commercial_text f groups) (b, s) (c, t)
          (commercial_text-Agrees f groups) (h, a))
      (λ _. read_other-Alike f s t a))

read_command-Alike :
    (f : RchFrame) (command : Command) (s t : Assembly)
    → Alike s t
    → Alike (read_command f command s) (read_command f command t)
unfolding read_command
read_command-Alike f control s t a = read_control-Alike f s t a
read_command-Alike f start s t a = read_start-Alike f s t a
read_command-Alike f boundary s t a = read_boundary-Alike f s t a
read_command-Alike f (management_line groups) s t a =
    let text = captured_text text_group groups in
    let style = captured style_group groups in
    extend_document-Alike f (apply_management_line f text style) (management_document f s)
      (management_document f t) (management_line-Agrees f text style)
      (management_document-Related f s t a)
read_command-Alike f (commercial_item groups) s t a =
    extend_document-Alike f (apply_commercial_item f groups) (commercial_document f s)
      (commercial_document f t) (commercial_item-Agrees f groups)
      (commercial_document-Related f s t a)
read_command-Alike f (commercial_text groups) s t a = read_text-Alike f groups s t a
read_command-Alike f (commercial_total groups) s t a =
    extend_document-Alike f (apply_commercial_total f groups) (commercial_document f s)
      (commercial_document f t) (commercial_total-Agrees f groups)
      (commercial_document-Related f s t a)
read_command-Alike f display s t a = a
read_command-Alike f other s t a = read_other-Alike f s t a

read_frames-Alike :
    (fs : List RchFrame) (s t : Assembly) → Alike s t → Alike (read_frames fs s) (read_frames fs t)
unfolding read_frames read_frame
read_frames-Alike [] s t a = a
read_frames-Alike (f ∷ fs) s t a = read_frames-Alike fs (read_frame f s) (read_frame f t) (
    if-related Alike (is_request_profile f) (is_request_profile f) refl
      (λ _. read_command-Alike f (command_of f.payload) s t a) (λ _. a))

-- The semantic budget changes only the human-readable fields: with any two budgets the same frames
-- give documents of the same outline (number, kind, completeness, frames, offsets, issues and
-- transitions), the same issues, and the same answer on the document limit.
pub parse_documents-budget :
    (fs : List RchFrame) (max_documents : ℕ) (budget bigger : SemanticBudget)
    → let s = parse_documents fs max_documents budget in
      let t = parse_documents fs max_documents bigger in
      (map outline_receipt s.documents ≡ map outline_receipt t.documents)
      × (s.issues ≡ t.issues)
      × (s.document_limit_reported ≡ t.document_limit_reported)
unfolding parse_documents
parse_documents-budget fs max_documents budget bigger =
    let start_of = λ (b : SemanticBudget). new_assembly max_documents b in
    let begun : Alike (start_of budget) (start_of bigger) = record {
      limit = refl;
      outlines = refl;
      issues = refl;
      active = tt;
      pending_start = refl;
      reported = refl;
    } in
    let a =
      finish_active-Alike false (read_frames fs (start_of budget))
        (read_frames fs (start_of bigger))
        (read_frames-Alike fs (start_of budget) (start_of bigger) begun) in
    (a.outlines, a.issues, a.reported)
