-- ===== src/Receipt/Boundaries.antt =====
-- The frames that start and end documents in src/commercialrchproxy/rch/receipt_parser.py keep the
-- documents in order.
use commercial_rchproxy.Common.{
  ℕ, true, false, Option, none, some, ◌≡◌, if-cases, option-cases, if◌then◌else◌, subst, sym,
  text_eq, codes,
}
use commercial_rchproxy.Framing.Types.{RchFrame}
use commercial_rchproxy.Receipt.Builder.{new_builder, add_frame, is_commercial, same_state}
use commercial_rchproxy.Receipt.Model.{
  documento_commerciale, documento_gestionale, commercial_payment, ReceiptBuilder,
}
use commercial_rchproxy.Receipt.Documents.{
  IsBuilding, new_builder-IsBuilding, add_frame-IsBuilding, postlude-IsBuilding, kind-add_frame,
}
use commercial_rchproxy.Receipt.Kept.{
  KeptBy, IsReading, finish_document-IsReading, finish_active-IsReading, IsActive-IsBuilding,
}
use commercial_rchproxy.Receipt.Assembly.{
  Assembly, finish_active, is_closing_control, continue_control, read_control, read_start,
  read_boundary,
}

-- A document becomes active.
pub activate :
    {most : ℕ} (s : Assembly) (b : ReceiptBuilder)
    → KeptBy most s
    → IsBuilding b
    → IsReading most (record s { active = some b })
activate s b k h = record { kept = k; building = h }

pub await :
    {most : ℕ} (s : Assembly) (f : Option RchFrame)
    → IsReading most s
    → IsReading most (record s { pending_start = f })
await s f r = record { kept = r.kept; building = r.building }

pub continue_control-IsReading :
    {most : ℕ} (f : RchFrame) (b : ReceiptBuilder) (s : Assembly)
    → is_commercial b.kind ≡ true
    → IsBuilding b
    → KeptBy most s
    → IsReading most (continue_control f b s)
unfolding continue_control
continue_control-IsReading {most = most} f b s commercial h k =
    let extended = add_frame f b in
    let open_one = add_frame-IsBuilding f b h in
    let same_kind =
      subst (λ kind. is_commercial kind ≡ true) (sym (kind-add_frame f b)) commercial in
    if-cases (IsReading most) (is_closing_control f.payload)
      (λ _. finish_document-IsReading extended true s open_one k)
      (λ _.
        if-cases (IsReading most) (same_state extended.state commercial_payment)
          (λ paid. activate s _ k (postlude-IsBuilding f extended same_kind paid open_one))
          (λ _. activate s _ k open_one))

pub read_control-IsReading :
    {most : ℕ} (f : RchFrame) (s : Assembly) → IsReading most s → IsReading most (read_control f s)
unfolding read_control
read_control-IsReading {most = most} f s r =
    let waiting = await s (if text_eq f.payload (codes "<</?s") then some f else none) r in
    option-cases (IsReading most) s.active (λ _. waiting)
      (λ b e.
        if-cases (IsReading most) (is_commercial b.kind)
          (λ commercial.
            continue_control-IsReading f b s commercial
              (IsActive-IsBuilding s.active b e r.building) r.kept)
          (λ _. waiting))

pub read_start-IsReading :
    {most : ℕ} (f : RchFrame) (s : Assembly) → IsReading most s → IsReading most (read_start f s)
unfolding read_start
read_start-IsReading f s r = record {
  kept = (finish_active-IsReading false s r).kept;
  building = add_frame-IsBuilding f _ (new_builder-IsBuilding documento_commerciale _);
}

pub read_boundary-IsReading :
    {most : ℕ} (f : RchFrame) (s : Assembly) → IsReading most s → IsReading most (read_boundary f s)
unfolding read_boundary
read_boundary-IsReading {most = most} f s r =
    let opened = await _ none (
      activate (finish_active false s) (new_builder documento_gestionale f)
        (finish_active-IsReading false s r).kept (new_builder-IsBuilding documento_gestionale f)) in
    option-cases (IsReading most) s.active (λ _. opened)
      (λ b e.
        if-cases (IsReading most) (is_commercial b.kind) (λ _. opened)
          (λ _.
            let h = add_frame-IsBuilding f b (IsActive-IsBuilding s.active b e r.building) in
            await _ none (finish_document-IsReading (add_frame f b) true s h r.kept)))
