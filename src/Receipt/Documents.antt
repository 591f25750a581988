-- ===== src/Receipt/Documents.antt =====
-- What the reading of src/commercialrchproxy/rch/receipt_parser.py keeps true of its documents: their
-- number, their numbering, their issues and the way of their states.
use commercial_rchproxy.Common.{
  ℕ, Bool, true, false, List, [], ◌∷◌, ◌++◌, ◌==◌, ◌≡◌, refl, sym, subst, ◌∙◌, if-cases, arith,
}
use commercial_rchproxy.Framing.Types.{RchFrame}
use commercial_rchproxy.Receipt.Builder.{
  new_builder, transition, add_frame, add_issue, finish_builder, is_commercial, same_state,
  note_incomplete, last_frame, final_state_of,
}
use commercial_rchproxy.Receipt.Model.{
  Kind, documento_commerciale, documento_gestionale, DocumentAssemblyState, idle, commercial_body,
  commercial_payment, commercial_postlude, management_body, complete, incomplete, DocumentIssueCode,
  Transition, ReceiptBuilder, ParsedReceipt,
}

-- The states of an open document.
abbrev pub is_open : Kind → DocumentAssemblyState → Bool
is_open documento_commerciale commercial_body = true
is_open documento_commerciale commercial_payment = true
is_open documento_commerciale commercial_postlude = true
is_open documento_gestionale management_body = true
is_open _ _ = false

-- The changes of state that a document of a kind may make.
abbrev pub is_allowed : Kind → DocumentAssemblyState → DocumentAssemblyState → Bool
is_allowed documento_commerciale idle commercial_body = true
is_allowed documento_gestionale idle management_body = true
is_allowed documento_commerciale commercial_body commercial_payment = true
is_allowed documento_commerciale commercial_postlude commercial_payment = true
is_allowed documento_commerciale commercial_payment commercial_postlude = true
is_allowed kind a complete = is_open kind a
is_allowed kind a incomplete = is_open kind a
is_allowed _ _ _ = false

-- The recorded transitions lead from `a` to `b`, each of them allowed.
abbrev pub IsPath : Kind → DocumentAssemblyState → List Transition → DocumentAssemblyState → Type 0
IsPath kind a [] b = a ≡ b
IsPath kind a (t ∷ ts) b =
    (t.from_state ≡ a) × (is_allowed kind a t.to_state ≡ true) × IsPath kind t.to_state ts b

pub record IsAssembled (d : ParsedReceipt) : Type 0 where
  pub path : IsPath d.kind idle d.state_transitions d.final_state
  pub ended : d.final_state ≡ final_state_of d.is_complete

pub record IsBuilding (b : ReceiptBuilder) : Type 0 where
  pub path : IsPath b.kind idle b.state_transitions b.state
  pub opened : is_open b.kind b.state ≡ true

IsPath-append :
    (kind : Kind) (a : DocumentAssemblyState) (ts : List Transition) (b : DocumentAssemblyState)
    (t : Transition)
    → IsPath kind a ts b
    → t.from_state ≡ b
    → is_allowed kind b t.to_state ≡ true
    → IsPath kind a (ts ++ (t ∷ [])) t.to_state
IsPath-append kind a [] b t here from legal =
    (from ∙ sym here, subst (λ x. is_allowed kind x t.to_state ≡ true) (sym here) legal, refl)
IsPath-append kind a (u ∷ ts) b t (first, step, rest) from legal =
    (first, step, IsPath-append kind u.to_state ts b t rest from legal)

-- A transition that is recorded extends the path.
transition-IsPath :
    (target : DocumentAssemblyState) (f : RchFrame) (b : ReceiptBuilder)
    → IsPath b.kind idle b.state_transitions b.state
    → (same_state b.state target ≡ false → is_allowed b.kind b.state target ≡ true)
    → IsPath b.kind idle (transition target f b).state_transitions (transition target f b).state
unfolding transition
transition-IsPath target f b path legal =
    if-cases (λ (c : ReceiptBuilder). IsPath b.kind idle c.state_transitions c.state)
      (same_state b.state target) (λ _. path)
      (λ other. IsPath-append b.kind idle b.state_transitions b.state _ path refl (legal other))

same_state-eq : (a b : DocumentAssemblyState) → same_state a b ≡ true → a ≡ b
same_state-eq idle idle h = refl
same_state-eq idle _ h = ground arith
same_state-eq a b h = ground arith

state-transition :
    (target : DocumentAssemblyState) (f : RchFrame) (b : ReceiptBuilder)
    → (transition target f b).state ≡ target
unfolding transition
state-transition target f b =
    if-cases (λ (c : ReceiptBuilder). c.state ≡ target) (same_state b.state target)
      (same_state-eq b.state target) (λ _. refl)

is_open-ending :
    (kind : Kind) (a : DocumentAssemblyState) (c : Bool)
    → is_open kind a ≡ true
    → is_allowed kind a (final_state_of c) ≡ true
is_open-ending documento_commerciale commercial_body true h = refl
is_open-ending documento_commerciale commercial_body false h = refl
is_open-ending documento_commerciale commercial_payment true h = refl
is_open-ending documento_commerciale commercial_payment false h = refl
is_open-ending documento_commerciale commercial_postlude true h = refl
is_open-ending documento_commerciale commercial_postlude false h = refl
is_open-ending documento_gestionale management_body true h = refl
is_open-ending documento_gestionale management_body false h = refl
is_open-ending documento_commerciale idle c h = cc
is_open-ending documento_commerciale management_body c h = cc
is_open-ending documento_commerciale complete c h = cc
is_open-ending documento_commerciale incomplete c h = cc
is_open-ending documento_gestionale idle c h = cc
is_open-ending documento_gestionale commercial_body c h = cc
is_open-ending documento_gestionale commercial_payment c h = cc
is_open-ending documento_gestionale commercial_postlude c h = cc
is_open-ending documento_gestionale complete c h = cc
is_open-ending documento_gestionale incomplete c h = cc

note_incomplete-IsBuilding :
    (c : Bool) (b : ReceiptBuilder) → IsBuilding b → IsBuilding (note_incomplete c b)
unfolding note_incomplete
note_incomplete-IsBuilding true b h = h
note_incomplete-IsBuilding false b h = record { path = h.path; opened = h.opened }

kind-transition :
    (target : DocumentAssemblyState) (f : RchFrame) (b : ReceiptBuilder)
    → (transition target f b).kind ≡ b.kind
unfolding transition
kind-transition target f b =
    if-cases (λ (c : ReceiptBuilder). c.kind ≡ b.kind) (same_state b.state target) (λ _. refl)
      (λ _. refl)

-- An open document is finished along an allowed path.
pub finish_builder-IsAssembled :
    (b : ReceiptBuilder) (n : ℕ) (c : Bool) → IsBuilding b → IsAssembled (finish_builder b n c)
unfolding finish_builder last_frame
finish_builder-IsAssembled b n c h =
    let noted = note_incomplete c b in
    let building = note_incomplete-IsBuilding c b h in
    let target = final_state_of c in
    let ended = transition target (last_frame noted) noted in
    record {
      path =
          subst (λ k. IsPath k idle ended.state_transitions ended.state)
            (sym (kind-transition target (last_frame noted) noted))
            (transition-IsPath target (last_frame noted) noted building.path
              (λ _. is_open-ending noted.kind noted.state c building.opened));
      ended = state-transition target (last_frame noted) noted;
    }

pub new_builder-IsBuilding : (kind : Kind) (f : RchFrame) → IsBuilding (new_builder kind f)
unfolding new_builder transition
new_builder-IsBuilding documento_commerciale f = record { path = (refl, refl, refl); opened = refl }
new_builder-IsBuilding documento_gestionale f = record { path = (refl, refl, refl); opened = refl }

pub add_issue-IsBuilding :
    (code : DocumentIssueCode) (f : RchFrame) (b : ReceiptBuilder)
    → IsBuilding b
    → IsBuilding (add_issue code f b)
add_issue-IsBuilding code f b h = record { path = h.path; opened = h.opened }

pub add_frame-IsBuilding :
    (f : RchFrame) (b : ReceiptBuilder) → IsBuilding b → IsBuilding (add_frame f b)
unfolding add_frame
add_frame-IsBuilding f b h =
    if-cases IsBuilding ((last_frame b).frame_id == f.frame_id) (λ _. h)
      (λ _. record { path = h.path; opened = h.opened })

pub kind-add_frame : (f : RchFrame) (b : ReceiptBuilder) → (add_frame f b).kind ≡ b.kind
unfolding add_frame
kind-add_frame f b =
    if-cases (λ (c : ReceiptBuilder). c.kind ≡ b.kind) ((last_frame b).frame_id == f.frame_id)
      (λ _. refl) (λ _. refl)

-- The states that an open commercial document goes to.
pub payment_allowed :
    (kind : Kind) (a : DocumentAssemblyState)
    → is_commercial kind ≡ true
    → is_open kind a ≡ true
    → same_state a commercial_payment ≡ false
    → is_allowed kind a commercial_payment ≡ true
payment_allowed documento_gestionale a c o s = cc
payment_allowed documento_commerciale commercial_body c o s = refl
payment_allowed documento_commerciale commercial_postlude c o s = refl
payment_allowed documento_commerciale commercial_payment c o s = cc
payment_allowed documento_commerciale idle c o s = cc
payment_allowed documento_commerciale management_body c o s = cc
payment_allowed documento_commerciale complete c o s = cc
payment_allowed documento_commerciale incomplete c o s = cc

-- A transition from an open state to another one leaves the document open.
transition-IsBuilding :
    (target : DocumentAssemblyState) (f : RchFrame) (b : ReceiptBuilder)
    → (same_state b.state target ≡ false → is_allowed b.kind b.state target ≡ true)
    → is_open b.kind target ≡ true
    → IsBuilding b
    → IsBuilding (transition target f b)
transition-IsBuilding target f b legal open_target h =
    let moved = transition target f b in
    let same_kind = sym (kind-transition target f b) in
    record {
      path =
          subst (λ k. IsPath k idle moved.state_transitions moved.state) same_kind
            (transition-IsPath target f b h.path legal);
      opened =
          subst (λ k. is_open k moved.state ≡ true) same_kind
            (subst (λ a. is_open b.kind a ≡ true) (sym (state-transition target f b)) open_target);
    }

commercial_open :
    (kind : Kind)
    → is_commercial kind ≡ true
    → (is_open kind commercial_payment ≡ true)
      × (is_open kind commercial_postlude ≡ true)
      × (is_allowed kind commercial_payment commercial_postlude ≡ true)
commercial_open documento_commerciale h = (refl, refl, refl)
commercial_open documento_gestionale h = cc

pub payment-IsBuilding :
    (f : RchFrame) (b : ReceiptBuilder)
    → is_commercial b.kind ≡ true
    → IsBuilding b
    → IsBuilding (transition commercial_payment f b)
payment-IsBuilding f b commercial h =
    transition-IsBuilding commercial_payment f b
      (payment_allowed b.kind b.state commercial h.opened) (commercial_open b.kind commercial).0 h

pub postlude-IsBuilding :
    (f : RchFrame) (b : ReceiptBuilder)
    → is_commercial b.kind ≡ true
    → same_state b.state commercial_payment ≡ true
    → IsBuilding b
    → IsBuilding (transition commercial_postlude f b)
postlude-IsBuilding f b commercial paid h =
    let facts = commercial_open b.kind commercial in
    transition-IsBuilding commercial_postlude f b
      (λ _.
        subst (λ a. is_allowed b.kind a commercial_postlude ≡ true)
          (sym (same_state-eq b.state commercial_payment paid)) facts.2)
      facts.1 h
