-- ===== src/Receipt/Copies.antt =====
-- When `_assign_document_subtypes` of src/commercialrchproxy/rch/receipt_parser.py takes a document for
-- the copy of an earlier one.
use commercial_rchproxy.Common.{
  ℕ, Bool, true, false, not, ◌&&◌, ◌||◌, Option, none, some, List, [], ◌∷◌, Bytes, ℤ, pos, negsuc,
  codes, text_eq, ◌≡◌, ◌≢◌, ◌↔◌, ◌⊎◌, inl, inr, refl, ap, subst, if-cases, option-cases, arith,
}
use commercial_rchproxy.Receipt.Model.{
  Kind, documento_commerciale, documento_gestionale, ParsedReceipt,
}
use commercial_rchproxy.Receipt.Messages.{inferred, unknown}
use commercial_rchproxy.Receipt.Subtypes.{
  copia_conforme, comanda, documento_commerciale_subtype, preconto, gestionale_generico, Subtyping,
  item_signature, primary_total, int_eq, cents_eq, signature_eq, is_empty, is_given, is_copy,
  relation_of, upper_lines, any_contains, any_starts, by_fields, unworded_subtyping,
  management_subtyping, subtypes_from, assign_document_subtypes,
}

-- The commercial document has the same items, at least one, and the same total, and the other one
-- shows a payment or a tax.
pub record IsCopy (d commercial : ParsedReceipt) : Type 0 where
  pub same_items : item_signature d ≡ item_signature commercial
  pub some_items : item_signature d ≢ []
  pub same_total : primary_total d ≡ primary_total commercial
  pub some_total : primary_total d ≢ none
  pub settled : (d.model.payments ≢ []) ⊎ (d.model.taxes ≢ [])

int_eq_iff : (m n : ℤ) → (int_eq m n ≡ true) ↔ (m ≡ n)
unfolding int_eq
int_eq_iff (pos m) (pos n) = ground arith
int_eq_iff (negsuc m) (negsuc n) = ground arith
int_eq_iff (pos m) (negsuc n) = ground arith
int_eq_iff (negsuc m) (pos n) = ground arith

cents_eq_iff : (m n : Option ℤ) → (cents_eq m n ≡ true) ↔ (m ≡ n)
unfolding cents_eq
cents_eq_iff none none = ground arith
cents_eq_iff (some m) (some n) = ground (arith, int_eq_iff m n)
cents_eq_iff none (some n) = ground arith
cents_eq_iff (some m) none = ground arith

text_eq_iff : (t u : Bytes) → (text_eq t u ≡ true) ↔ (t ≡ u)
unfolding text_eq
text_eq_iff (a ∷ x) (b ∷ y) = ground (arith, text_eq_iff x y)
text_eq_iff _ _ = ground arith

signature_eq_iff : (x y : List (Bytes × Option ℤ)) → (signature_eq x y ≡ true) ↔ (x ≡ y)
unfolding signature_eq
signature_eq_iff ((t, m) ∷ x) ((u, n) ∷ y) =
    ground (arith, text_eq_iff t u, cents_eq_iff m n, signature_eq_iff x y)
signature_eq_iff [] [] = ground arith
signature_eq_iff [] (b ∷ y) = ground arith
signature_eq_iff (a ∷ x) [] = ground arith

is_empty_iff {ℓ} : {A : Type ℓ} → (xs : List A) → (is_empty xs ≡ false) ↔ (xs ≢ [])
is_empty_iff [] = ground arith
is_empty_iff (x ∷ xs) = ground arith

is_given_iff : (o : Option ℤ) → (is_given o ≡ true) ↔ (o ≢ none)
is_given_iff none = ground arith
is_given_iff (some n) = ground arith

is_copy-IsCopy : (d c : ParsedReceipt) → is_copy d c ≡ true → IsCopy d c
unfolding is_copy
is_copy-IsCopy d c h =
    let items = signature_eq_iff (item_signature d) (item_signature c) in
    let some_item = is_empty_iff (item_signature d) in
    let total = cents_eq_iff (primary_total d) (primary_total c) in
    let given = is_given_iff (primary_total d) in
    let paid = is_empty_iff d.model.payments in
    let taxed = is_empty_iff d.model.taxes in
    record {
      same_items = items.0 (ground (arith, h));
      some_items = some_item.0 (ground (arith, h));
      same_total = total.0 (ground (arith, h));
      some_total = given.0 (ground (arith, h));
      settled = ground (arith, h, paid, taxed);
    }

IsCopy-is_copy : (d c : ParsedReceipt) → IsCopy d c → is_copy d c ≡ true
unfolding is_copy
IsCopy-is_copy d c h =
    let items = (signature_eq_iff (item_signature d) (item_signature c)).1 h.same_items in
    let some_item = (is_empty_iff (item_signature d)).1 h.some_items in
    let total = (cents_eq_iff (primary_total d) (primary_total c)).1 h.same_total in
    let given = (is_given_iff (primary_total d)).1 h.some_total in
    let settled = h.settled in
    let paid = is_empty_iff d.model.payments in
    let taxed = is_empty_iff d.model.taxes in
    ground (arith, items, some_item, total, given, settled, paid, taxed)

not-IsCopy : (d c : ParsedReceipt) → is_copy d c ≡ false → ¬ IsCopy d c
not-IsCopy d c h copied = absurd (cc (h, IsCopy-is_copy d c copied))

-- The document with the number is a copied one, and no later one of the list, which has the latest
-- first.
abbrev pub LatestCopy : ParsedReceipt → ℕ → List ParsedReceipt → Type 0
LatestCopy d number [] = ⊥
LatestCopy d number (c ∷ prior) =
    (IsCopy d c × (c.document_number ≡ number)) ⊎ ((¬ IsCopy d c) × LatestCopy d number prior)

abbrev pub NoCopy : ParsedReceipt → List ParsedReceipt → Type 0
NoCopy d [] = Unit {0}
NoCopy d (c ∷ prior) = (¬ IsCopy d c) × NoCopy d prior

-- The relation that is found, if any.
abbrev Finds : ParsedReceipt → List ParsedReceipt → Option ParsedReceipt → Type 0
Finds d prior none = NoCopy d prior
Finds d prior (some c) = LatestCopy d c.document_number prior

relation_of-Finds :
    (d : ParsedReceipt) (prior : List ParsedReceipt) → Finds d prior (relation_of d prior)
unfolding relation_of
relation_of-Finds d [] = tt
relation_of-Finds d (c ∷ prior) =
    if-cases (Finds d (c ∷ prior)) (is_copy d c) (λ copied. inl (is_copy-IsCopy d c copied, refl))
      (λ other. later (relation_of d prior) (not-IsCopy d c other) (relation_of-Finds d prior))
  where
    later : (o : Option ParsedReceipt) → ¬ IsCopy d c → Finds d prior o → Finds d (c ∷ prior) o
    later none other h = (other, h)
    later (some e) other h = inr (other, h)

-- What the lines of a document say it is.
abbrev pub says_copy : ParsedReceipt → Bool
says_copy d = any_contains (codes "COPIA CONFORME") (upper_lines d.model)

abbrev pub says_command : ParsedReceipt → Bool
says_command d =
    any_starts (codes "PORTATA:") (upper_lines d.model)
    && any_starts (codes "COPERTI:") (upper_lines d.model)
    && is_empty d.model.totals

abbrev pub says_precount : ParsedReceipt → Bool
says_precount d = any_contains (codes "PRECONTO") (upper_lines d.model)

-- There are items and totals, and nothing that settles them.
pub record IsOpenBill (d : ParsedReceipt) : Type 0 where
  pub some_items : d.model.items ≢ []
  pub some_totals : d.model.totals ≢ []
  pub no_payments : d.model.payments ≡ []
  pub no_taxes : d.model.taxes ≡ []

-- Why a management document has its subtype, the evidence for it, and the document it is a copy of.
pub data Explained (prior : List ParsedReceipt) (d : ParsedReceipt) : Subtyping → Type 0 where
  by_copy_words :
      says_copy d ≡ true
      → Explained prior d
          (record { subtype = copia_conforme; subtype_evidence = inferred; copy_of = none })
  by_command_words :
      says_copy d ≡ false
      → says_command d ≡ true
      → Explained prior d
          (record { subtype = comanda; subtype_evidence = inferred; copy_of = none })
  by_precount_words :
      says_copy d ≡ false
      → says_command d ≡ false
      → says_precount d ≡ true
      → Explained prior d
          (record { subtype = preconto; subtype_evidence = inferred; copy_of = none })
  by_agreement :
      (number : ℕ)
      → (says_copy d || says_command d || says_precount d) ≡ false
      → LatestCopy d number prior
      → Explained prior d
          (record { subtype = copia_conforme; subtype_evidence = inferred; copy_of = some number })
  by_open_bill :
      (says_copy d || says_command d || says_precount d) ≡ false
      → NoCopy d prior
      → IsOpenBill d
      → Explained prior d
          (record { subtype = preconto; subtype_evidence = inferred; copy_of = none })
  by_nothing :
      (says_copy d || says_command d || says_precount d) ≡ false
      → NoCopy d prior
      → ¬ IsOpenBill d
      → Explained prior d
          (record { subtype = gestionale_generico; subtype_evidence = unknown; copy_of = none })

-- The first of the subtypes and the others, by the kind of the first document.
abbrev pub FirstAs :
    Kind → (commercial management : Subtyping → List Subtyping → Type 0) → List Subtyping → Type 0
FirstAs k C M [] = ⊥
FirstAs documento_commerciale C M (s ∷ ss) = C s ss
FirstAs documento_gestionale C M (s ∷ ss) = M s ss

-- Each document of a list has its subtype, where a commercial one is a copy of none.
abbrev pub Related : List ParsedReceipt → List ParsedReceipt → List Subtyping → Type 0
Related prior [] ss = ss ≡ []
Related prior (d ∷ ds) ss =
    FirstAs d.kind
      (λ s rest. (s ≡ by_fields documento_commerciale_subtype) × Related (d ∷ prior) ds rest)
      (λ s rest. Explained prior d s × Related prior ds rest) ss

first-FirstAs :
    (k : Kind) (C M : Subtyping → List Subtyping → Type 0) (s t : Subtyping)
    (ss ts : List Subtyping)
    → C s ss
    → M t ts
    → FirstAs k C M (elim k as (λ _. List Subtyping) [
      | documento_commerciale ↦ s ∷ ss
      | documento_gestionale ↦ t ∷ ts
    ])
first-FirstAs documento_commerciale C M s t ss ts c m = c
first-FirstAs documento_gestionale C M s t ss ts c m = m

abbrev open_bill : ParsedReceipt → Bool
open_bill d =
    not (is_empty d.model.items)
    && not (is_empty d.model.totals)
    && is_empty d.model.payments
    && is_empty d.model.taxes

empty_nil {ℓ} : {A : Type ℓ} → (xs : List A) → is_empty xs ≡ true → xs ≡ []
empty_nil [] h = refl
empty_nil (x ∷ xs) h = absurd (cc h)

open_bill-IsOpenBill : (d : ParsedReceipt) → open_bill d ≡ true → IsOpenBill d
open_bill-IsOpenBill d h = record {
  some_items = (is_empty_iff d.model.items).0 (ground (arith, h));
  some_totals = (is_empty_iff d.model.totals).0 (ground (arith, h));
  no_payments = empty_nil d.model.payments (ground (arith, h));
  no_taxes = empty_nil d.model.taxes (ground (arith, h));
}

IsOpenBill-open_bill : (d : ParsedReceipt) → IsOpenBill d → open_bill d ≡ true
IsOpenBill-open_bill d h =
    let items = (is_empty_iff d.model.items).1 h.some_items in
    let totals = (is_empty_iff d.model.totals).1 h.some_totals in
    let unpaid = ap is_empty h.no_payments in
    let untaxed = ap is_empty h.no_taxes in ground (arith, items, totals, unpaid, untaxed)

unworded-Explained :
    (prior : List ParsedReceipt) (d : ParsedReceipt)
    → (says_copy d || says_command d || says_precount d) ≡ false
    → Explained prior d (unworded_subtyping prior d)
unfolding unworded_subtyping
unworded-Explained prior d plain =
    option-cases (Explained prior d) (relation_of d prior)
      (λ none_found.
        let nothing : NoCopy d prior =
          subst (Finds d prior) none_found (relation_of-Finds d prior) in
        if-cases (Explained prior d) (open_bill d)
          (λ unsettled. by_open_bill plain nothing (open_bill-IsOpenBill d unsettled))
          (λ other.
            by_nothing plain nothing
              (λ unsettled. absurd (cc (other, IsOpenBill-open_bill d unsettled)))))
      (λ c found.
        by_agreement c.document_number plain
          (subst (Finds d prior) found (relation_of-Finds d prior)))

management-Explained :
    (prior : List ParsedReceipt) (d : ParsedReceipt)
    → Explained prior d (management_subtyping prior d)
unfolding management_subtyping
management-Explained prior d = if-cases (Explained prior d) (says_copy d) by_copy_words (λ no_copy.
    if-cases (Explained prior d) (says_command d) (by_command_words no_copy) (λ no_command.
      if-cases (Explained prior d) (says_precount d) (by_precount_words no_copy no_command)
        (λ no_count. unworded-Explained prior d (ground (arith, no_copy, no_command, no_count)))))

subtypes_from-Related : (prior ds : List ParsedReceipt) → Related prior ds (subtypes_from prior ds)
unfolding subtypes_from
subtypes_from-Related prior [] = refl
subtypes_from-Related prior (d ∷ ds) =
    first-FirstAs d.kind
      (λ s rest. (s ≡ by_fields documento_commerciale_subtype) × Related (d ∷ prior) ds rest)
      (λ s rest. Explained prior d s × Related prior ds rest)
      (by_fields documento_commerciale_subtype) (management_subtyping prior d)
      (subtypes_from (d ∷ prior) ds) (subtypes_from prior ds)
      (refl, subtypes_from-Related (d ∷ prior) ds)
      (management-Explained prior d, subtypes_from-Related prior ds)

-- Every document gets one subtyping, in their order. A commercial document is one, and a copy of none.
-- The lines of a management document decide first: `COPIA CONFORME`, then both marks of a command
-- without a total, then `PRECONTO` give the subtype, and no relation. Without them it is a copy of the
-- latest commercial document before it that has the same items, at least one, and the same total, if
-- it shows a payment or a tax itself; else a precount, if it has items and totals but neither
-- payments nor taxes; and else generic, which alone has unknown evidence.
pub assign_document_subtypes-Related :
    (documents : List ParsedReceipt) → Related [] documents (assign_document_subtypes documents)
unfolding assign_document_subtypes
assign_document_subtypes-Related documents = subtypes_from-Related [] documents
