-- ===== src/Receipt/Subtypes.antt =====
-- src/commercialrchproxy/rch/receipt_parser.py: `_assign_document_subtypes`, which names the documents
-- by what was captured of them.
use commercial_rchproxy.Common.{
  ℕ, ◌+◌, Bool, true, false, not, ◌&&◌, ◌||◌, Option, none, some, List, [], ◌∷◌, Bytes, ℤ, pos,
  negsuc, codes, starts_with, strip, upper, contains_text, text_eq, leb, ◌==◌, if◌then◌else◌, map,
}
use commercial_rchproxy.Receipt.Model.{
  DocumentLine, Amount, Item, printed_item, command_item, Total, printed_total, command_total,
  DocumentModel, documento_commerciale, documento_gestionale, ParsedReceipt,
}
use commercial_rchproxy.Receipt.Messages.{Evidence, inferred, unknown}

-- `metadata["subtype"]`
pub data Subtype : Type 0 where
  documento_commerciale_subtype gestionale_generico copia_conforme comanda preconto : Subtype

-- The entries of a document's metadata that are set here; `copy_of` is the number in the document's
-- identifier.
pub record Subtyping : Type 0 where
  pub subtype : Subtype
  pub subtype_evidence : Evidence
  pub copy_of : Option ℕ

-- `text.casefold()`, of a latin-1 text
unfoldable pub casefold : Bytes → Bytes
casefold [] = []
casefold (c ∷ cs) =
    let rest = casefold cs in
    if leb b'A' c && leb c b'Z' || leb 0xc0 c && leb c 0xde && not (c == 0xd7)
    then (c + 32) ∷ rest
    else if c == 0xdf
    then b's' ∷ b's' ∷ rest
    else if c == 0xb5
    then 0x3bc ∷ rest
    else c ∷ rest

unfoldable pub item_entry : Item → Bytes × Option ℤ
unfolding casefold strip
item_entry (printed_item description amount_cents amount_raw tax_class source) =
    (strip (casefold description), amount_cents)
item_entry (command_item description amount_cents quantity command_code source) =
    (strip (casefold description), some amount_cents)

-- `_item_signature`
unfoldable pub item_signature : ParsedReceipt → List (Bytes × Option ℤ)
unfolding item_entry
item_signature d = map item_entry d.model.items

unfoldable pub single_amount : List Amount → Option ℤ
single_amount (a ∷ []) = some a.cents
single_amount _ = none

unfoldable pub first_total : List Total → Option ℤ
unfolding single_amount
first_total [] = none
first_total (printed_total label (some cents) amounts source ∷ totals) = some cents
first_total (printed_total label none amounts source ∷ totals) =
    let rest = first_total totals in
    elim (single_amount amounts) [ some cents ↦ some cents | none ↦ rest ]
first_total (command_total cents command_code source ∷ totals) = some cents

-- `_primary_total`
unfoldable pub primary_total : ParsedReceipt → Option ℤ
unfolding first_total
primary_total d = first_total d.model.totals

unfoldable pub int_eq : ℤ → ℤ → Bool
int_eq (pos m) (pos n) = m == n
int_eq (negsuc m) (negsuc n) = m == n
int_eq _ _ = false

unfoldable pub cents_eq : Option ℤ → Option ℤ → Bool
unfolding int_eq
cents_eq none none = true
cents_eq (some m) (some n) = int_eq m n
cents_eq _ _ = false

unfoldable pub signature_eq : List (Bytes × Option ℤ) → List (Bytes × Option ℤ) → Bool
unfolding text_eq cents_eq
signature_eq [] [] = true
signature_eq ((t, m) ∷ xs) ((u, n) ∷ ys) = text_eq t u && cents_eq m n && signature_eq xs ys
signature_eq _ _ = false

abbrev pub is_empty {ℓ} : {A : Type ℓ} → List A → Bool
is_empty [] = true
is_empty (x ∷ xs) = false

abbrev pub is_given : Option ℤ → Bool
is_given none = false
is_given (some n) = true

-- Whether a management document and an earlier commercial one agree.
unfoldable pub is_copy : ParsedReceipt → ParsedReceipt → Bool
unfolding signature_eq item_signature primary_total cents_eq
is_copy d commercial =
    not (is_empty (item_signature d))
    && signature_eq (item_signature d) (item_signature commercial)
    && is_given (primary_total d)
    && cents_eq (primary_total d) (primary_total commercial)
    && (not (is_empty d.model.payments) || not (is_empty d.model.taxes))

-- The loop over `reversed(prior_commercial)`, which is a list with the latest first.
unfoldable pub relation_of : ParsedReceipt → List ParsedReceipt → Option ParsedReceipt
unfolding is_copy
relation_of d [] = none
relation_of d (c ∷ prior) =
    let earlier = relation_of d prior in if is_copy d c then some c else earlier

unfoldable pub upper_lines : DocumentModel → List Bytes
unfolding upper strip
upper_lines m = map (λ (l : DocumentLine). upper (strip l.text)) m.lines

unfoldable pub any_contains : Bytes → List Bytes → Bool
unfolding contains_text
any_contains word [] = false
any_contains word (l ∷ ls) = contains_text word l || any_contains word ls

unfoldable pub any_starts : Bytes → List Bytes → Bool
unfolding starts_with
any_starts word [] = false
any_starts word (l ∷ ls) = starts_with word l || any_starts word ls

abbrev pub by_fields : Subtype → Subtyping
by_fields subtype = record { subtype = subtype; subtype_evidence = inferred; copy_of = none }

-- The last `else` branch, of a document without the words.
unfoldable pub unworded_subtyping : List ParsedReceipt → ParsedReceipt → Subtyping
unfolding relation_of
unworded_subtyping prior d = elim (relation_of d prior) [
  | some c ↦ record {
    subtype = copia_conforme;
    subtype_evidence = inferred;
    copy_of = some c.document_number;
  }
  | none ↦
      if not (is_empty d.model.items)
        && not (is_empty d.model.totals)
        && is_empty d.model.payments
        && is_empty d.model.taxes
      then by_fields preconto
      else record { subtype = gestionale_generico; subtype_evidence = unknown; copy_of = none }
]

-- A management document
unfoldable pub management_subtyping : List ParsedReceipt → ParsedReceipt → Subtyping
unfolding upper_lines any_contains any_starts unworded_subtyping
management_subtyping prior d =
    let lines = upper_lines d.model in
    if any_contains (codes "COPIA CONFORME") lines
    then by_fields copia_conforme
    else if any_starts (codes "PORTATA:") lines
        && any_starts (codes "COPERTI:") lines
        && is_empty d.model.totals
    then by_fields comanda
    else if any_contains (codes "PRECONTO") lines
    then by_fields preconto
    else unworded_subtyping prior d

-- The loop over the documents, from those before it that are commercial, the latest first.
unfoldable pub subtypes_from : List ParsedReceipt → List ParsedReceipt → List Subtyping
unfolding management_subtyping
subtypes_from prior [] = []
subtypes_from prior (d ∷ ds) = elim d.kind [
  | documento_commerciale ↦ by_fields documento_commerciale_subtype ∷ subtypes_from (d ∷ prior) ds
  | documento_gestionale ↦ management_subtyping prior d ∷ subtypes_from prior ds
]

-- `_assign_document_subtypes`
unfoldable pub assign_document_subtypes : List ParsedReceipt → List Subtyping
unfolding subtypes_from
assign_document_subtypes documents = subtypes_from [] documents
