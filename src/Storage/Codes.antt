-- ===== src/Storage/Codes.antt =====
-- One allocation of src/commercialrchproxy/storage/counter.py.
use commercial_rchproxy.Common.{
  ℕ, zero, suc, ◌+◌, ◌-◌, ◌≤◌, max, true, Option, none, some, ◌++◌, Bytes, length, codes, strip, ℤ,
  pos, negsuc, ◌≡◌, refl, sym, ap, ◌∙◌, if-cases, arith,
}
use commercial_rchproxy.Receipt.Patterns.{value}
use commercial_rchproxy.Receipt.Amounts.{decimal}
use commercial_rchproxy.Receipt.Digits.{Digits, decimal-Digits, value-decimal}
use commercial_rchproxy.Storage.Counter.{
  is_code, validate_job_code, zeros, padded, Allocator, CounterFile, absent, unsafe, counter_text,
  negative_counter, Allocation, allocated, refused, allocate_number, allocate, is_ascii, is_decimal,
}

-- The number that an allocation takes.
abbrev pub number_in : Allocator → CounterFile → Option ℕ
number_in a absent = elim a.start [ pos n ↦ some n | negsuc n ↦ none ]
number_in a unsafe = none
number_in a (counter_text text) = some (value 0 (strip text))

-- A code of at least `width` and of 4 to 32 digits spells the number of the counter, which then holds
-- the next one; without a code the counter is as it was.
abbrev pub Allocates : Allocator → CounterFile → Allocation × CounterFile → Type 0
Allocates a file (allocated code, after) =
    (number_in a file ≡ some (value 0 code))
    × Digits code
    × (max 4 a.width ≤ length code)
    × (length code ≤ 32)
    × (after ≡ counter_text (decimal (value 0 code + 1) ++ codes "\n"))
Allocates a file (refused why, after) = after ≡ file

pub value-zeros : (n : ℕ) (ds : Bytes) → value 0 (zeros n ++ ds) ≡ value 0 ds
unfolding value zeros
value-zeros zero ds = refl
value-zeros (suc n) ds = value-zeros n ds

pub value-padded : (width n : ℕ) → value 0 (padded width n) ≡ n
unfolding padded
value-padded width n = value-zeros (width - length (decimal n)) (decimal n) ∙ value-decimal n

zeros-Digits : (n : ℕ) (ds : Bytes) → Digits ds → Digits (zeros n ++ ds)
unfolding zeros
zeros-Digits zero ds h = h
zeros-Digits (suc n) ds h = ((omega arith, omega arith), zeros-Digits n ds h)

pub padded-Digits : (width n : ℕ) → Digits (padded width n)
unfolding padded
padded-Digits width n = zeros-Digits (width - length (decimal n)) (decimal n) (decimal-Digits n)

pub length-zeros : (n : ℕ) → length (zeros n) ≡ n
unfolding zeros
length-zeros zero = refl
length-zeros (suc n) = ap suc (length-zeros n)

-- What a valid code is known to be.
valid-bounds :
    (code : Bytes) (width : ℕ)
    → validate_job_code code width ≡ true
    → (max 4 width ≤ length code) × (length code ≤ 32)
unfolding validate_job_code is_code
valid-bounds code width h = (ground (arith, h), ground (arith, h))

allocate_number-Allocates :
    (a : Allocator) (n : ℕ) (file : CounterFile)
    → number_in a file ≡ some n
    → Allocates a file (allocate_number a.width n file)
unfolding allocate_number
allocate_number-Allocates a n file holds =
    let code = padded a.width n in
    let same : value 0 code ≡ n = value-padded a.width n in
    if-cases (Allocates a file) (validate_job_code code a.width)
      (λ valid.
        let (low, high) = valid-bounds code a.width valid in
        (
          holds ∙ ap some (sym same),
          padded-Digits a.width n,
          low,
          high,
          ap (λ k. counter_text (decimal (k + 1) ++ codes "\n")) (sym same),
        ))
      (λ invalid. refl)

-- Whatever the counter's file is, an allocation gives a code of at least the configured width and of 4
-- to 32 digits, which spells the number of the file, or the start, and leaves the next number in the
-- file; or it raises and leaves the file.
pub allocate-Allocates : (a : Allocator) (file : CounterFile) → Allocates a file (allocate a file)
unfolding allocate
allocate-Allocates a absent = start-cases a.start refl
  where
    start-cases :
        (z : ℤ)
        → a.start ≡ z
        → Allocates a absent (elim z [
          | pos n ↦ allocate_number a.width n absent
          | negsuc n ↦ (refused negative_counter, absent)
        ])
    start-cases (pos n) h = allocate_number-Allocates a n absent (rw h refl)
    start-cases (negsuc n) h = refl
allocate-Allocates a unsafe = refl
allocate-Allocates a (counter_text text) =
    if-cases (Allocates a (counter_text text)) (is_ascii text)
      (λ ascii.
        if-cases (Allocates a (counter_text text)) (is_decimal (strip text))
          (λ decimal. allocate_number-Allocates a (value 0 (strip text)) (counter_text text) refl)
          (λ other. refl))
      (λ other. refl)
