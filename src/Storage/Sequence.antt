-- ===== src/Storage/Sequence.antt =====
-- Allocations of src/commercialrchproxy/storage/counter.py from a new counter.
use commercial_rchproxy.Common.{
  ℕ, zero, suc, ◌+◌, ◌-◌, ◌≤◌, ◌<◌, true, false, Option, none, some, List, [], ◌∷◌, ◌++◌, Bytes,
  length, length-append, codes, strip, strip_left, strip_right, all_space, is_space, pos, ◌≡◌, refl,
  ap, ◌∙◌, arith,
}
use commercial_rchproxy.Receipt.Patterns.{value}
use commercial_rchproxy.Receipt.Amounts.{decimal}
use commercial_rchproxy.Receipt.Digits.{
  IsDigit, Digits, IsCons, decimal-IsCons, decimal-Digits, value-decimal, power_of_ten,
  decimal-short,
}
use commercial_rchproxy.Storage.Counter.{
  all_digits, is_code, validate_job_code, zeros, padded, Allocator, CounterFile, absent,
  counter_text, Allocation, allocated, refused, allocate_number, allocate, allocate_times, is_ascii,
  is_decimal,
}
use commercial_rchproxy.Storage.Codes.{length-zeros, padded-Digits, value-padded}

all_digits-Digits : (cs : Bytes) → Digits cs → all_digits cs ≡ true
unfolding all_digits
all_digits-Digits [] h = refl
all_digits-Digits (c ∷ cs) (hc, hs) = rw (all_digits-Digits cs hs) (ground (arith, hc))

is_decimal-Digits : (cs : Bytes) → IsCons cs → Digits cs → is_decimal cs ≡ true
unfolding is_decimal
is_decimal-Digits [] some_digit h = absurd some_digit
is_decimal-Digits (c ∷ cs) some_digit h = all_digits-Digits (c ∷ cs) h

is_ascii-line : (cs : Bytes) → Digits cs → is_ascii (cs ++ codes "\n") ≡ true
unfolding is_ascii
is_ascii-line [] h = refl
is_ascii-line (c ∷ cs) (hc, hs) = rw (is_ascii-line cs hs) (ground (arith, hc))

not_space : (c : ℕ) → IsDigit c → is_space c ≡ false
not_space c h = ground (arith, h)

strip_right-line : (cs : Bytes) → Digits cs → strip_right (cs ++ codes "\n") ≡ cs
unfolding strip_right all_space
strip_right-line [] h = refl
strip_right-line (c ∷ cs) (hc, hs) = rw (not_space c hc) (ap (λ l. c ∷ l) (strip_right-line cs hs))

strip-line : (cs : Bytes) → IsCons cs → Digits cs → strip (cs ++ codes "\n") ≡ cs
unfolding strip strip_left
strip-line [] some_digit h = absurd some_digit
strip-line (c ∷ cs) some_digit (hc, hs) = rw (not_space c hc) (strip_right-line (c ∷ cs) (hc, hs))

-- The number that the counter's file holds is read back.
allocate-counter :
    (a : Allocator) (n : ℕ)
    → allocate a (counter_text (decimal n ++ codes "\n"))
      ≡ allocate_number a.width n (counter_text (decimal n ++ codes "\n"))
unfolding allocate
allocate-counter a n =
    let line = strip-line (decimal n) (decimal-IsCons n) (decimal-Digits n) in
    rw (is_ascii-line (decimal n) (decimal-Digits n)) (
      rw line (
        rw (is_decimal-Digits (decimal n) (decimal-IsCons n) (decimal-Digits n)) (
          ap (λ k. allocate_number a.width k (counter_text (decimal n ++ codes "\n")))
            (value-decimal n))))

length-padded :
    (width n : ℕ) → length (padded width n) ≡ width - length (decimal n) + length (decimal n)
unfolding padded
length-padded width n =
    length-append (zeros (width - length (decimal n))) (decimal n)
    ∙ ap (λ k. k + length (decimal n)) (length-zeros (width - length (decimal n)))

valid-padded :
    (width n : ℕ)
    → 4 ≤ width
    → width ≤ 32
    → n < power_of_ten 32
    → validate_job_code (padded width n) width ≡ true
unfolding validate_job_code is_code
valid-padded width n low high small =
    let short : length (decimal n) ≤ 32 = decimal-short 31 n small in
    let long = length-padded width n in
    rw (all_digits-Digits (padded width n) (padded-Digits width n))
      (ground (arith, short, long, low, high))

allocate_number-code :
    (width n : ℕ) (file : CounterFile)
    → 4 ≤ width
    → width ≤ 32
    → n < power_of_ten 32
    → allocate_number width n file
      ≡ (allocated (padded width n), counter_text (decimal (n + 1) ++ codes "\n"))
unfolding allocate_number
allocate_number-code width n file low high small = rw (valid-padded width n low high small) refl

-- The numbers of the codes, if there is no refusal.
abbrev pub numbers_of : List Allocation → Option (List ℕ)
numbers_of [] = some []
numbers_of (allocated code ∷ rest) = elim (numbers_of rest) [
  | none ↦ none
  | some ns ↦ some (value 0 code ∷ ns)
]
numbers_of (refused why ∷ rest) = none

abbrev pub count_from : ℕ → ℕ → List ℕ
count_from n zero = []
count_from n (suc k) = n ∷ count_from (n + 1) k

numbers-first :
    (width n k : ℕ) (rest : List Allocation)
    → numbers_of rest ≡ some (count_from (n + 1) k)
    → numbers_of (allocated (padded width n) ∷ rest) ≡ some (count_from n (suc k))
numbers-first width n k rest h =
    rw h (ap (λ m. some (m ∷ count_from (n + 1) k)) (value-padded width n))

times-counter :
    (k : ℕ) (a : Allocator) (n : ℕ)
    → 4 ≤ a.width
    → a.width ≤ 32
    → n + k ≤ power_of_ten 32
    → numbers_of (allocate_times k a (counter_text (decimal n ++ codes "\n"))).0
      ≡ some (count_from n k)
unfolding allocate_times
times-counter zero a n low high small = refl
times-counter (suc k) a n low high small =
    let step =
      allocate-counter a n
      ∙ allocate_number-code a.width n (counter_text (decimal n ++ codes "\n")) low high
          (omega arith) in
    let rest = allocate_times k a (counter_text (decimal (n + 1) ++ codes "\n")) in
    rw step (numbers-first a.width n k rest.0 (times-counter k a (n + 1) low high (omega arith)))

allocate-start :
    (a : Allocator) (n : ℕ) → a.start ≡ pos n → allocate a absent ≡ allocate_number a.width n absent
unfolding allocate
allocate-start a n starts = rw starts refl

-- From a new counter, with a width of 4 to 32, `k` allocations give the codes of `k` numbers in a row
-- from the start on, as long as these have at most 32 digits: none is refused, and none given twice.
pub allocate_times-count_from :
    (k : ℕ) (a : Allocator) (n : ℕ)
    → a.start ≡ pos n
    → 4 ≤ a.width
    → a.width ≤ 32
    → n + k ≤ power_of_ten 32
    → numbers_of (allocate_times k a absent).0 ≡ some (count_from n k)
unfolding allocate_times
allocate_times-count_from zero a n starts low high small = refl
allocate_times-count_from (suc k) a n starts low high small =
    let step =
      allocate-start a n starts ∙ allocate_number-code a.width n absent low high (omega arith) in
    let rest = allocate_times k a (counter_text (decimal (n + 1) ++ codes "\n")) in
    rw step (numbers-first a.width n k rest.0 (times-counter k a (n + 1) low high (omega arith)))
