-- ===== src/Receipt/Digits.antt =====
-- Numbers in decimal, as src/commercialrchproxy/rch/receipt_parser.py and
-- src/commercialrchproxy/storage/counter.py print them.
use commercial_rchproxy.Common.{
  ℕ, zero, suc, ◌+◌, ◌*◌, ◌/◌, ◌%◌, ◌≤◌, ◌<◌, [], ◌∷◌, Bytes, length, ltb, ◌≡◌, ap, ◌∙◌, arith,
  if-cases,
}
use commercial_rchproxy.Receipt.Patterns.{value}
use commercial_rchproxy.Receipt.Amounts.{digits, decimal}

abbrev pub IsDigit : ℕ → Type 0
IsDigit c = (48 ≤ c) × (c ≤ 57)

abbrev pub Digits : Bytes → Type 0
Digits [] = Unit {0}
Digits (c ∷ cs) = IsDigit c × Digits cs

pub digits-Digits : (fuel n : ℕ) (out : Bytes) → Digits out → Digits (digits fuel n out)
unfolding digits
digits-Digits zero n out h = h
digits-Digits (suc fuel) n out h =
    let more : Digits ((48 + n % 10) ∷ out) = (omega arith, h) in
    if-cases Digits (ltb n 10) (λ _. more) (λ _. digits-Digits fuel (n / 10) _ more)

pub value-digits : (fuel n : ℕ) (out : Bytes) → n < fuel → value 0 (digits fuel n out) ≡ value n out
unfolding digits value
value-digits zero n out h = absurd (omega arith)
value-digits (suc fuel) n out h =
    if-cases (λ (l : Bytes). value 0 l ≡ value n out) (ltb n 10)
      (λ small. ap (λ k. value k out) (ground (arith, small)))
      (λ large.
        value-digits fuel (n / 10) ((48 + n % 10) ∷ out) (ground (arith, large))
        ∙ ap (λ k. value k out) (omega arith))

-- The digits of a number are those of a longer text with its last digit.
abbrev pub IsCons : Bytes → Type 0
IsCons [] = ⊥
IsCons (c ∷ cs) = Unit {0}

digits-IsCons : (fuel n : ℕ) (out : Bytes) → IsCons out → IsCons (digits fuel n out)
unfolding digits
digits-IsCons zero n out h = h
digits-IsCons (suc fuel) n out h =
    if-cases IsCons (ltb n 10) (λ _. tt) (λ _. digits-IsCons fuel (n / 10) _ tt)

pub decimal-IsCons : (n : ℕ) → IsCons (decimal n)
unfolding decimal digits
decimal-IsCons n = if-cases IsCons (ltb n 10) (λ _. tt) (λ _. digits-IsCons n (n / 10) _ tt)

pub decimal-Digits : (n : ℕ) → Digits (decimal n)
unfolding decimal
decimal-Digits n = digits-Digits (suc n) n [] tt

pub value-decimal : (n : ℕ) → value 0 (decimal n) ≡ n
unfolding decimal value
value-decimal n = value-digits (suc n) n [] (omega arith)

abbrev pub power_of_ten : ℕ → ℕ
power_of_ten zero = 1
power_of_ten (suc places) = 10 * power_of_ten places

digits-short :
    (places fuel n : ℕ) (out : Bytes)
    → n < power_of_ten (suc places)
    → length (digits fuel n out) ≤ suc (places + length out)
unfolding digits
digits-short places zero n out h = omega arith
digits-short zero (suc fuel) n out h =
    if-cases (λ (l : Bytes). length l ≤ suc (0 + length out)) (ltb n 10) (λ small. omega arith)
      (λ large. absurd (ground (arith, large)))
digits-short (suc places) (suc fuel) n out h =
    if-cases (λ (l : Bytes). length l ≤ suc (suc places + length out)) (ltb n 10)
      (λ small. omega arith)
      (λ large.
        let rest = digits-short places fuel (n / 10) ((48 + n % 10) ∷ out) (omega arith) in
        omega (arith, rest))

pub decimal-short : (places n : ℕ) → n < power_of_ten (suc places) → length (decimal n) ≤ suc places
unfolding decimal
decimal-short places n h = let short = digits-short places (suc n) n [] h in omega (arith, short)
