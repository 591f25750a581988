-- ===== src/Receipt/Amounts.antt =====
-- src/commercialrchproxy/rch/receipt_parser.py: amounts as they are printed, `_format_cents` and
-- `parse_printed_amount`.
use commercial_rchproxy.Common.{
  ℕ, zero, suc, ◌+◌, ◌*◌, ◌/◌, ◌%◌, ◌||◌, Option, none, some, [], ◌∷◌, ◌++◌, Bytes, ℤ, pos, negsuc,
  neg, codes, strip, ◌==◌, ltb, if◌then◌else◌, starts_with,
}
use commercial_rchproxy.Regex.{Regex, seq, re_fullmatch, literal}
use commercial_rchproxy.Receipt.Patterns.{digit, signed_digits, value}

-- `candidate.replace(".", "")`
unfoldable pub without_dots : Bytes → Bytes
without_dots [] = []
without_dots (c ∷ cs) = if c == b'.' then without_dots cs else c ∷ without_dots cs

-- `[+-]?\d+,\d{2}`
unfoldable pub amount_re : Regex
unfolding literal
amount_re = seq signed_digits (seq (literal (codes ",")) (seq digit digit))

-- `candidate.lstrip("+-")`
unfoldable pub strip_signs : Bytes → Bytes
strip_signs [] = []
strip_signs (c ∷ cs) = if c == b'+' || c == b'-' then strip_signs cs else c ∷ cs

-- `unsigned.split(",", 1)`, of a text with a comma
unfoldable pub split_comma : Bytes → Bytes × Bytes
split_comma [] = ([], [])
split_comma (c ∷ cs) = if c == b',' then ([], cs) else (c ∷ (split_comma cs).0, (split_comma cs).1)

-- What `parse_printed_amount` returns for a candidate that has matched.
unfoldable pub amount_of : Bytes → ℤ
unfolding strip_signs split_comma value starts_with
amount_of candidate =
    let parts = split_comma (strip_signs candidate) in
    let cents = value 0 parts.0 * 100 + value 0 parts.1 in
    if starts_with (codes "-") candidate then neg cents else pos cents

-- The match of a candidate, and its amount.
unfoldable pub parse_candidate : Bytes → Option ℤ
unfolding amount_re amount_of re_fullmatch
parse_candidate candidate = elim (re_fullmatch amount_re candidate) [
  | none ↦ none
  | some m ↦ some (amount_of candidate)
]

unfoldable pub parse_printed_amount : Bytes → Option ℤ
unfolding without_dots strip parse_candidate
parse_printed_amount text = parse_candidate (without_dots (strip text))

-- The decimal digits of a number before those of `out`, on fuel.
unfoldable pub digits : ℕ → ℕ → Bytes → Bytes
digits zero n out = out
digits (suc fuel) n out =
    let shown = (b'0' + n % 10) ∷ out in
    let rest = digits fuel (n / 10) shown in if ltb n 10 then shown else rest

-- `str(n)`; a number has no more digits than `n + 1`
unfoldable pub decimal : ℕ → Bytes
unfolding digits
decimal n = digits (suc n) n []

-- `_format_cents`
unfoldable pub format_cents : ℤ → Bytes
unfolding decimal
format_cents (pos n) = decimal (n / 100) ++ (b',' ∷ (b'0' + n % 100 / 10) ∷ (b'0' + n % 10) ∷ [])
format_cents (negsuc m) =
    let n = suc m in
    b'-' ∷ (decimal (n / 100) ++ (b',' ∷ (b'0' + n % 100 / 10) ∷ (b'0' + n % 10) ∷ []))
