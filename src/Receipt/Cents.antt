-- ===== src/Receipt/Cents.antt =====
-- The round trip of the amounts of src/commercialrchproxy/rch/receipt_parser.py.
use commercial_rchproxy.Common.{
  ℕ, suc, ◌+◌, ◌*◌, ◌/◌, ◌%◌, true, false, ◌||◌, Option, some, [], ◌∷◌, ◌++◌, Bytes, ℤ, pos, negsuc,
  neg, codes, strip, strip_left, strip_right, all_space, is_digit, is_space, ◌==◌, ◌≡◌, refl, sym,
  ap, ◌∙◌, arith, starts_with, append_assoc,
}
use commercial_rchproxy.Regex.{
  or_else, seq, Captures, Match, Next, matches, star_match, re_fullmatch, literal, if_ended,
}
use commercial_rchproxy.Receipt.Patterns.{digit, value}
use commercial_rchproxy.Receipt.Digits.{
  IsDigit, Digits, digits-Digits, value-digits, IsCons, decimal-IsCons,
}
use commercial_rchproxy.Receipt.Amounts.{
  without_dots, amount_re, strip_signs, split_comma, amount_of, parse_candidate,
  parse_printed_amount, decimal, format_cents,
}

-- Two digits behind a comma.
abbrev ending : ℕ → ℕ → Bytes
ending d e = b',' ∷ d ∷ e ∷ []

-- No digit is a space, a dot, a sign or a comma.
plain : (c : ℕ) → IsDigit c → (is_space c ≡ false) × ((c == b'.') ≡ false) × ((c == b',') ≡ false)
plain c h = (ground arith, ground arith, ground arith)

unsigned :
    (c : ℕ)
    → IsDigit c
    → ((c == b'+' || c == b'-') ≡ false) × ((b'-' == c) ≡ false) × (is_digit c ≡ true)
unsigned c h = (ground arith, ground arith, ground arith)

without_dots-amount :
    (cs : Bytes) (d e : ℕ)
    → Digits cs
    → IsDigit d
    → IsDigit e
    → without_dots (cs ++ ending d e) ≡ cs ++ ending d e
unfolding without_dots
without_dots-amount [] d e h hd he = rw ((plain d hd).1, (plain e he).1)
without_dots-amount (c ∷ cs) d e (hc, hs) hd he =
    rw (plain c hc).1 (ap (λ l. c ∷ l) (without_dots-amount cs d e hs hd he))

-- A text that ends with a digit is not stripped on the right.
all_space-last : (cs : Bytes) (e : ℕ) → IsDigit e → all_space (cs ++ (e ∷ [])) ≡ false
unfolding all_space
all_space-last [] e h = rw (plain e h).0 refl
all_space-last (c ∷ cs) e h = rw (all_space-last cs e h) (ground arith)

strip_right-last : (cs : Bytes) (e : ℕ) → IsDigit e → strip_right (cs ++ (e ∷ [])) ≡ cs ++ (e ∷ [])
unfolding strip_right
strip_right-last [] e h = rw (all_space-last [] e h) refl
strip_right-last (c ∷ cs) e h =
    rw (all_space-last (c ∷ cs) e h) (ap (λ l. c ∷ l) (strip_right-last cs e h))

strip-amount :
    (c : ℕ) (cs : Bytes) (d e : ℕ)
    → is_space c ≡ false
    → IsDigit e
    → strip (c ∷ (cs ++ ending d e)) ≡ c ∷ (cs ++ ending d e)
unfolding strip strip_left
strip-amount c cs d e hc he =
    let apart = append_assoc (c ∷ cs) (b',' ∷ d ∷ []) (e ∷ []) in
    rw hc (ap strip_right (sym apart) ∙ strip_right-last ((c ∷ cs) ++ (b',' ∷ d ∷ [])) e he ∙ apart)

-- The star takes all digits before a character that is none.
star_match-run :
    (next : Next) (previous : Option ℕ) (cs : Bytes) (c : ℕ) (rest : Bytes) (groups : Captures)
    (m : Match)
    → Digits cs
    → is_digit c ≡ false
    → ((p : Option ℕ) → next p (c ∷ rest) groups ≡ some m)
    → star_match is_digit next previous (cs ++ (c ∷ rest)) groups ≡ some m
unfolding star_match
star_match-run next previous [] c rest groups m h stop found =
    rw (stop, star_match) (found previous)
star_match-run next previous (d ∷ cs) c rest groups m (hd, h) stop found =
    let others = star_match-run next (some d) cs c rest groups m h stop found in
    rw ((unsigned d hd).2, star_match)
      (ap (λ o. or_else o (next previous (d ∷ (cs ++ (c ∷ rest))) groups)) others)

-- What is behind the sign.
abbrev behind_sign : Next
behind_sign =
    matches (seq (literal (codes ",")) (seq digit digit)) (λ _ rest groups. if_ended rest groups)

behind_sign-ending :
    (p : Option ℕ) (d e : ℕ) → IsDigit d → IsDigit e → behind_sign p (ending d e) [] ≡ some ([], [])
unfolding matches literal
behind_sign-ending p d e hd he = rw ((unsigned d hd).2, (unsigned e he).2) refl

re_fullmatch-unsigned :
    (c : ℕ) (cs : Bytes) (d e : ℕ)
    → IsDigit c
    → Digits cs
    → IsDigit d
    → IsDigit e
    → re_fullmatch amount_re (c ∷ (cs ++ ending d e)) ≡ some ([], [])
unfolding re_fullmatch matches amount_re
re_fullmatch-unsigned c cs d e hc hs hd he =
    let run =
      star_match-run behind_sign (some c) cs b',' (d ∷ e ∷ []) [] ([], []) hs refl
        (λ p. behind_sign-ending p d e hd he) in
    rw ((unsigned c hc).0, (unsigned c hc).2) run

re_fullmatch-negative :
    (c : ℕ) (cs : Bytes) (d e : ℕ)
    → IsDigit c
    → Digits cs
    → IsDigit d
    → IsDigit e
    → re_fullmatch amount_re (b'-' ∷ c ∷ (cs ++ ending d e)) ≡ some ([], [])
unfolding re_fullmatch matches amount_re
re_fullmatch-negative c cs d e hc hs hd he =
    let run =
      star_match-run behind_sign (some c) cs b',' (d ∷ e ∷ []) [] ([], []) hs refl
        (λ p. behind_sign-ending p d e hd he) in
    rw ((unsigned c hc).2, run) refl

split_comma-amount :
    (cs : Bytes) (d e : ℕ) → Digits cs → split_comma (cs ++ ending d e) ≡ (cs, d ∷ e ∷ [])
unfolding split_comma
split_comma-amount [] d e h = refl
split_comma-amount (c ∷ cs) d e (hc, h) =
    rw (plain c hc).2 (ap (λ (p : Bytes × Bytes). (c ∷ p.0, p.1)) (split_comma-amount cs d e h))

-- The cents of digits, a comma and two digits.
abbrev cents_of : Bytes → ℕ → ℕ → ℕ
cents_of cs d e = value 0 cs * 100 + value 0 (d ∷ e ∷ [])

amount_of-unsigned :
    (c : ℕ) (cs : Bytes) (d e : ℕ)
    → IsDigit c
    → Digits cs
    → amount_of (c ∷ (cs ++ ending d e)) ≡ pos (cents_of (c ∷ cs) d e)
unfolding amount_of strip_signs starts_with
amount_of-unsigned c cs d e hc hs =
    rw ((unsigned c hc).0, (unsigned c hc).1)
      (ap (λ (p : Bytes × Bytes). pos (value 0 p.0 * 100 + value 0 p.1))
        (split_comma-amount (c ∷ cs) d e (hc, hs)))

amount_of-negative :
    (c : ℕ) (cs : Bytes) (d e : ℕ)
    → IsDigit c
    → Digits cs
    → amount_of (b'-' ∷ c ∷ (cs ++ ending d e)) ≡ neg (cents_of (c ∷ cs) d e)
unfolding amount_of strip_signs starts_with
amount_of-negative c cs d e hc hs = rw (unsigned c hc).0 (
    ap (λ (p : Bytes × Bytes). neg (value 0 p.0 * 100 + value 0 p.1))
      (split_comma-amount (c ∷ cs) d e (hc, hs)))

parse-matched :
    (text : Bytes) (m : Match)
    → strip text ≡ text
    → without_dots text ≡ text
    → re_fullmatch amount_re text ≡ some m
    → parse_printed_amount text ≡ some (amount_of text)
unfolding parse_printed_amount parse_candidate
parse-matched text m stripped plain_text found =
    ap (λ t. parse_candidate (without_dots t)) stripped
    ∙ ap parse_candidate plain_text
    ∙ rw (found, parse_candidate) refl

-- What is read from digits, a comma and two digits, without a sign and with one.
parse-unsigned :
    (cs : Bytes) (d e : ℕ)
    → IsCons cs
    → Digits cs
    → IsDigit d
    → IsDigit e
    → parse_printed_amount (cs ++ ending d e) ≡ some (pos (cents_of cs d e))
parse-unsigned [] d e n h hd he = absurd n
parse-unsigned (c ∷ cs) d e n (hc, hs) hd he =
    parse-matched (c ∷ (cs ++ ending d e)) ([], []) (strip-amount c cs d e (plain c hc).0 he)
      (without_dots-amount (c ∷ cs) d e (hc, hs) hd he) (re_fullmatch-unsigned c cs d e hc hs hd he)
    ∙ (ap some (amount_of-unsigned c cs d e hc hs))

without_dots-negative :
    (cs : Bytes) (d e : ℕ)
    → Digits cs
    → IsDigit d
    → IsDigit e
    → without_dots (b'-' ∷ (cs ++ ending d e)) ≡ b'-' ∷ (cs ++ ending d e)
unfolding without_dots
without_dots-negative cs d e h hd he = ap (λ l. b'-' ∷ l) (without_dots-amount cs d e h hd he)

parse-negative :
    (cs : Bytes) (d e : ℕ)
    → IsCons cs
    → Digits cs
    → IsDigit d
    → IsDigit e
    → parse_printed_amount (b'-' ∷ (cs ++ ending d e)) ≡ some (neg (cents_of cs d e))
parse-negative [] d e n h hd he = absurd n
parse-negative (c ∷ cs) d e n (hc, hs) hd he =
    parse-matched (b'-' ∷ c ∷ (cs ++ ending d e)) ([], []) (strip-amount b'-' (c ∷ cs) d e refl he)
      (without_dots-negative (c ∷ cs) d e (hc, hs) hd he)
      (re_fullmatch-negative c cs d e hc hs hd he)
    ∙ (ap some (amount_of-negative c cs d e hc hs))

cents_of-decimal : (n : ℕ) → cents_of (decimal (n / 100)) (48 + n % 100 / 10) (48 + n % 10) ≡ n
unfolding decimal value
cents_of-decimal n =
    let whole = value-digits (suc (n / 100)) (n / 100) [] (omega arith) in omega (arith, whole)

-- Every amount in cents is read back from its print, the sign and the leading zeros included.
pub parse_printed_amount-format_cents :
    (cents : ℤ) → parse_printed_amount (format_cents cents) ≡ some cents
unfolding format_cents decimal
parse_printed_amount-format_cents (pos n) =
    parse-unsigned (decimal (n / 100)) (48 + n % 100 / 10) (48 + n % 10) (decimal-IsCons (n / 100))
      (digits-Digits (suc (n / 100)) (n / 100) [] tt) (omega arith) (omega arith)
    ∙ ap (λ k. some (pos k)) (cents_of-decimal n)
parse_printed_amount-format_cents (negsuc m) =
    let n = suc m in
    parse-negative (decimal (n / 100)) (48 + n % 100 / 10) (48 + n % 10) (decimal-IsCons (n / 100))
      (digits-Digits (suc (n / 100)) (n / 100) [] tt) (omega arith) (omega arith)
    ∙ ap (λ k. some (neg k)) (cents_of-decimal n)
