-- ===== src/Receipt/Patterns.antt =====
-- The patterns of src/commercialrchproxy/rch/receipt_parser.py, and the numbers in what they match.
use commercial_rchproxy.Common.{
  ℕ, ◌+◌, ◌-◌, ◌*◌, Bool, not, ◌||◌, [], ◌∷◌, Bytes, ℤ, pos, neg, codes, is_digit, is_space, is_dot,
  ◌==◌, leb, ◌&&◌, if◌then◌else◌,
}
use commercial_rchproxy.Regex.{
  Regex, one, seq, alt, opt, star, lazy_star, many, group, at_end, word_boundary, not_after_digit,
  not_before_digit, plus, literal,
}

-- The names of the groups.
abbrev pub text_group : ℕ
text_group = 0

abbrev pub style_group : ℕ
style_group = 1

abbrev pub code_group : ℕ
code_group = 2

abbrev pub amount_group : ℕ
amount_group = 3

abbrev pub quantity_group : ℕ
quantity_group = 4

abbrev pub description_group : ℕ
description_group = 5

abbrev pub line_group : ℕ
line_group = 6

abbrev pub counter_group : ℕ
counter_group = 7

abbrev pub value_group : ℕ
value_group = 8

abbrev pub tax_class_group : ℕ
tax_class_group = 9

abbrev pub date_group : ℕ
date_group = 10

abbrev pub time_group : ℕ
time_group = 11

abbrev pub number_group : ℕ
number_group = 12

abbrev pub digit : Regex
digit = one is_digit

-- `[^/]`
abbrev pub not_slash : ℕ → Bool
not_slash c = not (c == b'/')

-- `[+-]?`
abbrev pub sign : Regex
sign = opt (one (λ c. c == b'+' || c == b'-'))

-- `[+-]?\d+`
abbrev pub signed_digits : Regex
signed_digits = seq sign (plus is_digit)

-- `(?:/\*(?P<style>\d+))?$`
abbrev pub style_end : Regex
unfolding literal
style_end = seq (opt (seq (literal (codes "/*")) (group style_group (plus is_digit)))) at_end

-- `_MANAGEMENT_LINE_RE`
unfoldable pub management_line_re : Regex
unfolding literal
management_line_re =
    seq (literal (codes "=\"/("))
      (seq (group text_group (star is_dot)) (seq (literal (codes ")")) style_end))

-- `_COMMERCIAL_TEXT_RE`
unfoldable pub commercial_text_re : Regex
unfolding literal
commercial_text_re =
    seq (literal (codes "=\"/?A/("))
      (seq (group text_group (star is_dot)) (seq (literal (codes ")")) style_end))

-- `_COMMERCIAL_ITEM_RE`
unfoldable pub commercial_item_re : Regex
unfolding literal
commercial_item_re = seq (literal (codes "=R")) (
    seq (group code_group (plus not_slash)) (
      seq (literal (codes "/$")) (
        seq (group amount_group signed_digits) (
          seq (opt (seq (literal (codes "/*")) (group quantity_group signed_digits))) (
            seq (literal (codes "/("))
              (seq (group description_group (star is_dot)) (seq (literal (codes ")")) at_end)))))))

-- `_COMMERCIAL_TOTAL_RE`
unfoldable pub commercial_total_re : Regex
unfolding literal
commercial_total_re = seq (literal (codes "=T")) (
    seq (group code_group (plus not_slash))
      (seq (literal (codes "/$")) (seq (group amount_group signed_digits) at_end)))

-- `_DISPLAY_RE`
unfoldable pub display_re : Regex
unfolding literal
display_re = seq (literal (codes "=D")) (
    seq (group line_group (plus is_digit)) (
      seq (literal (codes "/("))
        (seq (group text_group (star is_dot)) (seq (literal (codes ")")) at_end))))

-- `_RESPONSE_COUNTER_RE`
unfoldable pub response_counter_re : Regex
unfolding literal
response_counter_re = seq (literal (codes "s")) (
    seq digit (
      seq digit (
        seq digit (
          seq digit (
            seq digit (
              seq digit (
                seq (literal (codes "RE")) (
                  seq (group counter_group (seq digit (seq digit (seq digit digit)))) at_end))))))))

-- `<</\?\d`
unfoldable pub closing_control_re : Regex
unfolding literal
closing_control_re = seq (literal (codes "<</?")) digit

-- A literal text of ASCII letters in either case; the pattern is given in small letters.
unfoldable pub literal_any_case : Bytes → Regex
literal_any_case [] = Regex.empty
literal_any_case (c ∷ cs) = seq (one (λ d. d == c || d == c - 32)) (literal_any_case cs)

-- `_ORDER_RE`
unfoldable pub order_re : Regex
unfolding literal literal_any_case
order_re = seq (star is_space) (
    seq (alt (literal_any_case (codes "ordine")) (literal_any_case (codes "order"))) (
      seq (star is_space) (
        seq (literal (codes ":")) (
          seq (star is_space)
            (seq (group value_group (lazy_star is_dot)) (seq (star is_space) at_end))))))

-- `[+-]?\d{1,3}(?:\.\d{3})*,\d{2}`
unfoldable pub printed_number : Regex
unfolding literal
printed_number = seq sign (
    seq digit (
      seq (opt (seq digit (opt digit))) (
        seq (many (seq (literal (codes ".")) (seq digit (seq digit digit))))
          (seq (literal (codes ",")) (seq digit digit)))))

-- `_PRINTED_AMOUNT_RE`
unfoldable pub printed_amount_re : Regex
unfolding printed_number
printed_amount_re = seq not_after_digit (seq (group amount_group printed_number) not_before_digit)

-- `_PRINTED_ITEM_RE`
unfoldable pub printed_item_re : Regex
unfolding printed_number
printed_item_re =
    seq (group description_group (seq (lazy_star is_dot) (one (λ c. not (is_space c))))) (
      seq (plus is_space) (
        seq (group amount_group printed_number) (
          seq
            (opt
              (seq (plus is_space) (group tax_class_group (one (λ c. leb b'A' c && leb c b'Z')))))
            (seq (star is_space) at_end))))

-- `[\\/-]`
abbrev pub date_mark : Regex
date_mark = one (λ c. c == 92 || c == b'/' || c == b'-')

two_digits : Regex
two_digits = seq digit digit

-- `\d{2}[\\/-]\d{2}[\\/-]\d{2,4}`
date_text : Regex
unfolding two_digits
date_text = group date_group (
    seq two_digits (
      seq date_mark
        (seq two_digits (seq date_mark (seq two_digits (opt (seq digit (opt digit))))))))

-- `\d{2}:\d{2}`
time_text : Regex
unfolding literal two_digits
time_text = group time_group (seq two_digits (seq (literal (codes ":")) two_digits))

-- `_REFERENCE_RE`
unfoldable pub reference_re : Regex
unfolding literal literal_any_case date_text time_text
reference_re = seq date_text (
    seq (plus is_space) (
      seq time_text (
        seq (lazy_star is_dot) (
          seq word_boundary (
            seq (literal_any_case (codes "n")) (
              seq (literal (codes ".")) (
                seq (star is_space)
                  (group number_group (plus (λ c. is_digit c || c == b'-'))))))))))

-- The number that digits spell behind `n`.
unfoldable pub value : ℕ → Bytes → ℕ
value n [] = n
value n (c ∷ cs) = value (n * 10 + (c - b'0')) cs

-- `int(text)`, of a text that `[+-]?\d+` matches
unfoldable pub int_of : Bytes → ℤ
unfolding value
int_of [] = pos 0
int_of (c ∷ cs) =
    if c == b'-'
    then neg (value 0 cs)
    else if c == b'+'
    then pos (value 0 cs)
    else pos (value 0 (c ∷ cs))
