-- ===== src/Framing/Checksum.antt =====
-- The XOR checksum of src/commercialrchproxy/rch/framing.py: it is a byte, it is told apart from
-- every other byte by its two hexadecimal digits, and it changes with any byte it covers.
use commercial_rchproxy.Common.{
  ℕ, ◌<◌, ◌/◌, ◌%◌, bit_xor, Bool, true, false, ◌&&◌, [], ◌∷◌, ◌++◌, ◌≡◌, ◌≢◌, ◌↔◌, refl, sym, ap,
  ◌∙◌, inl, inr, Bytes, get_or, all, Bool-cases, ltb, ◌==◌, arith, passes_below, passes_below-lt,
}
use commercial_rchproxy.Framing.Bcc.{
  xor_from, calculate_bcc, hex_digit, hex_byte, decode_ascii, upper, bytes_eq, bcc_matches,
}

abbrev pub is_byte : ℕ → Bool
is_byte b = ltb b 256

-- The sum of two bytes is a byte, and either byte takes it back to the other one.
abbrev xor_entry : ℕ → ℕ → Bool
xor_entry x y = let sum = bit_xor x y in ltb sum 256 && (bit_xor sum y == x && bit_xor x sum == y)

xor_table : passes_below (λ x. passes_below (xor_entry x) 256) 256 ≡ true
unfolding passes_below
xor_table = refl

xor_laws :
    (x y : ℕ)
    → x < 256
    → y < 256
    → (bit_xor x y < 256) × (bit_xor (bit_xor x y) y ≡ x) × (bit_xor x (bit_xor x y) ≡ y)
xor_laws x y hx hy =
    let entry =
      passes_below-lt (xor_entry x) 256
        (passes_below-lt (λ u. passes_below (xor_entry u) 256) 256 xor_table hx) hy in
    ground (arith, entry)

xor_from-lt : (p : Bytes) (v : ℕ) → all is_byte p ≡ true → v < 256 → xor_from v p < 256
unfolding xor_from
xor_from-lt [] v h hv = hv
xor_from-lt (b ∷ p) v h hv =
    xor_from-lt p (bit_xor v b) (ground arith) (xor_laws v b hv (ground arith)).0

pub calculate_bcc-lt : (p : Bytes) → all is_byte p ≡ true → calculate_bcc p < 256
unfolding calculate_bcc
calculate_bcc-lt p h = xor_from-lt p 0 h (omega arith)

and_right : (a b : Bool) → a && b ≡ true → b ≡ true
and_right true b h = h
and_right false b h = cc

-- Two values that the same bytes bring to the same checksum are equal.
xor_from-injective :
    (p : Bytes) (u v : ℕ)
    → all is_byte p ≡ true
    → u < 256
    → v < 256
    → xor_from u p ≡ xor_from v p
    → u ≡ v
unfolding xor_from
xor_from-injective [] u v h hu hv e = e
xor_from-injective (b ∷ p) u v h hu hv e =
    let lu = xor_laws u b hu (ground arith) in
    let lv = xor_laws v b hv (ground arith) in
    let same = xor_from-injective p (bit_xor u b) (bit_xor v b) (ground arith) lu.0 lv.0 e in
    sym lu.1 ∙ ap (λ k. bit_xor k b) same ∙ lv.1

xor_from-append : (p q : Bytes) (v : ℕ) → xor_from v (p ++ q) ≡ xor_from (xor_from v p) q
unfolding xor_from
xor_from-append [] q v = refl
xor_from-append (b ∷ p) q v = xor_from-append p q (bit_xor v b)

calculate_bcc-injective :
    (p q : Bytes) (b c : ℕ)
    → all is_byte p ≡ true
    → all is_byte q ≡ true
    → b < 256
    → c < 256
    → calculate_bcc (p ++ b ∷ q) ≡ calculate_bcc (p ++ c ∷ q)
    → b ≡ c
unfolding calculate_bcc xor_from
calculate_bcc-injective p q b c hp hq hb hc e =
    let v = xor_from 0 p in
    let hv = xor_from-lt p 0 hp (omega arith) in
    let lb = xor_laws v b hv hb in
    let lc = xor_laws v c hv hc in
    let same =
      xor_from-injective q (bit_xor v b) (bit_xor v c) hq lb.0 lc.0
        (sym (xor_from-append p (b ∷ q) 0) ∙ e ∙ xor_from-append p (c ∷ q) 0) in
    sym lb.2 ∙ ap (bit_xor v) same ∙ lc.2

pub bytes_eq_iff : (x y : Bytes) → (bytes_eq x y ≡ true) ↔ (x ≡ y)
unfolding bytes_eq
bytes_eq_iff (a ∷ x) (b ∷ y) = ground (arith, bytes_eq_iff x y)
bytes_eq_iff _ _ = ground arith

hex_digit-injective : (m n : ℕ) → m < 16 → n < 16 → hex_digit m ≡ hex_digit n → m ≡ n
hex_digit-injective m n hm hn e = ground arith

hex_byte-injective : (u v : ℕ) → u < 256 → v < 256 → hex_byte u ≡ hex_byte v → u ≡ v
hex_byte-injective u v hu hv e =
    let high =
      hex_digit-injective (u / 16) (v / 16) (omega arith) (omega arith)
        (ap (λ l. get_or l 0 0) e) in
    let low =
      hex_digit-injective (u % 16) (v % 16) (omega arith) (omega arith)
        (ap (λ l. get_or l 1 0) e) in
    omega (arith, high, low)

bcc_table : passes_below (λ v. bcc_matches (hex_byte v) v) 256 ≡ true
unfolding passes_below bcc_matches
bcc_table = refl

-- The field that `build_frame` writes is accepted.
pub bcc_matches-hex_byte : (v : ℕ) → v < 256 → bcc_matches (hex_byte v) v ≡ true
bcc_matches-hex_byte v h = passes_below-lt (λ u. bcc_matches (hex_byte u) u) 256 bcc_table h

bcc_matches-field :
    (field : Bytes) (v : ℕ) → bcc_matches field v ≡ true → upper (decode_ascii field) ≡ hex_byte v
unfolding bcc_matches
bcc_matches-field field v h =
    (bytes_eq_iff (upper (decode_ascii field)) (hex_byte v)).0 (and_right _ _ h)

pub all_bytes :
    (p : Bytes) (b : ℕ) (q : Bytes)
    → all is_byte p ≡ true
    → all is_byte q ≡ true
    → b < 256
    → all is_byte (p ++ b ∷ q) ≡ true
all_bytes [] b q hp hq hb = ground arith
all_bytes (x ∷ p) b q hp hq hb = ground (arith, all_bytes p b q)

-- A BCC field that a frame passes with is refused when one byte that it covers is another byte.
pub bcc_matches-corrupted :
    (p q field : Bytes) (b c : ℕ)
    → all is_byte p ≡ true
    → all is_byte q ≡ true
    → b < 256
    → c < 256
    → b ≢ c
    → bcc_matches field (calculate_bcc (p ++ b ∷ q)) ≡ true
    → bcc_matches field (calculate_bcc (p ++ c ∷ q)) ≡ false
bcc_matches-corrupted p q field b c hp hq hb hc ne ok =
    let vb = calculate_bcc (p ++ b ∷ q) in
    let vc = calculate_bcc (p ++ c ∷ q) in
    elim (Bool-cases (bcc_matches field vc)) [
      | inr wrong ↦ wrong
      | inl passes ↦ absurd (
          ne (
            calculate_bcc-injective p q b c hp hq hb hc (
              hex_byte-injective vb vc (calculate_bcc-lt (p ++ b ∷ q) (all_bytes p b q hp hq hb))
                (calculate_bcc-lt (p ++ c ∷ q) (all_bytes p c q hp hq hc))
                (sym (bcc_matches-field field vb ok) ∙ bcc_matches-field field vc passes))))
    ]
