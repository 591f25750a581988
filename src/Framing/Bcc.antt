-- ===== src/Framing/Bcc.antt =====
-- src/commercialrchproxy/rch/framing.py: `calculate_bcc`, the BCC field, and `build_frame`.
use commercial_rchproxy.Common.{
  ℕ, ◌+◌, ◌-◌, ◌/◌, ◌%◌, bit_xor, Bool, not, ◌&&◌, ◌||◌, [], ◌∷◌, ◌++◌, map, Bytes, length, all,
  ltb, leb, ◌==◌, if◌then◌else◌,
}
use commercial_rchproxy.Framing.Types.{stx, etx}
use commercial_rchproxy.Framing.Scan.{isdigit}

unfoldable pub xor_from : ℕ → Bytes → ℕ
xor_from value [] = value
xor_from value (byte ∷ bytes) = xor_from (bit_xor value byte) bytes

unfoldable pub calculate_bcc : Bytes → ℕ
unfolding xor_from
calculate_bcc = xor_from 0

-- A digit of `:02X`.
abbrev pub hex_digit : ℕ → ℕ
hex_digit n = if ltb n 10 then n + b'0' else n + 55

-- `f"{value:02X}"`, on a byte
abbrev pub hex_byte : ℕ → Bytes
hex_byte value = hex_digit (value / 16) ∷ hex_digit (value % 16) ∷ []

-- `_HEX_DIGITS`
abbrev pub is_hex : ℕ → Bool
is_hex b = leb b'0' b && leb b b'9' || leb b'a' b && leb b b'f' || leb b'A' b && leb b b'F'

-- `bytes.decode("ascii", errors="replace")`, to code points
abbrev pub decode_ascii : Bytes → Bytes
decode_ascii = map (λ b. if ltb b 128 then b else 0xfffd)

-- `str.upper()`, on the code points that `decode_ascii` gives
abbrev pub upper : Bytes → Bytes
upper = map (λ c. if leb b'a' c && leb c b'z' then c - 32 else c)

unfoldable pub bytes_eq : Bytes → Bytes → Bool
bytes_eq [] [] = Bool.true
bytes_eq (x ∷ xs) (y ∷ ys) = x == y && bytes_eq xs ys
bytes_eq _ _ = Bool.false

abbrev pub bcc_syntax_valid : Bytes → Bool
bcc_syntax_valid bcc_bytes = length bcc_bytes == 2 && all is_hex bcc_bytes

-- `bcc_valid`: the received field, and the value calculated from the frame.
unfoldable pub bcc_matches : Bytes → ℕ → Bool
unfolding bytes_eq
bcc_matches bcc_bytes bcc_value =
    bcc_syntax_valid bcc_bytes && bytes_eq (upper (decode_ascii bcc_bytes)) (hex_byte bcc_value)

pub data BuildError : Type 0 where
  bad_address bad_class bad_sequence data_too_long : BuildError

pub data BuildResult : Type 0 where
  built : Bytes → BuildResult
  refused : BuildError → BuildResult

-- `f"{length:03d}"`, below 1000
abbrev pub decimal3 : ℕ → Bytes
decimal3 n = (n / 100 + b'0') ∷ (n / 10 % 10 + b'0') ∷ (n % 10 + b'0') ∷ []

unfoldable pub frame_prefix : Bytes → Bytes → Bytes → Bytes → Bytes
frame_prefix payload address frame_class sequence =
    stx ∷ (address ++ (decimal3 (length payload) ++ (frame_class ++ (payload ++ sequence))))

-- The encoded arguments are bytes here.
unfoldable pub build_frame : Bytes → Bytes → Bytes → Bytes → BuildResult
build_frame payload address frame_class sequence =
    if not (length address == 2) || not (isdigit address)
    then refused bad_address
    else if not (length frame_class == 1)
    then refused bad_class
    else if not (length sequence == 1)
    then refused bad_sequence
    else if ltb 999 (length payload)
    then refused data_too_long
    else let prefix = frame_prefix payload address frame_class sequence in
      built (prefix ++ (hex_byte (calculate_bcc prefix) ++ (etx ∷ [])))
