-- ===== src/Framing/RoundTrip.antt =====
-- `build_frame` and `_process` of src/commercialrchproxy/rch/framing.py: what is built is read back.
use commercial_rchproxy.Common.{
  ℕ, ◌≤◌, ◌<◌, Bool, true, [], ◌∷◌, ◌++◌, ◌≡◌, refl, sym, ap, ◌∙◌, Bytes, length, all, append_assoc,
  arith,
}
use commercial_rchproxy.Framing.Types.{etx, RchFrame}
use commercial_rchproxy.Framing.Bcc.{
  calculate_bcc, hex_byte, frame_prefix, built, build_frame, bcc_matches,
}
use commercial_rchproxy.Framing.Scan.{Action, isdigit, decide}
use commercial_rchproxy.Framing.Framer.{Framer}
use commercial_rchproxy.Framing.Process.{frame_at}
use commercial_rchproxy.Framing.Checksum.{
  is_byte, all_bytes, calculate_bcc-lt, bcc_matches-hex_byte,
}
use commercial_rchproxy.Framing.BuiltStream.{header, stream, decide-stream, frame_at-stream}

-- What `build_frame` accepts, and what it makes.
build_frame-built :
    (payload address frame_class sequence raw : Bytes)
    → build_frame payload address frame_class sequence ≡ built raw
    → (length address ≡ 2)
      × (isdigit address ≡ true)
      × (length frame_class ≡ 1)
      × (length sequence ≡ 1)
      × (length payload ≤ 999)
      × (raw
          ≡ frame_prefix payload address frame_class sequence
            ++ (hex_byte (calculate_bcc (frame_prefix payload address frame_class sequence))
                ++ (etx ∷ [])))
unfolding build_frame
build_frame-built payload address frame_class sequence raw h = ground arith

one_byte : (l : Bytes) → length l ≡ 1 → (x : ℕ) × (l ≡ x ∷ [])
one_byte [] h = absurd (omega arith)
one_byte (x ∷ []) h = (x, refl)
one_byte (x ∷ y ∷ l) h = absurd (omega arith)

two_bytes : (l : Bytes) → length l ≡ 2 → (x y : ℕ) × (l ≡ x ∷ y ∷ [])
two_bytes [] h = absurd (omega arith)
two_bytes (x ∷ []) h = absurd (omega arith)
two_bytes (x ∷ y ∷ []) h = (x, y, refl)
two_bytes (x ∷ y ∷ z ∷ l) h = absurd (omega arith)

-- What the framer makes of the frame `raw` at the head of its buffered bytes, and of the fields
-- that it was built from.
pub record ReadsBack (payload address frame_class sequence raw : Bytes) (r : RchFrame)
    : Type 0 where
  pub raw_same : r.raw ≡ raw
  pub address_same : r.address ≡ address
  pub class_same : r.frame_class ∷ [] ≡ frame_class
  pub payload_same : r.payload ≡ payload
  pub sequence_same : r.sequence ∷ [] ≡ sequence
  pub valid : r.bcc_valid ≡ true

byte_of : (x : ℕ) → all is_byte (x ∷ []) ≡ true → x < 256
byte_of x h = ground arith

prefix_bytes :
    (payload : Bytes) (a0 a1 c s : ℕ)
    → isdigit (a0 ∷ a1 ∷ []) ≡ true
    → length payload < 1000
    → c < 256
    → s < 256
    → all is_byte payload ≡ true
    → all is_byte (frame_prefix payload (a0 ∷ a1 ∷ []) (c ∷ []) (s ∷ [])) ≡ true
unfolding frame_prefix
prefix_bytes payload a0 a1 c s d small hc hs hp = ground (arith, all_bytes payload s [] hp refl hs)

module _ (payload : Bytes) (a0 a1 c s : ℕ) (rest : Bytes) where
  abbrev made_prefix : Bytes
  made_prefix = frame_prefix payload (a0 ∷ a1 ∷ []) (c ∷ []) (s ∷ [])

  abbrev made : Bytes
  made = made_prefix ++ (hex_byte (calculate_bcc made_prefix) ++ (etx ∷ []))

  abbrev made_stream : Bytes
  made_stream = stream a0 a1 c s (calculate_bcc made_prefix) payload rest

  made-append : made ++ rest ≡ made_stream
  unfolding frame_prefix
  made-append = simp append_assoc

  prefix_same : header a0 a1 c s 0 payload rest ++ (payload ++ (s ∷ [])) ≡ made_prefix
  unfolding frame_prefix
  prefix_same = refl

  made-raw :
      made
      ≡ header a0 a1 c s (calculate_bcc made_prefix) payload rest
        ++ (payload ++ (s ∷ (hex_byte (calculate_bcc made_prefix) ++ (etx ∷ []))))
  unfolding frame_prefix
  made-raw = simp append_assoc

  made-ReadsBack :
      (f : Framer)
      → calculate_bcc made_prefix < 256
      → ReadsBack payload
          (a0 ∷ a1 ∷ [])
          (c ∷ [])
          (s ∷ [])
          made
          (frame_at f made_stream (length payload))
  made-ReadsBack f small =
      let (raw, address, class, pay, seq, valid) =
        frame_at-stream a0 a1 c s (calculate_bcc made_prefix) payload rest f in
      record {
        raw_same = raw ∙ sym made-raw;
        address_same = address;
        class_same = ap (λ x. x ∷ []) class;
        payload_same = pay;
        sequence_same = ap (λ x. x ∷ []) seq;
        valid =
            valid
            ∙ ap (λ w. bcc_matches (hex_byte (calculate_bcc made_prefix)) (calculate_bcc w))
                prefix_same
            ∙ bcc_matches-hex_byte (calculate_bcc made_prefix) small;
      }

-- A frame that `build_frame` makes from bytes, if its data is no longer than the framer's limit, is
-- recognised as a whole frame whatever follows it, and read back with its fields and a valid BCC.
pub frame_at-build_frame :
    (f : Framer) (final : Bool) (m : ℕ) (payload address frame_class sequence raw rest : Bytes)
    → build_frame payload address frame_class sequence ≡ built raw
    → all is_byte payload ≡ true
    → all is_byte frame_class ≡ true
    → all is_byte sequence ≡ true
    → length payload ≤ m
    → (decide final m (raw ++ rest) ≡ Action.frame (length payload))
      × ReadsBack payload address frame_class sequence raw
          (frame_at f (raw ++ rest) (length payload))
frame_at-build_frame f final m payload address frame_class sequence raw rest b hp hc hs fits =
    let (la, digits, lc, ls, small, is_made) =
      build_frame-built payload address frame_class sequence raw b in
    let (a0, a1, ea) = two_bytes address la in
    let (c, ec) = one_byte frame_class lc in
    let (s, es) = one_byte sequence ls in
    let hc' : c < 256 = byte_of c (rw ec at hc) in
    let hs' : s < 256 = byte_of s (rw es at hs) in
    let d : isdigit (a0 ∷ a1 ∷ []) ≡ true = rw ea at digits in
    let bcc =
      calculate_bcc-lt _ (prefix_bytes payload a0 a1 c s d (omega (arith, small)) hc' hs' hp) in
    rw (is_made, ea, ec, es)
      (rw (made-append payload a0 a1 c s rest) (
        decide-stream a0 a1 c s _ payload rest final m d fits (omega (arith, small)),
        made-ReadsBack payload a0 a1 c s rest f bcc,
      ))
