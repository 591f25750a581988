-- ===== src/Framing/BuiltStream.antt =====
-- A stream that starts with a frame of `build_frame` (src/commercialrchproxy/rch/framing.py), with its
-- fields written out: how `_process` reads it.
use commercial_rchproxy.Common.{
  ℕ, ◌+◌, ◌-◌, ◌/◌, ◌%◌, ◌≤◌, ◌<◌, Bool, true, [], ◌∷◌, ◌++◌, ◌≡◌, refl, ap, ◌∙◌, Bytes, length,
  get_or, take, drop, slice, length-append, get_or-append_right, take-append_right,
  drop-append_right, append-nil, arith, le→ltb,
}
use commercial_rchproxy.Framing.Types.{stx, etx, frame_overhead}
use commercial_rchproxy.Framing.Bcc.{calculate_bcc, hex_byte, decimal3, bcc_matches}
use commercial_rchproxy.Framing.Scan.{Action, isdigit, int, decide, decide_header, decide_frame}
use commercial_rchproxy.Framing.Framer.{Framer}
use commercial_rchproxy.Framing.Process.{frame_at}

decimal3-isdigit : (n : ℕ) → n < 1000 → isdigit (decimal3 n) ≡ true
decimal3-isdigit n h = ground arith

int-decimal3 : (n : ℕ) → n < 1000 → int (decimal3 n) ≡ n
unfolding int
int-decimal3 n h = omega arith

-- The bytes of a frame with others behind it: seven bytes of header, the data, and the tail.
module _ (a0 a1 c s v : ℕ) (payload rest : Bytes) where
  abbrev pub header : Bytes
  header =
      stx
      ∷ a0
      ∷ a1
      ∷ (length payload / 100 + b'0')
      ∷ (length payload / 10 % 10 + b'0')
      ∷ (length payload % 10 + b'0')
      ∷ c
      ∷ []

  abbrev pub tail : Bytes
  tail = s ∷ (hex_byte v ++ (etx ∷ rest))

  abbrev pub stream : Bytes
  stream = header ++ (payload ++ tail)

  abbrev pub n : ℕ
  n = length payload

  stream-length : n + frame_overhead ≤ length stream
  stream-length = omega (arith, length-append payload tail)

  stream-etx : get_or stream (n + 10) 0 ≡ etx
  stream-etx =
      ap (λ k. get_or stream k 0) {y = 7 + (n + 3)} (omega arith)
      ∙ get_or-append_right header (payload ++ tail) (n + 3) 0
      ∙ get_or-append_right payload tail 3 0

  decide_frame-stream : (final : Bool) → decide_frame final stream n ≡ Action.frame n
  unfolding decide_frame
  decide_frame-stream final =
      rw (le→ltb (length stream) (n + frame_overhead) stream-length) (rw stream-etx refl)

  decide_header-stream :
      (final : Bool) (m : ℕ)
      → isdigit (a0 ∷ a1 ∷ []) ≡ true
      → n ≤ m
      → n < 1000
      → decide_header final m stream ≡ Action.frame n
  unfolding decide_header
  decide_header-stream final m digits fits small =
      rw (digits, decide_header)
        (rw (decimal3-isdigit n small, decide_header)
          (rw (int-decimal3 n small, decide_header)
            (rw (le→ltb m n fits) (decide_frame-stream final))))

  pub decide-stream :
      (final : Bool) (m : ℕ)
      → isdigit (a0 ∷ a1 ∷ []) ≡ true
      → n ≤ m
      → n < 1000
      → decide final m stream ≡ Action.frame n
  unfolding decide
  decide-stream final m digits fits small =
      rw (le→ltb (length stream) 6 (omega arith)) (decide_header-stream final m digits fits small)

  body-take : (k : ℕ) → take (n + 7 + k) stream ≡ header ++ (payload ++ take k tail)
  body-take k =
      ap (λ j. take j stream) {y = 7 + (n + k)} (omega arith)
      ∙ take-append_right header (payload ++ tail) (n + k)
      ∙ ap (λ l. header ++ l) (take-append_right payload tail k)

  body-drop : (k : ℕ) → drop (n + 7 + k) stream ≡ drop k tail
  body-drop k =
      ap (λ j. drop j stream) {y = 7 + (n + k)} (omega arith)
      ∙ drop-append_right header (payload ++ tail) (n + k)
      ∙ drop-append_right payload tail k

  pub frame_at-stream :
      (f : Framer)
      → ((frame_at f stream n).raw ≡ header ++ (payload ++ (s ∷ (hex_byte v ++ (etx ∷ [])))))
        × ((frame_at f stream n).address ≡ a0 ∷ a1 ∷ [])
        × ((frame_at f stream n).frame_class ≡ c)
        × ((frame_at f stream n).payload ≡ payload)
        × ((frame_at f stream n).sequence ≡ s)
        × ((frame_at f stream n).bcc_valid
            ≡ bcc_matches (hex_byte v) (calculate_bcc (header ++ (payload ++ (s ∷ [])))))
  unfolding frame_at
  frame_at-stream f =
      let whole = ap (λ j. take j stream) {x = n + frame_overhead} (omega arith) ∙ body-take 4 in
      let prefix =
        ap (λ j. take j stream) {x = n + frame_overhead - 3} (omega arith) ∙ body-take 1 in
      let start = n + frame_overhead - 3 in
      let field : slice stream start (start + 2) ≡ hex_byte v =
        ap (λ j. take j (drop start stream)) {y = 2} (omega arith)
        ∙ ap (take 2) (ap (λ j. drop j stream) {x = start} (omega arith) ∙ body-drop 1) in
      (
        whole,
        refl,
        refl,
        ap (λ w. slice w 7 (7 + n)) whole
            ∙ ap (λ k. take k (payload ++ take 4 tail)) {x = 7 + n - 7} {y = n + 0} (omega arith)
            ∙ take-append_right payload (take 4 tail) 0
            ∙ append-nil payload,
        ap (λ k. get_or stream k 0) {y = 7 + (n + 0)} (omega arith)
            ∙ get_or-append_right header (payload ++ tail) (n + 0) 0
            ∙ get_or-append_right payload tail 0 0,
        ap (λ w. bcc_matches w (calculate_bcc (take start stream))) field
            ∙ ap (λ w. bcc_matches (hex_byte v) (calculate_bcc w)) prefix,
      )
