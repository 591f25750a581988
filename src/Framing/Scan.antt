-- ===== src/Framing/Scan.antt =====
-- src/commercialrchproxy/rch/framing.py: the reads of `_process` on the buffered bytes
-- (`_buffer[_cursor:]`), and the branch of its loop that they choose.
use commercial_rchproxy.Common.{
  ℕ, suc, ◌+◌, ◌-◌, ◌*◌, max, Bool, false, not, ◌&&◌, ◌||◌, Option, none, some, [], ◌∷◌, Bytes,
  length, get_or, drop, slice, all, ltb, leb, ◌==◌, if◌then◌else◌,
}
use commercial_rchproxy.Framing.Types.{stx, etx, ack_byte, frame_overhead}

abbrev pub is_control : ℕ → Bool
is_control b = b == stx || b == ack_byte

abbrev pub is_digit : ℕ → Bool
is_digit b = leb b'0' b && leb b b'9'

-- `bytes.isdigit()`
abbrev pub isdigit : Bytes → Bool
isdigit [] = false
isdigit (b ∷ bs) = all is_digit (b ∷ bs)

-- `int(length_bytes)`, on ASCII digits
unfoldable pub int_from : ℕ → Bytes → ℕ
int_from n [] = n
int_from n (b ∷ bs) = int_from (n * 10 + (b - 48)) bs

unfoldable pub int : Bytes → ℕ
unfolding int_from
int = int_from 0

-- The first control byte, with `relative` the position of the head.
unfoldable pub find_control : ℕ → Bytes → Option ℕ
find_control relative [] = none
find_control relative (b ∷ bs) =
    if is_control b then some relative else find_control (suc relative) bs

unfoldable pub next_control : ℕ → Bytes → Option ℕ
unfolding find_control
next_control start buffered = find_control start (drop start buffered)

-- `_PLAUSIBLE_CONTROL_RE` matches at the head: ACK, or STX and five digits.
unfoldable pub is_plausible : Bytes → Bool
is_plausible [] = false
is_plausible (b ∷ bs) = b == ack_byte || b == stx && leb 5 (length bs) && isdigit (slice bs 0 5)

unfoldable pub find_plausible : ℕ → Bytes → Option ℕ
unfolding is_plausible
find_plausible relative [] = none
find_plausible relative (b ∷ bs) =
    if is_plausible (b ∷ bs) then some relative else find_plausible (suc relative) bs

-- `rfind` of STX: the last place.
unfoldable pub last_stx : ℕ → Bytes → Option ℕ
last_stx relative [] = none
last_stx relative (b ∷ bs) = elim (last_stx (suc relative) bs) [
  | some later ↦ some later
  | none ↦ if b == stx then some relative else none
]

unfoldable pub partial_stx : ℕ → Bytes → Option ℕ
unfolding last_stx
partial_stx start buffered =
    let tail_start = max start (length buffered - 5) in
    last_stx tail_start (drop tail_start buffered)

unfoldable pub next_plausible_control : ℕ → Bytes → Option ℕ
unfolding find_plausible partial_stx
next_plausible_control start buffered = elim (find_plausible start (drop start buffered)) [
  | some relative ↦ some relative
  | none ↦ partial_stx start buffered
]

-- The bytes that `_reject_candidate` gives up: up to the next candidate, or all.
unfoldable pub rejected_count : Option ℕ → Bytes → ℕ
rejected_count none buffered = length buffered
rejected_count (some relative) buffered = relative

-- What one round of the loop of `_process` does; a count is the number of bytes given up.
pub data Action : Type 0 where
  ack : Action
  unframed : ℕ → Action
  wait : Action
  truncated_header : Action
  malformed : ℕ → Action
  oversize : ℕ → ℕ → Action
  truncated : ℕ → Action
  unterminated : ℕ → ℕ → Action
  frame : ℕ → Action

-- The tests on a candidate whose declared length is accepted.
unfoldable pub decide_frame : Bool → Bytes → ℕ → Action
decide_frame final buffered data_length =
    let expected_size = data_length + frame_overhead in
    if ltb (length buffered) expected_size
    then if final then truncated expected_size else wait
    else if not (get_or buffered (data_length + 10) 0 == etx)
    then unterminated expected_size (rejected_count (next_control 1 buffered) buffered)
    else frame data_length

-- The tests on a candidate with its six header bytes.
unfoldable pub decide_header : Bool → ℕ → Bytes → Action
decide_header final max_data_length buffered =
    if not (isdigit (slice buffered 1 3) && isdigit (slice buffered 3 6))
    then malformed (rejected_count (next_plausible_control 1 buffered) buffered)
    else let data_length = int (slice buffered 3 6) in
      if ltb max_data_length data_length
      then oversize data_length (rejected_count (next_control 1 buffered) buffered)
      else decide_frame final buffered data_length

-- The branch taken on the buffered bytes, which are not empty.
unfoldable pub decide : Bool → ℕ → Bytes → Action
decide final max_data_length [] = wait
decide final max_data_length (first ∷ rest) =
    if first == ack_byte
    then ack
    else if not (first == stx)
    then unframed (rejected_count (next_control 1 (first ∷ rest)) (first ∷ rest))
    else if ltb (length (first ∷ rest)) 6
    then if final then truncated_header else wait
    else decide_header final max_data_length (first ∷ rest)
