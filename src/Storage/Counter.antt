-- ===== src/Storage/Counter.antt =====
-- src/commercialrchproxy/storage/counter.py: `JobCodeAllocator`, with the file `next-code` as a value.
use commercial_rchproxy.Common.{
  ℕ, zero, suc, ◌+◌, ◌-◌, Bool, true, false, not, ◌&&◌, ◌||◌, Option, none, some, List, [], ◌∷◌,
  ◌++◌, Bytes, length, codes, text_eq, strip, is_digit, ℤ, pos, negsuc, ltb, leb, ◌==◌,
  if◌then◌else◌,
}
use commercial_rchproxy.Receipt.Patterns.{value}
use commercial_rchproxy.Receipt.Amounts.{decimal}

-- A character of `[A-Za-z0-9_.-]`
abbrev pub is_safe : ℕ → Bool
is_safe c =
    is_digit c
    || leb b'A' c && leb c b'Z'
    || leb b'a' c && leb c b'z'
    || c == b'_'
    || c == b'.'
    || c == b'-'

-- `_SAFE_COMPONENT.sub("_", printer_ip)`
unfoldable pub safe_text : Bytes → Bytes
safe_text [] = []
safe_text (c ∷ cs) = (if is_safe c then c else b'_') ∷ safe_text cs

-- `printer_component`; `none` is its `ValueError`
unfoldable pub printer_component : Bytes → Option Bytes
unfolding safe_text text_eq
printer_component printer_ip =
    let made = safe_text printer_ip in
    if leb (length made) 0 || text_eq made (codes ".") || text_eq made (codes "..")
    then none
    else some made

unfoldable pub all_digits : Bytes → Bool
all_digits [] = true
all_digits (c ∷ cs) = is_digit c && all_digits cs

-- `_CODE.fullmatch(value)`
unfoldable pub is_code : Bytes → Bool
unfolding all_digits
is_code text = all_digits text && (leb 4 (length text) && leb (length text) 32)

-- `validate_job_code`, whether it does not raise
unfoldable pub validate_job_code : Bytes → ℕ → Bool
unfolding is_code
validate_job_code text width = is_code text && not (ltb (length text) width)

unfoldable pub zeros : ℕ → Bytes
zeros zero = []
zeros (suc n) = b'0' ∷ zeros n

-- `f"{current:0{width}d}"`
unfoldable pub padded : ℕ → ℕ → Bytes
unfolding zeros
padded width current = zeros (width - length (decimal current)) ++ decimal current

pub record Allocator : Type 0 where
  pub start : ℤ
  pub width : ℕ

pub data CounterFile : Type 0 where
  absent unsafe : CounterFile
  counter_text : Bytes → CounterFile

pub data CounterError : Type 0 where
  unsafe_counter not_ascii corrupt_counter negative_counter invalid_code : CounterError

pub data Allocation : Type 0 where
  allocated : Bytes → Allocation
  refused : CounterError → Allocation

unfoldable pub is_ascii : Bytes → Bool
is_ascii [] = true
is_ascii (c ∷ cs) = ltb c 128 && is_ascii cs

-- `raw.isdecimal()`, of an ASCII text
unfoldable pub is_decimal : Bytes → Bool
unfolding all_digits
is_decimal [] = false
is_decimal (c ∷ cs) = all_digits (c ∷ cs)

-- The code of a number and the counter after it.
unfoldable pub allocate_number : ℕ → ℕ → CounterFile → Allocation × CounterFile
unfolding validate_job_code padded
allocate_number width current file =
    let code = padded width current in
    if validate_job_code code width
    then (allocated code, counter_text (decimal (current + 1) ++ codes "\n"))
    else (refused invalid_code, file)

-- The part of `allocate` under the lock.
unfoldable pub allocate : Allocator → CounterFile → Allocation × CounterFile
unfolding allocate_number is_ascii is_decimal strip value
allocate a absent = elim a.start [
  | pos n ↦ allocate_number a.width n absent
  | negsuc n ↦ (refused negative_counter, absent)
]
allocate a unsafe = (refused unsafe_counter, unsafe)
allocate a (counter_text text) =
    let raw = strip text in
    if is_ascii text
    then (if is_decimal raw
        then allocate_number a.width (value 0 raw) (counter_text text)
        else (refused corrupt_counter, counter_text text))
    else (refused not_ascii, counter_text text)

-- Allocations one after the other, as the lock makes them.
unfoldable pub allocate_times : ℕ → Allocator → CounterFile → List Allocation × CounterFile
unfolding allocate
allocate_times zero a file = ([], file)
allocate_times (suc n) a file =
    let (first, next) = allocate a file in
    let (rest, last) = allocate_times n a next in (first ∷ rest, last)
