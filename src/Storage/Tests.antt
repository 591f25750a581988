-- ===== src/Storage/Tests.antt =====
-- Job codes on concrete counters.
use commercial_rchproxy.Common.{none, some, [], ◌∷◌, ◌≡◌, refl, codes, pos, negsuc, arith}
use commercial_rchproxy.Receipt.Amounts.{decimal}
use commercial_rchproxy.Storage.Counter.{
  printer_component, Allocator, absent, counter_text, allocated, refused, corrupt_counter,
  negative_counter, invalid_code, allocate, allocate_times,
}
use commercial_rchproxy.Storage.Codes.{Allocates, allocate-Allocates}
use commercial_rchproxy.Storage.Sequence.{numbers_of, allocate_times-count_from}

abbrev allocator : Allocator
allocator = record { start = pos 9998; width = 4 }

three_codes : allocate_times 3 allocator absent ≡ (
  allocated (codes "9998") ∷ allocated (codes "9999") ∷ allocated (codes "10000") ∷ [],
  counter_text (codes "10001\n"),
)
unfolding allocate_times decimal
three_codes = refl

padded_code :
    allocate allocator (counter_text (codes " 42\n"))
    ≡ (allocated (codes "0042"), counter_text (codes "43\n"))
unfolding allocate decimal
padded_code = refl

corrupt :
    allocate allocator (counter_text (codes "4x2\n"))
    ≡ (refused corrupt_counter, counter_text (codes "4x2\n"))
unfolding allocate
corrupt = refl

negative :
    allocate (record { start = negsuc 0; width = 4 }) absent ≡ (refused negative_counter, absent)
unfolding allocate
negative = refl

-- With a width below 4, a small number is no valid code.
narrow : allocate (record { start = pos 7; width = 2 }) absent ≡ (refused invalid_code, absent)
unfolding allocate decimal
narrow = refl

components :
    (printer_component (codes "fe80::1%eth0") ≡ some (codes "fe80__1_eth0"))
    × (printer_component (codes "..") ≡ none)
unfolding printer_component
components = (refl, refl)

allocate-Allocates_example :
    Allocates allocator
      (counter_text (codes " 42\n"))
      (allocate allocator (counter_text (codes " 42\n")))
allocate-Allocates_example = allocate-Allocates allocator (counter_text (codes " 42\n"))

allocate_times-count_from_example :
    numbers_of (allocate_times 3 allocator absent).0 ≡ some (9998 ∷ 9999 ∷ 10000 ∷ [])
allocate_times-count_from_example =
    allocate_times-count_from 3 allocator 9998 refl (omega arith) (omega arith) (omega arith)
