-- ===== src/Framing/Skipping.antt =====
-- The bytes that the framer gives up hold no start of a frame: the searches of
-- src/commercialrchproxy/rch/framing.py against the frames of the whole stream.
use commercial_rchproxy.Common.{
  ℕ, suc, ◌+◌, ◌-◌, ◌≤◌, false, none, some, [], ◌∷◌, ◌++◌, ◌≡◌, refl, ap, ◌∙◌, ◌⊎◌, inl, inr, Bytes,
  length, take, drop, all, leb, ◌==◌, if◌then◌else◌, arith, Bool-cases, Option-cases, drop-drop,
  take_all, length-drop,
}
use commercial_rchproxy.Framing.Types.{stx}
use commercial_rchproxy.Framing.Scan.{
  is_digit, is_control, find_control, next_control, is_plausible, find_plausible, last_stx,
  partial_stx, next_plausible_control, rejected_count,
}
use commercial_rchproxy.Framing.Spec.{pass, head_of, frames_in, Skips, Skips-zero, Skips-suc}

-- A byte other than STX starts no frame.
pub head_of-ne_stx : (m b : ℕ) (p : Bytes) → (b == stx) ≡ false → head_of m (b ∷ p) ≡ pass
unfolding head_of
head_of-ne_stx m b p h = rw h

-- Nor does STX with a byte that is no digit among the five behind it.
abbrev Broken : Bytes → Type 0
Broken r = all is_digit (take 5 r) ≡ false

head_of-Broken : (m : ℕ) (b : ℕ) (r q : Bytes) → Broken r → head_of m (b ∷ (r ++ q)) ≡ pass
unfolding head_of
head_of-Broken m b [] q h = cc
head_of-Broken m b (c0 ∷ []) [] h = ground arith
head_of-Broken m b (c0 ∷ []) (d1 ∷ d2 ∷ d3 ∷ d4 ∷ q) h = ground arith
head_of-Broken m b (c0 ∷ []) _ h = ground arith
head_of-Broken m b (c0 ∷ c1 ∷ []) (d2 ∷ d3 ∷ d4 ∷ q) h = ground arith
head_of-Broken m b (c0 ∷ c1 ∷ []) _ h = ground arith
head_of-Broken m b (c0 ∷ c1 ∷ c2 ∷ []) (d3 ∷ d4 ∷ q) h = ground arith
head_of-Broken m b (c0 ∷ c1 ∷ c2 ∷ []) _ h = ground arith
head_of-Broken m b (c0 ∷ c1 ∷ c2 ∷ c3 ∷ []) (d4 ∷ q) h = ground arith
head_of-Broken m b (c0 ∷ c1 ∷ c2 ∷ c3 ∷ []) _ h = ground arith
head_of-Broken m b (c0 ∷ c1 ∷ c2 ∷ c3 ∷ c4 ∷ r) q h = ground arith

Skips-eq : (m d e : ℕ) (p : Bytes) → d ≡ e → Skips m d p → Skips m e p
Skips-eq m d e p h s = rw h at s

-- The bytes before the next control byte.
pub noise : Bytes → ℕ
noise [] = 0
noise (b ∷ r) = if is_control b then 0 else suc (noise r)

pub noise-le : (r : Bytes) → noise r ≤ length r
unfolding noise
noise-le [] = omega arith
noise-le (b ∷ r) = ground (arith, noise-le r)

find_control-noise :
    (i : ℕ) (r : Bytes)
    → (find_control i r ≡ some (i + noise r)) ⊎ (find_control i r ≡ none) × (noise r ≡ length r)
unfolding find_control noise
find_control-noise i [] = inr (refl, refl)
find_control-noise i (b ∷ r) = ground (arith, find_control-noise (suc i) r)

-- What is given up with the first byte: it, and the bytes before the next control byte.
pub next_control-noise :
    (b : ℕ) (r : Bytes) → rejected_count (next_control 1 (b ∷ r)) (b ∷ r) ≡ suc (noise r)
unfolding next_control rejected_count
next_control-noise b r = ground (arith, find_control-noise 1 r)

pub Skips-noise : (m : ℕ) (r : Bytes) → Skips m (noise r) r
unfolding noise
Skips-noise m [] = Skips-zero m []
Skips-noise m (b ∷ r) = elim (Bool-cases (is_control b)) [
  | inl control ↦ rw control (Skips-zero m (b ∷ r))
  | inr other ↦ rw other (
      Skips-suc m (noise r) b r (λ q. head_of-ne_stx m b (r ++ q) (ground arith)) (Skips-noise m r))
]

-- A plausible candidate begins with a byte that is no digit.
find_plausible-not_digits :
    (i j : ℕ) (r : Bytes) → find_plausible i r ≡ some j → all is_digit r ≡ false
unfolding find_plausible is_plausible
find_plausible-not_digits i j [] h = cc
find_plausible-not_digits i j (b ∷ r) h = ground (arith, find_plausible-not_digits (suc i) j r)

last_stx-not_digits : (i j : ℕ) (r : Bytes) → last_stx i r ≡ some j → all is_digit r ≡ false
unfolding last_stx
last_stx-not_digits i j [] h = cc
last_stx-not_digits i j (b ∷ r) h = elim (Option-cases (last_stx (suc i) r)) [
  | inl here ↦ ground (arith, here)
  | inr (k, later) ↦ ground (arith, last_stx-not_digits (suc i) k r later)
]

length-Broken : (r : Bytes) → length r ≤ 5 → all is_digit r ≡ false → Broken r
length-Broken r h e = rw (take_all 5 r h) e

-- A byte that the search for a plausible candidate passes over, with five bytes behind it.
head_of-implausible :
    (m b : ℕ) (r q : Bytes)
    → 5 ≤ length r
    → is_plausible (b ∷ r) ≡ false
    → head_of m (b ∷ (r ++ q)) ≡ pass
unfolding is_plausible
head_of-implausible m b [] q h e = elim h [ ]
head_of-implausible m b (c ∷ r) q h e = elim (Bool-cases (b == stx)) [
  | inl is_stx ↦ head_of-Broken m b (c ∷ r) q (ground arith)
  | inr other ↦ head_of-ne_stx m b (c ∷ (r ++ q)) other
]

-- A byte with fewer than six behind it, one of them no digit.
head_of-short :
    (m b : ℕ) (r q : Bytes)
    → length r ≤ 5
    → all is_digit r ≡ false
    → head_of m (b ∷ (r ++ q)) ≡ pass
head_of-short m b r q h e = head_of-Broken m b r q (length-Broken r h e)

-- Up to a plausible candidate.
plausible-Skips :
    (m i j : ℕ) (r : Bytes)
    → find_plausible i r ≡ some j
    → (d : ℕ) × (j ≡ i + d) × (d ≤ length r) × Skips m d r
unfolding find_plausible
plausible-Skips m i j [] h = cc
plausible-Skips m i j (b ∷ r) h = elim (Bool-cases (is_plausible (b ∷ r))) [
  | inl here ↦ (0, ground (arith, here), omega arith, Skips-zero m (b ∷ r))
  | inr later ↦
      let (d, e, le, s) = plausible-Skips m (suc i) j r (ground (arith, later)) in
      (
        suc d,
        omega (arith, e),
        omega (arith, le),
        Skips-suc m d b r
            (λ q. elim (Bool-cases (leb 5 (length r))) [
              | inl long ↦ head_of-implausible m b r q (ground arith) later
              | inr short ↦
                  head_of-short m b r q (ground arith)
                    (find_plausible-not_digits (suc i) j r (ground (arith, later)))
            ])
            s,
      )
]

-- Where there is none, up to the last five bytes.
implausible-Skips : (m i : ℕ) (r : Bytes) → find_plausible i r ≡ none → Skips m (length r - 5) r
unfolding find_plausible
implausible-Skips m i [] h = Skips-zero m []
implausible-Skips m i (b ∷ r) h = elim (Bool-cases (leb 5 (length r))) [
  | inl long ↦ Skips-eq m (suc (length r - 5)) _ (b ∷ r) (ground arith) (
      Skips-suc m (length r - 5) b r
        (λ q. head_of-implausible m b r q (ground arith) (ground arith))
        (implausible-Skips m (suc i) r (ground arith)))
  | inr short ↦ Skips-eq m 0 _ (b ∷ r) (ground arith) (Skips-zero m (b ∷ r))
]

-- In the last five bytes, up to the last STX, or all.
tail-Skips :
    (m i j : ℕ) (r : Bytes)
    → length r ≤ 5
    → last_stx i r ≡ some j
    → (d : ℕ) × (j ≡ i + d) × (d ≤ length r) × Skips m d r
unfolding last_stx
tail-Skips m i j [] h e = cc
tail-Skips m i j (b ∷ r) h e = elim (Option-cases (last_stx (suc i) r)) [
  | inl here ↦ (0, ground (arith, here), omega arith, Skips-zero m (b ∷ r))
  | inr (k, later) ↦
      let (d, e', le, s) = tail-Skips m (suc i) j r (omega arith) (ground (arith, later)) in
      (
        suc d,
        omega (arith, e'),
        omega (arith, le),
        Skips-suc m d b r
            (λ q. head_of-short m b r q (omega arith) (last_stx-not_digits (suc i) k r later)) s,
      )
]

tail_none-Skips : (m i : ℕ) (r : Bytes) → last_stx i r ≡ none → Skips m (length r) r
unfolding last_stx
tail_none-Skips m i [] e = Skips-zero m []
tail_none-Skips m i (b ∷ r) e = elim (Option-cases (last_stx (suc i) r)) [
  | inl later ↦
      Skips-suc m (length r) b r (λ q. head_of-ne_stx m b (r ++ q) (ground (arith, later)))
        (tail_none-Skips m (suc i) r later)
  | inr (k, later) ↦ absurd (ground (arith, later))
]

-- One search after another.
Skips-Skips :
    (m d e : ℕ) (p : Bytes) → d ≤ length p → Skips m d p → Skips m e (drop d p) → Skips m (d + e) p
Skips-Skips m d e p h s t offset q =
    s offset q
    ∙ t (offset + d) q
    ∙ ap (λ o. frames_in m 0 o (drop e (drop d p) ++ q)) (omega arith)
    ∙ ap (λ p'. frames_in m 0 (offset + (d + e)) (p' ++ q)) (drop-drop e d p)

partial_stx-tail :
    (b : ℕ) (r : Bytes)
    → partial_stx 1 (b ∷ r) ≡ last_stx (suc (length r - 5)) (drop (length r - 5) r)
unfolding partial_stx
partial_stx-tail b r = ap (λ k. last_stx k (drop k (b ∷ r))) {y = suc (length r - 5)} (omega arith)

partial_stx-Skips :
    (m b : ℕ) (r : Bytes)
    → find_plausible 1 r ≡ none
    → (d : ℕ) × (rejected_count (partial_stx 1 (b ∷ r)) (b ∷ r) ≡ suc d)
      × (d ≤ length r)
      × Skips m d r
unfolding rejected_count
partial_stx-Skips m b r absent =
    let t = length r - 5 in
    let front = implausible-Skips m 1 r absent in
    let size = length-drop t r in
    elim (Option-cases (last_stx (suc t) (drop t r))) [
      | inl none_left ↦ (
        t + length (drop t r),
        rw (partial_stx-tail b r, none_left) (omega (arith, size)),
        omega (arith, size),
        Skips-Skips m t _ r (omega arith) front (tail_none-Skips m (suc t) (drop t r) none_left),
      )
      | inr (j, found) ↦
          let (d, e, le, s) = tail-Skips m (suc t) j (drop t r) (omega (arith, size)) found in
          (
            t + d,
            rw (partial_stx-tail b r, found) (omega (arith, e)),
            omega (arith, size, le),
            Skips-Skips m t d r (omega arith) front s,
          )
    ]

-- The bytes given up with a malformed header start no frame: they are the first byte and those
-- before the next plausible candidate.
pub next_plausible-Skips :
    (m b : ℕ) (r : Bytes)
    → (d : ℕ) × (rejected_count (next_plausible_control 1 (b ∷ r)) (b ∷ r) ≡ suc d)
      × (d ≤ length r)
      × Skips m d r
unfolding next_plausible_control
next_plausible-Skips m b r = elim (Option-cases (find_plausible 1 r)) [
  | inr (j, found) ↦
      let (d, e, le, s) = plausible-Skips m 1 j r found in
      (d, rw (found, next_plausible_control) (unfold rejected_count in omega (arith, e)), le, s)
  | inl absent ↦ rw (absent, next_plausible_control) (partial_stx-Skips m b r absent)
]
