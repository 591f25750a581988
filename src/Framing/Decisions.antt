-- ===== src/Framing/Decisions.antt =====
-- Each branch of `_process` (src/commercialrchproxy/rch/framing.py) agrees with the frames of the
-- whole stream, whatever bytes arrive later.
use commercial_rchproxy.Common.{
  ℕ, ◌+◌, ◌≤◌, ◌<◌, Bool, true, false, not, ◌&&◌, [], ◌∷◌, ◌++◌, ◌≡◌, refl, ◌∙◌, subst, append-nil,
  inl, inr, Bytes, length, get_or, slice, ltb, ◌==◌, if◌then◌else◌, arith, Bool-cases,
  get_or-append, length-append, slice-append,
}
use commercial_rchproxy.Framing.Types.{stx, etx, ack_byte, frame_overhead}
use commercial_rchproxy.Framing.Scan.{
  isdigit, int, Action, decide, decide_header, decide_frame, rejected_count, next_control,
  next_plausible_control,
}
use commercial_rchproxy.Framing.Spec.{
  pass, cut, whole, head_of, head_of_header, head_of_length, frames_in, frames_in-cut, Skips,
  Skips-zero, Skips-suc,
}
use commercial_rchproxy.Framing.Process.{ack_run}
use commercial_rchproxy.Framing.Moves.{ack_run-le}
use commercial_rchproxy.Framing.Skipping.{
  head_of-ne_stx, noise, noise-le, next_control-noise, Skips-noise, next_plausible-Skips,
}

-- At least one byte is given up, no more than there are, and no frame starts in them.
pub record GivesUp (m : ℕ) (p : Bytes) (n : ℕ) : Type 0 where
  pub some_byte : 1 ≤ n
  pub at_most : n ≤ length p
  pub skips : Skips m n p

-- The buffered bytes are the first part of a frame, or too few for a header.
abbrev pub Unfinished : ℕ → Bytes → Type 0
Unfinished m p = (offset : ℕ) → frames_in m 0 offset p ≡ []

pub record IsFrame (m : ℕ) (p : Bytes) (n : ℕ) : Type 0 where
  pub within : n ≤ m
  pub at_most : n + frame_overhead ≤ length p
  pub head : (q : Bytes) → head_of m (p ++ q) ≡ whole n

abbrev pub IsSound : Bool → ℕ → Bytes → Action → Type 0
IsSound final m p Action.ack = GivesUp m p (ack_run p) × GivesUp m p 1
IsSound final m p (Action.unframed n) = GivesUp m p n
IsSound final m p Action.wait = (final ≡ false) × (length p < m + frame_overhead)
IsSound final m p Action.truncated_header = (final ≡ true) × Unfinished m p
IsSound final m p (Action.malformed n) = GivesUp m p n
IsSound final m p (Action.oversize _ n) = GivesUp m p n
IsSound final m p (Action.truncated n) = (final ≡ true) × Unfinished m p
IsSound final m p (Action.unterminated _ n) = GivesUp m p n
IsSound final m p (Action.frame n) = IsFrame m p n

Skips-ack_run : (m : ℕ) (p : Bytes) → Skips m (ack_run p) p
unfolding ack_run
Skips-ack_run m [] = Skips-zero m []
Skips-ack_run m (b ∷ r) = elim (Bool-cases (b == ack_byte)) [
  | inl is_ack ↦ rw is_ack (
      Skips-suc m (ack_run r) b r (λ q. head_of-ne_stx m b (r ++ q) (ground arith))
        (Skips-ack_run m r))
  | inr other ↦ rw other (Skips-zero m (b ∷ r))
]

-- The first byte and the bytes that are no control bytes behind it.
control-GivesUp :
    (m b : ℕ) (r : Bytes)
    → ((q : Bytes) → head_of m (b ∷ (r ++ q)) ≡ pass)
    → GivesUp m (b ∷ r) (rejected_count (next_control 1 (b ∷ r)) (b ∷ r))
control-GivesUp m b r h = rw next_control-noise (record {
  some_byte = omega arith;
  at_most = omega (arith, noise-le r);
  skips = Skips-suc m (noise r) b r h (Skips-noise m r);
})

plausible-GivesUp :
    (m b : ℕ) (r : Bytes)
    → ((q : Bytes) → head_of m (b ∷ (r ++ q)) ≡ pass)
    → GivesUp m (b ∷ r) (rejected_count (next_plausible_control 1 (b ∷ r)) (b ∷ r))
plausible-GivesUp m b r h =
    let (d, e, le, s) = next_plausible-Skips m b r in
    rw e (record {
      some_byte = omega arith;
      at_most = omega (arith, le);
      skips = Skips-suc m d b r h s;
    })

-- Fewer bytes than a header hold no frame.
short-Unfinished : (m : ℕ) (p : Bytes) → length p < 6 → Unfinished m p
unfolding frames_in head_of
short-Unfinished m [] h offset = refl
short-Unfinished m (b ∷ r) h offset =
    ground (arith, short-Unfinished m r (omega arith) (offset + 1))

-- The header of a candidate is not changed by the bytes that arrive later.
head_of-append :
    (m b : ℕ) (r q : Bytes)
    → (b == stx) ≡ true
    → 6 ≤ length (b ∷ r)
    → head_of m (b ∷ (r ++ q)) ≡ (
        if not (isdigit (slice (b ∷ r) 1 3) && isdigit (slice (b ∷ r) 3 6))
        then pass
        else if ltb m (int (slice (b ∷ r) 3 6))
        then pass
        else head_of_length (b ∷ (r ++ q)) (int (slice (b ∷ r) 3 6)))
unfolding head_of_header head_of int
head_of-append m b r q h k =
    let long : ltb (length (b ∷ (r ++ q))) 6 ≡ false = ground (arith, length-append r q) in
    rw (h, head_of)
      (rw (long, head_of)
        (rw
          (
            slice-append (b ∷ r) q 1 3 (omega arith) (omega (arith, k)),
            slice-append (b ∷ r) q 3 6 (omega arith) (omega (arith, k)),
          )
          refl))

head_of_length-room :
    (p q : Bytes) (n : ℕ)
    → ltb (length p) (n + frame_overhead) ≡ false
    → head_of_length (p ++ q) n ≡ (if get_or p (n + 10) 0 == etx then whole n else pass)
unfolding head_of_length
head_of_length-room p q n h = ground (arith, length-append p q, get_or-append p q (n + 10) 0)

-- A partial frame is kept for the bytes to come, and given up at the end of the stream.
wait-IsSound :
    (final : Bool) (m : ℕ) (p : Bytes) (a : Action)
    → length p < m + frame_overhead
    → IsSound true m p a
    → IsSound final m p (if final then a else Action.wait)
wait-IsSound true m p a short h = h
wait-IsSound false m p a short h = (refl, short)

module _ (final : Bool) (m b : ℕ) (r : Bytes) (is_stx : (b == stx) ≡ true)
    (long : 6 ≤ length (b ∷ r)) where
  malformed-GivesUp :
      (isdigit (slice (b ∷ r) 1 3) && isdigit (slice (b ∷ r) 3 6)) ≡ false
      → GivesUp m (b ∷ r) (rejected_count (next_plausible_control 1 (b ∷ r)) (b ∷ r))
  malformed-GivesUp bad = plausible-GivesUp m b r (λ q. head_of-append m b r q is_stx long ∙ rw bad)

  module _ (digits : (isdigit (slice (b ∷ r) 1 3) && isdigit (slice (b ∷ r) 3 6)) ≡ true) where
    oversize-GivesUp :
        ltb m (int (slice (b ∷ r) 3 6)) ≡ true
        → GivesUp m (b ∷ r) (rejected_count (next_control 1 (b ∷ r)) (b ∷ r))
    oversize-GivesUp over =
        control-GivesUp m b r (λ q. head_of-append m b r q is_stx long ∙ rw (digits, over))

    module _ (accepted : ltb m (int (slice (b ∷ r) 3 6)) ≡ false) where
      head_of-accepted :
          (q : Bytes)
          → head_of m (b ∷ (r ++ q)) ≡ head_of_length (b ∷ (r ++ q)) (int (slice (b ∷ r) 3 6))
      head_of-accepted q = head_of-append m b r q is_stx long ∙ rw (digits, accepted)

      head_of-accepted_now : head_of m (b ∷ r) ≡ head_of_length (b ∷ r) (int (slice (b ∷ r) 3 6))
      head_of-accepted_now =
          subst (λ p. head_of m (b ∷ p) ≡ head_of_length (b ∷ p) (int (slice (b ∷ r) 3 6)))
            (append-nil r) (head_of-accepted [])

      cut_here :
          ltb (length (b ∷ r)) (int (slice (b ∷ r) 3 6) + frame_overhead) ≡ true
          → head_of_length (b ∷ r) (int (slice (b ∷ r) 3 6)) ≡ cut
      unfolding head_of_length
      cut_here short = rw short

      decide_frame-IsSound :
          IsSound final m (b ∷ r) (decide_frame final (b ∷ r) (int (slice (b ∷ r) 3 6)))
      unfolding decide_frame
      decide_frame-IsSound =
          let n = int (slice (b ∷ r) 3 6) in
          elim (Bool-cases (ltb (length (b ∷ r)) (n + frame_overhead))) [
            | inl short ↦ rw short (
                wait-IsSound final m (b ∷ r) (Action.truncated (n + frame_overhead)) (ground arith)
                  (
                    refl,
                    λ offset.
                        frames_in-cut m offset (b ∷ r) (head_of-accepted_now ∙ cut_here short),
                  ))
            | inr room ↦ rw room (elim (Bool-cases (get_or (b ∷ r) (n + 10) 0 == etx)) [
              | inl ends ↦ rw ends (record {
                within = ground arith;
                at_most = ground arith;
                head = λ q. head_of-accepted q ∙ (head_of_length-room (b ∷ r) q n room ∙ rw ends);
              })
              | inr other ↦ rw other (
                  control-GivesUp m b r
                    (λ q. head_of-accepted q ∙ (head_of_length-room (b ∷ r) q n room ∙ rw other)))
            ])
          ]

    decide_header-IsSound : IsSound final m (b ∷ r) (decide_header final m (b ∷ r))
    unfolding decide_header
    decide_header-IsSound = elim (Bool-cases (ltb m (int (slice (b ∷ r) 3 6)))) [
      | inl over ↦ rw (digits, over) (oversize-GivesUp over)
      | inr accepted ↦ rw (digits, accepted) (decide_frame-IsSound accepted)
    ]

ack_run-pos : (b : ℕ) (r : Bytes) → (b == ack_byte) ≡ true → 1 ≤ ack_run (b ∷ r)
unfolding ack_run
ack_run-pos b r h = ground arith

-- The branch taken is right for the buffered bytes and for all that may follow them.
pub decide-IsSound :
    (final : Bool) (m : ℕ) (p : Bytes) → 1 ≤ length p → IsSound final m p (decide final m p)
unfolding decide
decide-IsSound final m [] h = elim h [ ]
decide-IsSound final m (b ∷ r) h = elim (Bool-cases (b == ack_byte)) [
  | inl is_ack ↦ rw is_ack (
    record {
      some_byte = ack_run-pos b r is_ack;
      at_most = ack_run-le (b ∷ r);
      skips = Skips-ack_run m (b ∷ r);
    },
    record {
      some_byte = omega arith;
      at_most = omega arith;
      skips = Skips-suc m 0 b r (λ q. head_of-ne_stx m b (r ++ q) (ground arith)) (Skips-zero m r);
    },
  )
  | inr not_ack ↦ rw not_ack (elim (Bool-cases (b == stx)) [
    | inr other ↦ rw other (control-GivesUp m b r (λ q. head_of-ne_stx m b (r ++ q) other))
    | inl is_stx ↦ rw is_stx (elim (Bool-cases (ltb (length (b ∷ r)) 6)) [
      | inl short ↦ rw short (
          wait-IsSound final m (b ∷ r) Action.truncated_header (ground arith)
            (refl, short-Unfinished m (b ∷ r) (ground arith)))
      | inr long ↦
          rw long (elim (Bool-cases (isdigit (slice (b ∷ r) 1 3) && isdigit (slice (b ∷ r) 3 6))) [
            | inl digits ↦ decide_header-IsSound final m b r is_stx (ground arith) digits
            | inr bad ↦
                unfold decide_header in
                rw bad (malformed-GivesUp final m b r is_stx (ground arith) bad)
          ])
    ])
  ])
]
