-- ===== src/Proxy/Relay.antt =====
-- The relay of src/commercialrchproxy/proxy/streams.py is transparent: the recorder has no influence
-- on it unless the policy says so, and what is counted is what was drained.
use commercial_rchproxy.Common.{
  ℕ, ◌+◌, Bool, true, false, not, ◌&&◌, Option, none, some, List, [], ◌∷◌, ◌++◌, map, Bytes, length,
  length-append, ◌≡◌, refl, sym, ◌∙◌, arith, if-cases, append-nil, append_assoc,
}
use commercial_rchproxy.Recorder.Types.{FailurePolicy, relay_continues, abort}
use commercial_rchproxy.Proxy.Pump.{
  CaptureAnswer, token_given, no_token, capture_raised, capture_cancelled, DrainAnswer, drained,
  drain_raised, drain_cancelled, Event, chunk, end_of_stream, read_raised, read_cancelled, EndedBy,
  Pumped, has_token, mark, capture_end, drain_round, capture_round, pump, eof,
}

-- The relay as it is without a recorder.
abbrev pub without_recorder : Event → Event
without_recorder (chunk payload capture drain mark_raises) = chunk payload no_token drain false
without_recorder e = e

abbrev pub is_cancelled : CaptureAnswer → Bool
is_cancelled capture_cancelled = true
is_cancelled _ = false

-- Whether the recorder lets the relay go on: its calls are not cancelled, and the marks do not raise.
abbrev pub lets_go_on : Event → Bool
lets_go_on (chunk payload capture drain mark_raises) = not (is_cancelled capture) && not mark_raises
lets_go_on e = true

abbrev pub all_let_go_on : List Event → Bool
all_let_go_on [] = true
all_let_go_on (e ∷ es) = lets_go_on e && all_let_go_on es

-- A result but for what the recorder was told.
abbrev pub relayed : Pumped → Bytes × ℕ × EndedBy × Option Bytes
relayed p = (p.written, p.total, p.ended_by, p.error)

-- With policy `continue`, whatever the recorder answers, tokens, none or exceptions, as long as its
-- calls are not cancelled and its marks do not raise: the bytes that are written to the peer, their
-- count, and how and why the pump ends are the same as without a recorder.
pub pump-without_recorder :
    (events : List Event) (written : Bytes) (marks marks' : List Bool) (total : ℕ)
    → all_let_go_on events ≡ true
    → relayed (pump relay_continues written marks total events)
      ≡ relayed (pump relay_continues written marks' total (map without_recorder events))
unfolding pump capture_end capture_round drain_round
pump-without_recorder [] written marks marks' total h = refl
pump-without_recorder (end_of_stream none ∷ es) written marks marks' total h = refl
pump-without_recorder (end_of_stream (some why) ∷ es) written marks marks' total h = refl
pump-without_recorder (read_raised why ∷ es) written marks marks' total h = refl
pump-without_recorder (read_cancelled ∷ es) written marks marks' total h = refl
pump-without_recorder (chunk p c d true ∷ es) written marks marks' total h =
    absurd (ground (arith, h))
pump-without_recorder (chunk p capture_cancelled d false ∷ es) written marks marks' total h =
    absurd (ground (arith, h))
pump-without_recorder (chunk p token_given drained false ∷ es) written marks marks' total h =
    pump-without_recorder es (written ++ p) (marks ++ (true ∷ [])) marks' (total + length p)
      (ground (arith, h))
pump-without_recorder (chunk p no_token drained false ∷ es) written marks marks' total h =
    pump-without_recorder es (written ++ p) marks marks' (total + length p) (ground (arith, h))
pump-without_recorder (chunk p (capture_raised o w) drained false ∷ es) written marks marks' total
      h =
    pump-without_recorder es (written ++ p) marks marks' (total + length p) (ground (arith, h))
pump-without_recorder (chunk p token_given (drain_raised why) false ∷ es) written marks marks' total
      h =
    refl
pump-without_recorder (chunk p no_token (drain_raised why) false ∷ es) written marks marks' total
      h =
    refl
pump-without_recorder (chunk p (capture_raised o w) (drain_raised why) false ∷ es) written marks
      marks' total h =
    refl
pump-without_recorder (chunk p token_given drain_cancelled false ∷ es) written marks marks' total
      h =
    refl
pump-without_recorder (chunk p no_token drain_cancelled false ∷ es) written marks marks' total h =
    refl
pump-without_recorder (chunk p (capture_raised o w) drain_cancelled false ∷ es) written marks marks'
      total h =
    refl

-- The bytes that the reads return, up to the one that ends the pump.
abbrev pub read_bytes : List Event → Bytes
read_bytes [] = []
read_bytes (chunk payload capture drain mark_raises ∷ es) = payload ++ read_bytes es
read_bytes (e ∷ es) = []

abbrev pub is_clean : EndedBy → Bool
is_clean eof = true
is_clean _ = false

-- If a result is clean, so much is written and counted.
abbrev CleanHolds : Bytes → ℕ → Pumped → Type 0
CleanHolds written total q = is_clean q.ended_by ≡ true → (q.written ≡ written) × (q.total ≡ total)

-- A round whose capture does not end the pump.
drain_clean :
    (w : Bytes) (t : ℕ) (c : CaptureAnswer) (d : DrainAnswer) (r : Bool) (written : Bytes)
    (marks : List Bool) (total : ℕ) (next : Pumped)
    → CleanHolds w t next
    → CleanHolds w t (drain_round c d r written marks total next)
unfolding drain_round
drain_clean w t c drained r written marks total next holds =
    if-cases (CleanHolds w t) (has_token c && r) (λ _ h. absurd (ground (arith, h))) (λ _. holds)
drain_clean w t c (drain_raised why) r written marks total next holds =
    if-cases (CleanHolds w t) (has_token c && r) (λ _ h. absurd (ground (arith, h)))
      (λ _ h. absurd (ground (arith, h)))
drain_clean w t c drain_cancelled r written marks total next holds =
    if-cases (CleanHolds w t) (has_token c && r) (λ _ h. absurd (ground (arith, h)))
      (λ _ h. absurd (ground (arith, h)))

round_clean :
    (w : Bytes) (t : ℕ) (policy : FailurePolicy) (c : CaptureAnswer) (d : DrainAnswer) (r : Bool)
    (written : Bytes) (marks : List Bool) (total : ℕ) (next : Pumped)
    → CleanHolds w t next
    → CleanHolds w t (capture_round policy c d r written marks total next)
unfolding capture_round capture_end
round_clean w t policy token_given d r written marks total next holds =
    drain_clean w t token_given d r written marks total next holds
round_clean w t policy no_token d r written marks total next holds =
    drain_clean w t no_token d r written marks total next holds
round_clean w t policy capture_cancelled d r written marks total next holds =
    λ h. absurd (ground (arith, h))
round_clean w t relay_continues (capture_raised o why) d r written marks total next holds =
    drain_clean w t (capture_raised o why) d r written marks total next holds
round_clean w t abort (capture_raised true why) d r written marks total next holds =
    λ h. absurd (ground (arith, h))
round_clean w t abort (capture_raised false why) d r written marks total next holds =
    λ h. absurd (ground (arith, h))

-- With either policy: if the pump ends at the end of the stream, all that was read is written, in
-- its order, and all of it is counted as drained.
pub pump-clean :
    (policy : FailurePolicy) (events : List Event) (written : Bytes) (marks : List Bool) (total : ℕ)
    → is_clean (pump policy written marks total events).ended_by ≡ true
    → ((pump policy written marks total events).written ≡ written ++ read_bytes events)
      × ((pump policy written marks total events).total ≡ total + length (read_bytes events))
unfolding pump
pump-clean policy [] written marks total h = absurd (ground (arith, h))
pump-clean policy (end_of_stream none ∷ es) written marks total h =
    (sym (append-nil written), omega arith)
pump-clean policy (end_of_stream (some why) ∷ es) written marks total h = absurd (ground (arith, h))
pump-clean policy (read_raised why ∷ es) written marks total h = absurd (ground (arith, h))
pump-clean policy (read_cancelled ∷ es) written marks total h = absurd (ground (arith, h))
pump-clean policy (chunk p c d r ∷ es) written marks total h =
    let next = pump policy (written ++ p) (mark c true marks) (total + length p) es in
    let holds : CleanHolds (written ++ (p ++ read_bytes es)) (total + length (p ++ read_bytes es))
        next =
      λ clean.
        let (all, count) =
          pump-clean policy es (written ++ p) (mark c true marks) (total + length p) clean in
        let size = length-append p (read_bytes es) in
        (all ∙ append_assoc written p (read_bytes es), omega (arith, count, size)) in
    round_clean (written ++ (p ++ read_bytes es)) (total + length (p ++ read_bytes es)) policy c d r
      (written ++ p) marks total next holds h
