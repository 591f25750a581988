-- ===== src/Proxy/PumpEnds.antt =====
-- What a pump of src/commercialrchproxy/proxy/streams.py that returns no error has done.
use commercial_rchproxy.Common.{
  ℕ, ◌+◌, Bool, true, false, not, ◌&&◌, ◌||◌, none, some, List, [], ◌∷◌, ◌++◌, Bytes, length, ◌≡◌,
  refl, if-cases, arith,
}
use commercial_rchproxy.Recorder.Types.{FailurePolicy, relay_continues, abort}
use commercial_rchproxy.Proxy.Pump.{
  CaptureAnswer, token_given, no_token, capture_raised, capture_cancelled, DrainAnswer, drained,
  drain_raised, drain_cancelled, Event, chunk, end_of_stream, read_raised, read_cancelled, Pumped,
  has_token, mark, drain_round, capture_end, capture_round, pump,
}
use commercial_rchproxy.Proxy.Relay.{read_bytes, is_clean, pump-clean}
use commercial_rchproxy.Proxy.Session.{TaskEnd, returned, task_end}

abbrev pub is_without_error : TaskEnd → Bool
is_without_error (returned false) = true
is_without_error _ = false

-- A result without an error is that of a clean end.
abbrev pub tells : Pumped → Bool
tells p = not (is_without_error (task_end p)) || is_clean p.ended_by

abbrev pub Tells : Pumped → Type 0
Tells p = tells p ≡ true

pub drain_round-Tells :
    (c : CaptureAnswer) (d : DrainAnswer) (r : Bool) (written : Bytes) (marks : List Bool)
    (total : ℕ) (next : Pumped)
    → Tells next
    → Tells (drain_round c d r written marks total next)
unfolding drain_round task_end
drain_round-Tells c drained r written marks total next h =
    if-cases Tells (has_token c && r) (λ _. refl) (λ _. h)
drain_round-Tells c (drain_raised why) r written marks total next h =
    if-cases Tells (has_token c && r) (λ _. refl) (λ _. refl)
drain_round-Tells c drain_cancelled r written marks total next h =
    if-cases Tells (has_token c && r) (λ _. refl) (λ _. refl)

pub capture_round-Tells :
    (policy : FailurePolicy) (c : CaptureAnswer) (d : DrainAnswer) (r : Bool) (written : Bytes)
    (marks : List Bool) (total : ℕ) (next : Pumped)
    → Tells next
    → Tells (capture_round policy c d r written marks total next)
unfolding capture_round capture_end task_end
capture_round-Tells policy token_given d r written marks total next h =
    drain_round-Tells token_given d r written marks total next h
capture_round-Tells policy no_token d r written marks total next h =
    drain_round-Tells no_token d r written marks total next h
capture_round-Tells policy capture_cancelled d r written marks total next h = refl
capture_round-Tells relay_continues (capture_raised o why) d r written marks total next h =
    drain_round-Tells (capture_raised o why) d r written marks total next h
capture_round-Tells abort (capture_raised true why) d r written marks total next h = refl
capture_round-Tells abort (capture_raised false why) d r written marks total next h = refl

pub pump-Tells :
    (policy : FailurePolicy) (events : List Event) (written : Bytes) (marks : List Bool) (total : ℕ)
    → Tells (pump policy written marks total events)
unfolding pump task_end
pump-Tells policy [] written marks total = refl
pump-Tells policy (end_of_stream none ∷ es) written marks total = refl
pump-Tells policy (end_of_stream (some why) ∷ es) written marks total = refl
pump-Tells policy (read_raised why ∷ es) written marks total = refl
pump-Tells policy (read_cancelled ∷ es) written marks total = refl
pump-Tells policy (chunk payload c d r ∷ es) written marks total =
    let next = pump policy (written ++ payload) (mark c true marks) (total + length payload) es in
    capture_round-Tells policy c d r (written ++ payload) marks total next
      (pump-Tells policy es (written ++ payload) (mark c true marks) (total + length payload))

-- All that was read is written.
abbrev pub Relays : FailurePolicy → List Event → Type 0
Relays policy events =
    (is_clean (pump policy [] [] 0 events).ended_by ≡ true)
    × ((pump policy [] [] 0 events).written ≡ read_bytes events)

pub pump-Relays :
    (policy : FailurePolicy) (events : List Event)
    → is_without_error (task_end (pump policy [] [] 0 events)) ≡ true
    → Relays policy events
pump-Relays policy events quiet =
    let p = pump policy [] [] 0 events in
    let clean =
      clean_of (is_without_error (task_end p)) (is_clean p.ended_by) quiet
        (pump-Tells policy events [] [] 0) in
    (clean, (pump-clean policy events [] [] 0 clean).0)
  where
    clean_of : (e c : Bool) → e ≡ true → (not e || c) ≡ true → c ≡ true
    clean_of true c h k = k
    clean_of false c h k = absurd (ground (arith, h))
