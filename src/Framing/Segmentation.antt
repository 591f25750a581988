-- ===== src/Framing/Segmentation.antt =====
-- `_process`, `feed` and `finish` of src/commercialrchproxy/rch/framing.py against the frames of
-- the whole stream, for every segmentation of it.
use commercial_rchproxy.Common.{
  ℕ, zero, suc, ◌+◌, ◌≤◌, ◌<◌, Bool, true, false, none, List, [], ◌≡◌, refl, ◌∙◌, subst, inl, inr,
  Bytes, length, length-zero, Bool-cases, Option-cases, ltb, arith, length-drop,
}
use commercial_rchproxy.Framing.Types.{frame_overhead}
use commercial_rchproxy.Framing.Framer.{Framer, buffered_bytes, available}
use commercial_rchproxy.Framing.Scan.{Action, decide}
use commercial_rchproxy.Framing.Process.{perform, process_rounds, process}
use commercial_rchproxy.Framing.Decisions.{IsSound, decide-IsSound}
use commercial_rchproxy.Framing.Reading.{IsWf, IsReading}
use commercial_rchproxy.Framing.Rounds.{Advances, perform-Advances}

-- What the loop of `_process` leaves: nothing behind the end of the stream, and before it less
-- than a frame.
abbrev pub AtRest : Bool → Framer → Type 0
AtRest true h = buffered_bytes h ≡ []
AtRest false h = length (buffered_bytes h) < h.limits.max_data_length + frame_overhead

pub record Settles (final : Bool) (seen : Bytes) (f h : Framer) : Type 0 where
  pub found : List (ℕ × Bytes)
  pub wf : IsWf h
  pub reading : IsReading final seen found h
  pub limits : h.limits ≡ f.limits
  pub seen_same : h.bytes_seen ≡ f.bytes_seen
  pub finished : h.finished ≡ f.finished
  pub at_rest : AtRest final h

-- Only a partial frame stops the loop.
perform-none : (f : Framer) (a : Action) → perform f a ≡ none → a ≡ Action.wait
unfolding perform
perform-none f Action.wait e = refl
perform-none f _ e = cc

empty-AtRest : (final : Bool) (f : Framer) → buffered_bytes f ≡ [] → AtRest final f
empty-AtRest true f e = e
empty-AtRest false f e = rw e (omega arith)

wait-AtRest :
    (final : Bool) (f : Framer)
    → IsSound final f.limits.max_data_length (buffered_bytes f) Action.wait
    → AtRest final f
wait-AtRest true f s = cc (s.0)
wait-AtRest false f s = s.1

stop-Settles :
    {final : Bool} {seen : Bytes} {found : List (ℕ × Bytes)} {f : Framer}
    → IsWf f
    → IsReading final seen found f
    → AtRest final f
    → Settles final seen f f
stop-Settles w r rest = record {
  found = _;
  wf = w;
  reading = r;
  limits = refl;
  seen_same = refl;
  finished = refl;
  at_rest = rest;
}

Advances-Settles :
    {final : Bool} {seen : Bytes} {f g h : Framer}
    → Advances final seen f g
    → Settles final seen g h
    → Settles final seen f h
Advances-Settles a s = record {
  found = s.found;
  wf = s.wf;
  reading = s.reading;
  limits = s.limits ∙ a.limits;
  seen_same = s.seen_same ∙ a.seen_same;
  finished = s.finished ∙ a.finished;
  at_rest = s.at_rest;
}

process_rounds-Settles :
    (fuel : ℕ) (final : Bool) (seen : Bytes) (found : List (ℕ × Bytes)) (f : Framer)
    → length (buffered_bytes f) ≤ fuel
    → IsWf f
    → IsReading final seen found f
    → Settles final seen f (process_rounds fuel final f)
unfolding process_rounds
process_rounds-Settles zero final seen found f enough w r =
    stop-Settles w r (empty-AtRest final f (length-zero (buffered_bytes f) enough))
process_rounds-Settles (suc fuel) final seen found f enough w r =
    elim (Bool-cases (ltb 0 (available f))) [
      | inr used ↦
          rw (used, process_rounds)
            (stop-Settles w r (
              empty-AtRest final f
                (length-zero (buffered_bytes f) (ground (arith, length-drop f.cursor f.buffer)))))
      | inl more ↦
          let p = buffered_bytes f in
          let a = decide final f.limits.max_data_length p in
          let some_left : 1 ≤ length p = ground (arith, length-drop f.cursor f.buffer) in
          let sound = decide-IsSound final f.limits.max_data_length p some_left in
          rw (more, process_rounds)
            (elim (Option-cases (perform f a)) [
              | inl stops ↦ rw stops (
                  stop-Settles w r (
                    wait-AtRest final f (
                      subst (λ b. IsSound final f.limits.max_data_length p b)
                        (perform-none f a stops) sound)))
              | inr (g, goes) ↦
                  let step = perform-Advances w r a some_left sound goes in
                  rw goes (
                    Advances-Settles step (
                      process_rounds-Settles fuel final seen step.found g
                        (omega (arith, step.shorter)) step.wf step.reading))
            ])
    ]

pub process-Settles :
    (final : Bool) (seen : Bytes) (found : List (ℕ × Bytes)) (f : Framer)
    → IsWf f
    → IsReading final seen found f
    → Settles final seen f (process final f)
unfolding process
process-Settles final seen found f w r =
    process_rounds-Settles (available f) final seen found f
      (omega (arith, length-drop f.cursor f.buffer)) w r
