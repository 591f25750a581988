-- ===== src/Proxy/Tests.antt =====
-- A pump on a short stream, and its properties at concrete inputs.
use commercial_rchproxy.Common.{◌+◌, false, none, some, List, [], ◌∷◌, ◌++◌, map, length, ◌≡◌, refl}
use commercial_rchproxy.Recorder.Types.{relay_continues, abort}
use commercial_rchproxy.Proxy.Pump.{
  Event, chunk, end_of_stream, token_given, capture_raised, drained, drain_raised, pump,
  capture_round, drain_round, capture_end, transport_error,
}
use commercial_rchproxy.Proxy.Relay.{
  relayed, without_recorder, read_bytes, pump-without_recorder, pump-clean,
}

-- The recorder fails in the second round.
abbrev stream : List Event
stream =
    chunk (65 ∷ 66 ∷ []) token_given drained false
    ∷ chunk (67 ∷ []) (capture_raised false (69 ∷ [])) drained false
    ∷ end_of_stream none
    ∷ []

pump-without_recorder_example :
    relayed (pump relay_continues [] [] 0 stream)
    ≡ relayed (pump relay_continues [] [] 0 (map without_recorder stream))
pump-without_recorder_example = pump-without_recorder stream [] [] [] 0 refl

pump-clean_example :
    ((pump relay_continues [] [] 0 stream).written ≡ [] ++ read_bytes stream)
    × ((pump relay_continues [] [] 0 stream).total ≡ 0 + length (read_bytes stream))
unfolding pump capture_round drain_round capture_end
pump-clean_example = pump-clean relay_continues stream [] [] 0 refl

-- A drain that fails leaves the last chunk written and not counted.
pump-failed_drain :
    relayed
      (pump abort [] [] 0 (chunk (65 ∷ 66 ∷ []) token_given (drain_raised (69 ∷ [])) false ∷ []))
    ≡ (65 ∷ 66 ∷ [], 0, transport_error, some (69 ∷ []))
unfolding pump capture_round drain_round capture_end
pump-failed_drain = refl
