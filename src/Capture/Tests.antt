-- ===== src/Capture/Tests.antt =====
-- A captured job on concrete calls, and the properties of jobs at concrete inputs.
use commercial_rchproxy.Common.{true, false, none, some, List, [], ◌∷◌, map, ◌≡◌, refl}
use commercial_rchproxy.Capture.Types.{
  client_to_rch, rch_to_client, CaptureToken, Clock, Observation, new_job,
  local_write_failed_or_cancelled,
}
use commercial_rchproxy.Capture.Jobs.{final_status}
use commercial_rchproxy.Capture.Stream.{Call, observe, drain, perform_calls, observed, all_retain}
use commercial_rchproxy.Capture.Calls.{IsCaptured}
use commercial_rchproxy.Capture.Drains.{perform_calls-new_job}
use commercial_rchproxy.Capture.Status.{any_failed, status_of, final_status-perform_calls}
use commercial_rchproxy.Capture.Streaming.{forget, with_retain, perform_calls-forget}

abbrev clock : Clock
clock = record { utc_now = 50 ∷ []; monotonic_now = 7; sha256 = λ bytes. bytes }

abbrev observation : Observation
observation = record {
  sequence = none;
  session_offset = none;
  timestamp = none;
  observed_monotonic_ns = none;
  received_unix_ns = some 9;
  forwarded_unix_ns = none;
  retain_payload = true;
}

abbrev token : CaptureToken
token = record {
  job_id = 1;
  chunk_index = some 0;
  direction = client_to_rch;
  byte_count = 2;
  sequence = some 1;
}

-- Two bytes, three bytes back of which the limit admits two, and a byte that it does not admit.
abbrev exchange : List Call
exchange =
    observe clock client_to_rch (65 ∷ 66 ∷ []) observation
    ∷ drain token true (some 10) none
    ∷ observe clock rch_to_client (67 ∷ 68 ∷ 69 ∷ []) observation
    ∷ drain token false none none
    ∷ observe clock client_to_rch (70 ∷ []) observation
    ∷ []

perform_calls-new_job_example :
    IsCaptured 4 8 (observed exchange) (perform_calls exchange (new_job 1 5 4 8))
unfolding all_retain
perform_calls-new_job_example = perform_calls-new_job 1 5 4 8 exchange refl

final_status-perform_calls_example :
    final_status none (perform_calls exchange (new_job 1 5 4 8)) ≡ status_of exchange
final_status-perform_calls_example = final_status-perform_calls 1 5 4 8 exchange

perform_calls-forget_example :
    perform_calls (map (with_retain false) exchange) (forget (new_job 1 5 4 8))
    ≡ forget (perform_calls (map (with_retain true) exchange) (new_job 1 5 4 8))
perform_calls-forget_example = perform_calls-forget exchange (new_job 1 5 4 8)

status_of-exchange : status_of exchange ≡ local_write_failed_or_cancelled
unfolding any_failed
status_of-exchange = refl
