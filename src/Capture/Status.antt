-- ===== src/Capture/Status.antt =====
-- The transport status that `finish` of src/commercialrchproxy/capture/jobs.py leaves.
use commercial_rchproxy.Common.{
  ℕ, ◌+◌, Bool, true, false, not, ◌&&◌, ◌||◌, Option, none, List, [], ◌∷◌, Bytes, length, ◌==◌, ◌≡◌,
  refl, ap, ◌∙◌, inl, inr, Bool-cases, arith, if◌then◌else◌, length-append,
}
use commercial_rchproxy.Capture.Types.{
  Direction, client_to_rch, rch_to_client, CaptureToken, CapturedJob, Clock, Observation, new_job,
  TransportStatus, captured_delivery_unconfirmed, all_local_write_drains_completed,
  local_write_failed_or_cancelled,
}
use commercial_rchproxy.Capture.Jobs.{
  append, mark_local_write_drain, mark_chunk, count_drained, final_status,
}
use commercial_rchproxy.Capture.Stream.{
  tagged, same_way, only, Call, observe, drain, perform_call, perform_calls, observed,
}
use commercial_rchproxy.Capture.Traffic.{only-append}
use commercial_rchproxy.Capture.Counting.{append-Captures, size_for}

-- Whether a local write failed or was cancelled.
unfoldable pub any_failed : List Call → Bool
any_failed [] = false
any_failed (observe clock d p o ∷ calls) = any_failed calls
any_failed (drain token completed at error ∷ calls) = not completed || any_failed calls

-- The bytes whose local write was completed, of the chunks of one direction.
unfoldable pub drained_bytes : Direction → List Call → ℕ
drained_bytes d [] = 0
drained_bytes d (observe clock e p o ∷ calls) = drained_bytes d calls
drained_bytes d (drain token completed at error ∷ calls) =
    (if completed && same_way d token.direction then token.byte_count else 0)
    + drained_bytes d calls

abbrev observed_bytes : Direction → List Call → ℕ
observed_bytes d calls = length (only d (observed calls))

-- What `finish` means to say of the calls on a job.
abbrev pub status_of : List Call → TransportStatus
status_of calls =
    if any_failed calls
    then local_write_failed_or_cancelled
    else if observed_bytes client_to_rch calls == drained_bytes client_to_rch calls
        && (observed_bytes rch_to_client calls == drained_bytes rch_to_client calls)
    then all_local_write_drains_completed
    else captured_delivery_unconfirmed

count_drained_lem :
    (d : Direction) (n : ℕ) (j : CapturedJob)
    → (let k = count_drained d n j in
        (k.bytes_captured_from_client ≡ j.bytes_captured_from_client)
        × (k.bytes_captured_from_printer ≡ j.bytes_captured_from_printer)
        × (k.bytes_local_write_drain_to_printer
            ≡ (if same_way client_to_rch d then n else 0) + j.bytes_local_write_drain_to_printer)
        × (k.bytes_local_write_drain_to_client
            ≡ (if same_way rch_to_client d then n else 0) + j.bytes_local_write_drain_to_client)
        × (k.transport_status ≡ j.transport_status))
unfolding count_drained
count_drained_lem client_to_rch n j = ground arith
count_drained_lem rch_to_client n j = ground arith

-- A drain counts for the direction of its token, and a failed one is not forgotten.
drain_lem :
    (token : CaptureToken) (completed : Bool) (at : Option ℕ) (error : Option Bytes)
    (j : CapturedJob)
    → (let k = mark_local_write_drain token completed at error j in
        (k.bytes_captured_from_client ≡ j.bytes_captured_from_client)
        × (k.bytes_captured_from_printer ≡ j.bytes_captured_from_printer)
        × (k.bytes_local_write_drain_to_printer
            ≡ (if completed && same_way client_to_rch token.direction then token.byte_count else 0)
              + j.bytes_local_write_drain_to_printer)
        × (k.bytes_local_write_drain_to_client
            ≡ (if completed && same_way rch_to_client token.direction then token.byte_count else 0)
              + j.bytes_local_write_drain_to_client)
        × (k.transport_status
            ≡ (if completed then j.transport_status else local_write_failed_or_cancelled)))
unfolding mark_local_write_drain
drain_lem token false at error j = ground arith
drain_lem token true at error j =
    let marked = record j { chunks = mark_chunk token.chunk_index true at error j.chunks } in
    count_drained_lem token.direction token.byte_count marked

-- The counters of a job after calls on it.
record IsCounted (calls : List Call) (j k : CapturedJob) : Type 0 where
  to_printer :
      k.bytes_local_write_drain_to_printer
      ≡ drained_bytes client_to_rch calls + j.bytes_local_write_drain_to_printer
  to_client :
      k.bytes_local_write_drain_to_client
      ≡ drained_bytes rch_to_client calls + j.bytes_local_write_drain_to_client
  from_client :
      k.bytes_captured_from_client
      ≡ observed_bytes client_to_rch calls + j.bytes_captured_from_client
  from_printer :
      k.bytes_captured_from_printer
      ≡ observed_bytes rch_to_client calls + j.bytes_captured_from_printer
  status :
      k.transport_status
      ≡ (if any_failed calls then local_write_failed_or_cancelled else j.transport_status)

observed-length :
    (d : Direction) (clock : Clock) (e : Direction) (p : Bytes) (o : Observation)
    (calls : List Call)
    → observed_bytes d (observe clock e p o ∷ calls) ≡ size_for d e p + observed_bytes d calls
unfolding observed
observed-length d clock e p o calls =
    ap length (only-append d (tagged e p) (observed calls))
    ∙ length-append (only d (tagged e p)) (only d (observed calls))

observe-IsCounted :
    (clock : Clock) (d : Direction) (p : Bytes) (o : Observation) (calls : List Call)
    (j k : CapturedJob)
    → IsCounted calls (append clock d p o j).1 k
    → IsCounted (observe clock d p o ∷ calls) j k
unfolding any_failed drained_bytes observed
observe-IsCounted clock d p o calls j k rest =
    let c = append-Captures clock d p o j in
    let client = observed-length client_to_rch clock d p o calls in
    let printer = observed-length rch_to_client clock d p o calls in
    let client' = rest.from_client in
    let printer' = rest.from_printer in
    let client'' = c.from_client in
    let printer'' = c.from_printer in
    record {
      to_printer = rest.to_printer ∙ ap (λ n. drained_bytes client_to_rch calls + n) c.to_printer;
      to_client = rest.to_client ∙ ap (λ n. drained_bytes rch_to_client calls + n) c.to_client;
      from_client = omega (arith, client, client', client'');
      from_printer = omega (arith, printer, printer', printer'');
      status =
          rest.status
          ∙ ap (λ t. if any_failed calls then local_write_failed_or_cancelled else t) c.status;
    }

failed_first :
    (t u : TransportStatus) (completed others : Bool)
    → (if others then u else if completed then t else u)
      ≡ (if not completed || others then u else t)
failed_first t u true others = refl
failed_first t u false true = refl
failed_first t u false false = refl

drain-IsCounted :
    (token : CaptureToken) (completed : Bool) (at : Option ℕ) (error : Option Bytes)
    (calls : List Call) (j k : CapturedJob)
    → IsCounted calls (mark_local_write_drain token completed at error j) k
    → IsCounted (drain token completed at error ∷ calls) j k
unfolding any_failed drained_bytes observed
drain-IsCounted token completed at error calls j k rest =
    let (client, printer, to_printer, to_client, status) = drain_lem token completed at error j in
    let a = rest.to_printer in
    let b = rest.to_client in
    record {
      to_printer = omega (arith, a, to_printer);
      to_client = omega (arith, b, to_client);
      from_client = rest.from_client ∙ ap (λ n. observed_bytes client_to_rch calls + n) client;
      from_printer = rest.from_printer ∙ ap (λ n. observed_bytes rch_to_client calls + n) printer;
      status =
          rest.status
          ∙ ap (λ t. if any_failed calls then local_write_failed_or_cancelled else t) status
          ∙ failed_first j.transport_status local_write_failed_or_cancelled completed
              (any_failed calls);
    }

perform_calls-IsCounted :
    (calls : List Call) (j : CapturedJob) → IsCounted calls j (perform_calls calls j)
unfolding perform_calls perform_call any_failed drained_bytes observed only
perform_calls-IsCounted [] j = ground arith
perform_calls-IsCounted (observe clock d p o ∷ calls) j =
    observe-IsCounted clock d p o calls j _ (perform_calls-IsCounted calls (append clock d p o j).1)
perform_calls-IsCounted (drain token completed at error ∷ calls) j =
    drain-IsCounted token completed at error calls j _
      (perform_calls-IsCounted calls (mark_local_write_drain token completed at error j))

-- The status that `finish` leaves on a new job after any calls, if its caller gives none: a failed
-- or cancelled local write is reported whatever came after it; otherwise all local writes are
-- reported as completed exactly if in each direction the bytes that were drained are as many as
-- those observed.
pub final_status-perform_calls :
    (id at max events : ℕ) (calls : List Call)
    → final_status none (perform_calls calls (new_job id at max events)) ≡ status_of calls
unfolding final_status
final_status-perform_calls id at max events calls =
    let k = perform_calls calls (new_job id at max events) in
    let c = perform_calls-IsCounted calls (new_job id at max events) in
    let a = c.to_printer in
    let b = c.to_client in
    let d = c.from_client in
    let e = c.from_printer in
    let a' : k.bytes_local_write_drain_to_printer ≡ drained_bytes client_to_rch calls =
      omega (arith, a) in
    let b' : k.bytes_local_write_drain_to_client ≡ drained_bytes rch_to_client calls =
      omega (arith, b) in
    let d' : k.bytes_captured_from_client ≡ observed_bytes client_to_rch calls = omega (arith, d) in
    let e' : k.bytes_captured_from_printer ≡ observed_bytes rch_to_client calls =
      omega (arith, e) in
    elim (Bool-cases (any_failed calls)) [
      | inl failed ↦ simp (c.status, failed) refl
      | inr none_failed ↦ simp (c.status, a', b', d', e', none_failed) refl
    ]
