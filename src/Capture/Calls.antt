-- ===== src/Capture/Calls.antt =====
-- `append` of src/commercialrchproxy/capture/jobs.py against the traffic that a job has seen.
use commercial_rchproxy.Common.{
  take-nil, take_of_append, ℕ, ◌+◌, ◌-◌, ◌<◌, min, Bool, true, false, not, ◌&&◌, Option, [], ◌∷◌,
  ◌++◌, Bytes, length, take, ltb, leb, ◌==◌, ◌≡◌, refl, sym, ap, ◌∙◌, subst, inl, inr, Bool-cases,
  arith, append-nil, length-append, length-take,
}
use commercial_rchproxy.Capture.Types.{
  Direction, client_to_rch, rch_to_client, CapturedChunk, CapturedJob, Clock, Observation, new_job,
}
use commercial_rchproxy.Capture.Jobs.{
  append, count_captured, admitted, keep, store, record_chunk, note_partial,
}
use commercial_rchproxy.Capture.Stream.{Traffic, tagged, same_way, only, traffic_of, tiles}
use commercial_rchproxy.Capture.Traffic.{
  only-append, only-tagged, only-other, length-tagged, take-tagged, length-only,
}
use commercial_rchproxy.Capture.Stored.{
  IsStored, count_captured-IsStored, note_partial-IsStored, keep-IsStored,
}

-- The job has seen the traffic `seen`, of which it stores the first `max` bytes.
pub record IsCaptured (max events : ℕ) (seen : Traffic) (j : CapturedJob) : Type 0 where
  pub limit : j.max_payload_bytes ≡ max
  pub event_limit : j.max_capture_events ≡ events
  pub stored : IsStored (take max seen) j
  pub from_client : j.bytes_captured_from_client ≡ length (only client_to_rch seen)
  pub from_printer : j.bytes_captured_from_printer ≡ length (only rch_to_client seen)
  pub complete : j.capture_complete ≡ leb (length seen) max

pub new_job-IsCaptured :
    (id at max events : ℕ) → IsCaptured max events [] (new_job id at max events)
unfolding only traffic_of tiles
new_job-IsCaptured id at max events = record {
  limit = refl;
  event_limit = refl;
  stored = rw (take-nil {A = Direction × ℕ} max) (
    record { request_same = refl; response_same = refl; client_count = refl; printer_count = refl },
    record {
      bounded = omega arith;
      dropped = [];
      in_order = refl;
      all_kept = λ _. refl;
      full = λ h. ground (arith, h);
      tiled = refl;
    },
  );
  from_client = refl;
  from_printer = refl;
  complete = ground arith;
}

-- What storing bytes leaves as it was.
record Kept (j k : CapturedJob) : Type 0 where
  limit : k.max_payload_bytes ≡ j.max_payload_bytes
  event_limit : k.max_capture_events ≡ j.max_capture_events
  from_client : k.bytes_captured_from_client ≡ j.bytes_captured_from_client
  from_printer : k.bytes_captured_from_printer ≡ j.bytes_captured_from_printer
  complete : k.capture_complete ≡ j.capture_complete

record_chunk-Kept : (c : CapturedChunk) (j : CapturedJob) → Kept j (record_chunk c j).1
unfolding record_chunk
record_chunk-Kept c j = elim (Bool-cases (ltb (length j.chunks) j.max_capture_events)) [
  | inl room ↦ simp room (record {
    limit = refl;
    event_limit = refl;
    from_client = refl;
    from_printer = refl;
    complete = refl;
  })
  | inr none_left ↦ simp none_left (record {
    limit = refl;
    event_limit = refl;
    from_client = refl;
    from_printer = refl;
    complete = refl;
  })
]

keep-Kept :
    (clock : Clock) (d : Direction) (p : Bytes) (o : Observation) (j : CapturedJob)
    → Kept j (keep clock d p o j).1
unfolding keep store
keep-Kept clock d [] o j = record {
  limit = refl;
  event_limit = refl;
  from_client = refl;
  from_printer = refl;
  complete = refl;
}
keep-Kept clock client_to_rch (b ∷ p) o j =
    let k = record_chunk-Kept _ (store client_to_rch (b ∷ p) o.retain_payload j) in
    record {
      limit = k.limit;
      event_limit = k.event_limit;
      from_client = k.from_client;
      from_printer = k.from_printer;
      complete = k.complete;
    }
keep-Kept clock rch_to_client (b ∷ p) o j =
    let k = record_chunk-Kept _ (store rch_to_client (b ∷ p) o.retain_payload j) in
    record {
      limit = k.limit;
      event_limit = k.event_limit;
      from_client = k.from_client;
      from_printer = k.from_printer;
      complete = k.complete;
    }

-- The limit admits of new data what it admits of the whole traffic.
admitted-take :
    {max events : ℕ} {seen : Traffic} {j : CapturedJob} (d : Direction) (p : Bytes)
    → IsCaptured max events seen j
    → take max seen ++ tagged d (admitted j p) ≡ take max (seen ++ tagged d p)
admitted-take {max = max} {seen = seen} {j = j} d p c =
    let all = length-only (take max seen) in
    let some_kept = length-take max seen in
    let left : max - length seen
        ≡ j.max_payload_bytes - (j.bytes_stored_from_client + j.bytes_stored_from_printer) =
      omega (arith, all, some_kept, c.limit, c.stored.0.client_count, c.stored.0.printer_count) in
    sym (
      take_of_append max seen (tagged d p)
      ∙ ap (λ t. take max seen ++ t)
          (take-tagged d (max - length seen) p ∙ ap (λ n. tagged d (take n p)) left))

-- How many bytes of a direction there are once data of the same direction, or of the other one, is
-- added.
grown_same :
    (d : Direction) (seen : Traffic) (p : Bytes) (n : ℕ)
    → n ≡ length (only d seen)
    → n + length p ≡ length (only d (seen ++ tagged d p))
grown_same d seen p n count =
    ap (λ k. k + length p) count
    ∙ sym (
        ap length (only-append d seen (tagged d p) ∙ ap (λ q. only d seen ++ q) (only-tagged d p))
        ∙ length-append (only d seen) p)

grown_other :
    (d e : Direction) (seen : Traffic) (p : Bytes) (n : ℕ)
    → same_way d e ≡ false
    → n ≡ length (only d seen)
    → n ≡ length (only d (seen ++ tagged e p))
grown_other d e seen p n other count =
    count
    ∙ ap length (
        sym (
          only-append d seen (tagged e p)
          ∙ ap (λ q. only d seen ++ q) (only-other d e p other)
          ∙ append-nil (only d seen)))

count_captured_lem :
    (d : Direction) (p : Bytes) (received : Option ℕ) (j : CapturedJob) (seen : Traffic)
    → j.bytes_captured_from_client ≡ length (only client_to_rch seen)
    → j.bytes_captured_from_printer ≡ length (only rch_to_client seen)
    → (let k = count_captured d (length p) received j in
        (k.bytes_captured_from_client ≡ length (only client_to_rch (seen ++ tagged d p)))
        × (k.bytes_captured_from_printer ≡ length (only rch_to_client (seen ++ tagged d p)))
        × (k.max_payload_bytes ≡ j.max_payload_bytes)
        × (k.max_capture_events ≡ j.max_capture_events)
        × (k.capture_complete ≡ j.capture_complete))
unfolding count_captured
count_captured_lem client_to_rch p received j seen client printer = (
  grown_same client_to_rch seen p _ client,
  grown_other rch_to_client client_to_rch seen p _ refl printer,
  refl,
  refl,
  refl,
)
count_captured_lem rch_to_client p received j seen client printer = (
  grown_other client_to_rch rch_to_client seen p _ refl client,
  grown_same rch_to_client seen p _ printer,
  refl,
  refl,
  refl,
)

note_partial_lem :
    (partial : Bool) (j : CapturedJob)
    → (let k = note_partial partial j in
        (k.bytes_captured_from_client ≡ j.bytes_captured_from_client)
        × (k.bytes_captured_from_printer ≡ j.bytes_captured_from_printer)
        × (k.max_payload_bytes ≡ j.max_payload_bytes)
        × (k.max_capture_events ≡ j.max_capture_events)
        × (k.capture_complete ≡ not partial && j.capture_complete))
unfolding note_partial
note_partial_lem true j = (refl, refl, refl, refl, refl)
note_partial_lem false j = (refl, refl, refl, refl, refl)

-- The capture is complete as long as the limit admits all the data.
complete_after :
    (max n m k : ℕ)
    → 0 < m
    → k ≡ min (max - min max n) m
    → not (not (k == m)) && leb n max ≡ leb (n + m) max
complete_after max n m k some_data stored = ground (arith, stored)

length-admitted :
    {max events : ℕ} {seen : Traffic} {j : CapturedJob} (p : Bytes)
    → IsCaptured max events seen j
    → length (admitted j p) ≡ min (max - min max (length seen)) (length p)
length-admitted {max = max} {seen = seen} {j = j} p c =
    let all = length-only (take max seen) in
    let some_kept = length-take max seen in
    let e =
      length-take (j.max_payload_bytes - (j.bytes_stored_from_client + j.bytes_stored_from_printer))
        p in
    let client = c.stored.0.client_count in
    let printer = c.stored.0.printer_count in
    let limit = c.limit in omega (arith, all, some_kept, e, client, printer, limit)

pub append-IsCaptured :
    {max events : ℕ} {seen : Traffic} (clock : Clock) (d : Direction) (p : Bytes) (o : Observation)
    (j : CapturedJob)
    → o.retain_payload ≡ true
    → IsCaptured max events seen j
    → IsCaptured max events (seen ++ tagged d p) (append clock d p o j).1
unfolding append
append-IsCaptured {seen = seen} clock d [] o j retains c = rw (append-nil seen) c
append-IsCaptured {max = max} {seen = seen} clock d (b ∷ p) o j retains c =
    let chunk = b ∷ p in
    let stored = admitted j chunk in
    let (client, printer, limit, event_limit, complete) =
      count_captured_lem d chunk o.received_unix_ns j seen c.from_client c.from_printer in
    let counted = count_captured d (length chunk) o.received_unix_ns j in
    let kept = keep-Kept clock d stored o counted in
    let (client', printer', limit', event_limit', complete') =
      note_partial_lem (not (length stored == length chunk)) (keep clock d stored o counted).1 in
    let grown =
      keep-IsStored clock d stored o counted retains
        (count_captured-IsStored j d (length chunk) o.received_unix_ns c.stored) in
    record {
      limit = limit' ∙ kept.limit ∙ limit ∙ c.limit;
      event_limit = event_limit' ∙ kept.event_limit ∙ event_limit ∙ c.event_limit;
      stored = note_partial-IsStored _ (not (length stored == length chunk)) (
          subst (λ t. IsStored t (keep clock d stored o counted).1) (admitted-take d chunk c)
            grown);
      from_client = client' ∙ kept.from_client ∙ client;
      from_printer = printer' ∙ kept.from_printer ∙ printer;
      complete =
          complete'
          ∙ ap (λ x. not (not (length stored == length chunk)) && x)
              (kept.complete ∙ complete ∙ c.complete)
          ∙ complete_after max (length seen) (length chunk) (length stored) (omega arith)
              (length-admitted chunk c)
          ∙ ap (λ n. leb n max)
              (sym (
                length-append seen (tagged d chunk)
                ∙ ap (λ n. length seen + n) (length-tagged d chunk)));
    }
