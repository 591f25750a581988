-- ===== src/Capture/Streaming.antt =====
-- A job of src/commercialrchproxy/capture/jobs.py whose payload goes to the live spool: `append` is
-- called with `retain_payload=False`.
use commercial_rchproxy.Common.{
  ℕ, ◌+◌, Bool, true, false, not, Option, none, some, List, [], ◌∷◌, map, map-append, Bytes, length,
  ltb, ◌==◌, ◌≡◌, refl, sym, ap, ◌∙◌, inl, inr, Bool-cases, suc, zero,
}
use commercial_rchproxy.Capture.Types.{
  Direction, client_to_rch, rch_to_client, CapturedChunk, CaptureToken, CapturedJob,
  local_write_failed_or_cancelled, Clock, Observation,
}
use commercial_rchproxy.Capture.Jobs.{
  append, count_captured, admitted, keep, store, record_chunk, note_partial, mark_local_write_drain,
  mark_chunk, count_drained, chunk_of, or_else,
}
use commercial_rchproxy.Capture.Stream.{Call, observe, drain, perform_call, perform_calls}

abbrev pub without_payload : CapturedChunk → CapturedChunk
without_payload c = record c { payload = [] }

-- The job without the bytes that it holds.
abbrev pub forget : CapturedJob → CapturedJob
forget j = record j { request = []; response = []; chunks = map without_payload j.chunks }

-- The call with `retain_payload` set.
unfoldable pub with_retain : Bool → Call → Call
with_retain retain (observe clock d p o) = observe clock d p (record o { retain_payload = retain })
with_retain retain (drain token completed at error) = drain token completed at error

length-map {ℓ} : {A : Type ℓ} (f : A → A) (xs : List A) → length (map f xs) ≡ length xs
length-map f [] = refl
length-map f (x ∷ xs) = ap suc (length-map f xs)

record_chunk-forget :
    (c : CapturedChunk) (j : CapturedJob)
    → (let (i, k) = record_chunk c j in record_chunk (without_payload c) (forget j) ≡ (i, forget k))
unfolding record_chunk
record_chunk-forget c j = elim (Bool-cases (ltb (length j.chunks) j.max_capture_events)) [
  | inl room ↦
      simp (length-map without_payload j.chunks, room)
        (ap (λ cs. (some (length j.chunks), record j { request = []; response = []; chunks = cs }))
          (sym (map-append without_payload j.chunks (c ∷ []))))
  | inr no_room ↦ simp (length-map without_payload j.chunks, no_room) refl
]

store-forget :
    (d : Direction) (p : Bytes) (j : CapturedJob)
    → store d p false (forget j) ≡ forget (store d p true j)
unfolding store
store-forget client_to_rch p j = refl
store-forget rch_to_client p j = refl

chunk_of-forget :
    (clock : Clock) (d : Direction) (p : Bytes) (o : Observation) (j : CapturedJob) (offset : ℕ)
    → (let (i, k) =
          record_chunk
            (chunk_of clock d p (record o { retain_payload = true }) offset (length j.chunks))
            (store d p true j) in
        record_chunk
          (chunk_of clock d p
            (record o { retain_payload = false })
            offset
            (length (forget j).chunks))
          (store d p false (forget j))
        ≡ (i, forget k))
chunk_of-forget clock d p o j offset =
    let c = chunk_of clock d p (record o { retain_payload = true }) offset (length j.chunks) in
    ap
      (λ n.
        record_chunk (record c { sequence = or_else o.sequence (n + 1); payload = [] })
          (store d p false (forget j)))
      (length-map without_payload j.chunks)
    ∙ ap (record_chunk (without_payload c)) (store-forget d p j)
    ∙ record_chunk-forget c (store d p true j)

keep-forget :
    (clock : Clock) (d : Direction) (p : Bytes) (o : Observation) (j : CapturedJob)
    → (let (i, k) = keep clock d p (record o { retain_payload = true }) j in
        keep clock d p (record o { retain_payload = false }) (forget j) ≡ (i, forget k))
unfolding keep
keep-forget clock d [] o j = refl
keep-forget clock client_to_rch (b ∷ p) o j =
    chunk_of-forget clock client_to_rch (b ∷ p) o j j.bytes_stored_from_client
keep-forget clock rch_to_client (b ∷ p) o j =
    chunk_of-forget clock rch_to_client (b ∷ p) o j j.bytes_stored_from_printer

count_captured-forget :
    (d : Direction) (n : ℕ) (received : Option ℕ) (j : CapturedJob)
    → count_captured d n received (forget j) ≡ forget (count_captured d n received j)
unfolding count_captured
count_captured-forget client_to_rch n received j = refl
count_captured-forget rch_to_client n received j = refl

note_partial-forget :
    (partial : Bool) (j : CapturedJob)
    → note_partial partial (forget j) ≡ forget (note_partial partial j)
unfolding note_partial
note_partial-forget true j = refl
note_partial-forget false j = refl

append-forget :
    (clock : Clock) (d : Direction) (p : Bytes) (o : Observation) (j : CapturedJob)
    → (let (i, k) = append clock d p (record o { retain_payload = true }) j in
        append clock d p (record o { retain_payload = false }) (forget j) ≡ (i, forget k))
unfolding append
append-forget clock d [] o j = refl
append-forget clock d (b ∷ p) o j =
    let counted = count_captured d (length (b ∷ p)) o.received_unix_ns j in
    let stored = admitted j (b ∷ p) in
    let partial = not (length stored == length (b ∷ p)) in
    let (i, k) = keep clock d stored (record o { retain_payload = true }) counted in
    ap
      (λ h.
        (let (i', k') = keep clock d stored (record o { retain_payload = false }) h in
          (i', note_partial partial k')))
      (count_captured-forget d (length (b ∷ p)) o.received_unix_ns j)
    ∙ ap (λ r. (r.0, note_partial partial r.1)) (keep-forget clock d stored o counted)
    ∙ ap (λ h. (i, h)) (note_partial-forget partial k)

mark_chunk-forget :
    (i : Option ℕ) (completed : Bool) (at : Option ℕ) (error : Option Bytes)
    (cs : List CapturedChunk)
    → mark_chunk i completed at error (map without_payload cs)
      ≡ map without_payload (mark_chunk i completed at error cs)
unfolding mark_chunk
mark_chunk-forget none completed at error cs = refl
mark_chunk-forget (some i) completed at error [] = refl
mark_chunk-forget (some zero) completed at error (c ∷ cs) = refl
mark_chunk-forget (some (suc i)) completed at error (c ∷ cs) =
    ap (λ ds. without_payload c ∷ ds) (mark_chunk-forget (some i) completed at error cs)

count_drained-forget :
    (d : Direction) (n : ℕ) (j : CapturedJob)
    → count_drained d n (forget j) ≡ forget (count_drained d n j)
unfolding count_drained
count_drained-forget client_to_rch n j = refl
count_drained-forget rch_to_client n j = refl

drain-forget :
    (token : CaptureToken) (completed : Bool) (at : Option ℕ) (error : Option Bytes)
    (j : CapturedJob)
    → mark_local_write_drain token completed at error (forget j)
      ≡ forget (mark_local_write_drain token completed at error j)
unfolding mark_local_write_drain
drain-forget token true at error j =
    ap
      (λ cs.
        count_drained token.direction token.byte_count
          (record j { request = []; response = []; chunks = cs }))
      (mark_chunk-forget token.chunk_index true at error j.chunks)
    ∙ count_drained-forget token.direction token.byte_count
        (record j { chunks = mark_chunk token.chunk_index true at error j.chunks })
drain-forget token false at error j =
    ap
      (λ cs. record j {
        request = [];
        response = [];
        chunks = cs;
        transport_status = local_write_failed_or_cancelled;
      })
      (mark_chunk-forget token.chunk_index false at error j.chunks)

-- A job that leaves its payload to the live spool goes through the same states as one that retains
-- it, calls being otherwise the same, except that it holds no bytes: the counters, the limits, the
-- chunks with their offsets, sizes and digests, the errors and the status are the same.
pub perform_calls-forget :
    (calls : List Call) (j : CapturedJob)
    → perform_calls (map (with_retain false) calls) (forget j)
      ≡ forget (perform_calls (map (with_retain true) calls) j)
unfolding perform_calls perform_call with_retain
perform_calls-forget [] j = refl
perform_calls-forget (observe clock d p o ∷ calls) j =
    ap (λ r. perform_calls (map (with_retain false) calls) r.1) (append-forget clock d p o j)
    ∙ perform_calls-forget calls (append clock d p (record o { retain_payload = true }) j).1
perform_calls-forget (drain token completed at error ∷ calls) j =
    ap (perform_calls (map (with_retain false) calls)) (drain-forget token completed at error j)
    ∙ perform_calls-forget calls (mark_local_write_drain token completed at error j)
