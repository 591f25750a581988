-- ===== src/Capture/Drains.antt =====
-- `mark_local_write_drain` of src/commercialrchproxy/capture/jobs.py, and any calls on a job.
use commercial_rchproxy.Common.{
  ℕ, ◌+◌, suc, zero, Bool, true, false, ◌&&◌, Option, none, some, List, [], ◌∷◌, ◌++◌, Bytes,
  length, ◌==◌, ◌≡◌, refl, ap, ◌∙◌, subst, arith, append-nil, append_assoc,
}
use commercial_rchproxy.Capture.Types.{
  Direction, client_to_rch, rch_to_client, CapturedChunk, CaptureToken, CapturedJob, new_job,
}
use commercial_rchproxy.Capture.Jobs.{append, mark_local_write_drain, mark_chunk, count_drained}
use commercial_rchproxy.Capture.Stream.{
  Traffic, tagged, only, offset_in, traffic_of, tiles, Call, observe, drain, perform_call,
  perform_calls, observed, all_retain,
}
use commercial_rchproxy.Capture.Calls.{IsCaptured, new_job-IsCaptured, append-IsCaptured}

-- A drain marks one chunk, and leaves its bytes and its place.
mark_chunk_lem :
    (i : Option ℕ) (completed : Bool) (at : Option ℕ) (error : Option Bytes) (a b : ℕ)
    (cs : List CapturedChunk)
    → (let ds = mark_chunk i completed at error cs in
        (traffic_of ds ≡ traffic_of cs) × (length ds ≡ length cs) × (tiles a b ds ≡ tiles a b cs))
unfolding mark_chunk traffic_of tiles
mark_chunk_lem none completed at error a b cs = (refl, refl, refl)
mark_chunk_lem (some i) completed at error a b [] = (refl, refl, refl)
mark_chunk_lem (some zero) completed at error a b (c ∷ cs) = (refl, refl, refl)
mark_chunk_lem (some (suc i)) completed at error a b (c ∷ cs) =
    let (same, size, tiled) =
      mark_chunk_lem (some i) completed at error
        (a + length (only client_to_rch (tagged c.direction c.payload)))
        (b + length (only rch_to_client (tagged c.direction c.payload))) cs in
    (
      ap (λ t. tagged c.direction c.payload ++ t) same,
      ap suc size,
      ap (λ t. c.offset == offset_in c.direction a b && (c.byte_count == length c.payload) && t)
          tiled,
    )

-- The fields that the invariant reads are those that a drain leaves, but for the chunks.
drained-IsCaptured :
    {max events : ℕ} {seen : Traffic} (i : Option ℕ) (completed : Bool) (at : Option ℕ)
    (error : Option Bytes) (j : CapturedJob)
    → IsCaptured max events seen j
    → IsCaptured max events seen (record j { chunks = mark_chunk i completed at error j.chunks })
drained-IsCaptured i completed at error j c =
    let (same, size, tiled) = mark_chunk_lem i completed at error 0 0 j.chunks in
    let t = c.stored.1 in
    let bounded = t.bounded in
    record {
      limit = c.limit;
      event_limit = c.event_limit;
      stored = (
        c.stored.0,
        record {
          bounded = omega (arith, bounded, size);
          dropped = t.dropped;
          in_order = ap (λ q. q ++ t.dropped) same ∙ t.in_order;
          all_kept = t.all_kept;
          full = λ h. let f = t.full h in omega (arith, f, size);
          tiled = tiled ∙ t.tiled;
        },
      );
      from_client = c.from_client;
      from_printer = c.from_printer;
      complete = c.complete;
    }

count_drained-IsCaptured :
    {max events : ℕ} {seen : Traffic} (d : Direction) (n : ℕ) (j : CapturedJob)
    → IsCaptured max events seen j
    → IsCaptured max events seen (count_drained d n j)
unfolding count_drained
count_drained-IsCaptured client_to_rch n j c = record {
  limit = c.limit;
  event_limit = c.event_limit;
  stored = c.stored;
  from_client = c.from_client;
  from_printer = c.from_printer;
  complete = c.complete;
}
count_drained-IsCaptured rch_to_client n j c = record {
  limit = c.limit;
  event_limit = c.event_limit;
  stored = c.stored;
  from_client = c.from_client;
  from_printer = c.from_printer;
  complete = c.complete;
}

mark_local_write_drain-IsCaptured :
    {max events : ℕ} {seen : Traffic} (token : CaptureToken) (completed : Bool) (at : Option ℕ)
    (error : Option Bytes) (j : CapturedJob)
    → IsCaptured max events seen j
    → IsCaptured max events seen (mark_local_write_drain token completed at error j)
unfolding mark_local_write_drain
mark_local_write_drain-IsCaptured token true at error j c =
    count_drained-IsCaptured token.direction token.byte_count _
      (drained-IsCaptured token.chunk_index true at error j c)
mark_local_write_drain-IsCaptured token false at error j c =
    let d = drained-IsCaptured token.chunk_index false at error j c in
    record {
      limit = d.limit;
      event_limit = d.event_limit;
      stored = d.stored;
      from_client = d.from_client;
      from_printer = d.from_printer;
      complete = d.complete;
    }

perform_calls-IsCaptured :
    {max events : ℕ} (seen : Traffic) (calls : List Call) (j : CapturedJob)
    → all_retain calls ≡ true
    → IsCaptured max events seen j
    → IsCaptured max events (seen ++ observed calls) (perform_calls calls j)
unfolding perform_calls perform_call observed all_retain
perform_calls-IsCaptured seen [] j retain c = rw (append-nil seen) c
perform_calls-IsCaptured {max = max} {events = events} seen (observe clock d p o ∷ calls) j retain
      c =
    let after = append-IsCaptured clock d p o j (ground (arith, retain)) c in
    let all =
      perform_calls-IsCaptured (seen ++ tagged d p) calls (append clock d p o j).1
        (ground (arith, retain)) after in
    subst (λ t. IsCaptured max events t (perform_calls calls (append clock d p o j).1))
      (append_assoc seen (tagged d p) (observed calls)) all
perform_calls-IsCaptured seen (drain token completed at error ∷ calls) j retain c =
    perform_calls-IsCaptured seen calls _ retain
      (mark_local_write_drain-IsCaptured token completed at error j c)

-- After any calls on a new job, in any order and with drains among them, the job holds the first
-- bytes of the observed traffic up to the payload limit: each payload is what these bytes have in
-- its direction, the chunks are a first part of them with offsets that tile, bounded in number, and
-- all of them while the timeline is complete. The bytes of each direction are counted, and the
-- capture is complete exactly if the limit admits all the traffic. Every call retains its payload.
pub perform_calls-new_job :
    (id at max events : ℕ) (calls : List Call)
    → all_retain calls ≡ true
    → IsCaptured max events (observed calls) (perform_calls calls (new_job id at max events))
perform_calls-new_job id at max events calls retain =
    perform_calls-IsCaptured [] calls (new_job id at max events) retain
      (new_job-IsCaptured id at max events)
