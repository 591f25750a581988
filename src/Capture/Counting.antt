-- ===== src/Capture/Counting.antt =====
-- What `append` of src/commercialrchproxy/capture/jobs.py counts, and the drains that it leaves.
use commercial_rchproxy.Common.{
  ℕ, ◌+◌, Bool, not, Option, [], ◌∷◌, Bytes, length, ◌==◌, ◌≡◌, refl, ◌∙◌, arith,
}
use commercial_rchproxy.Capture.Types.{
  Direction, client_to_rch, rch_to_client, CapturedChunk, CapturedJob, Clock, Observation,
}
use commercial_rchproxy.Capture.Jobs.{
  append, count_captured, admitted, keep, store, stored_in, chunk_of, record_chunk, note_partial,
}
use commercial_rchproxy.Capture.Stream.{tagged, only}
use commercial_rchproxy.Capture.Traffic.{only-tagged, only-other}

-- So many bytes more are captured of the two directions, and nothing is drained.
pub record Captures (client printer : ℕ) (j k : CapturedJob) : Type 0 where
  pub to_printer : k.bytes_local_write_drain_to_printer ≡ j.bytes_local_write_drain_to_printer
  pub to_client : k.bytes_local_write_drain_to_client ≡ j.bytes_local_write_drain_to_client
  pub status : k.transport_status ≡ j.transport_status
  pub from_client : k.bytes_captured_from_client ≡ j.bytes_captured_from_client + client
  pub from_printer : k.bytes_captured_from_printer ≡ j.bytes_captured_from_printer + printer

record_chunk-Captures : (c : CapturedChunk) (j : CapturedJob) → Captures 0 0 j (record_chunk c j).1
unfolding record_chunk
record_chunk-Captures c j = ground arith

store-Captures :
    (d : Direction) (p : Bytes) (retain : Bool) (j : CapturedJob)
    → Captures 0 0 j (store d p retain j)
unfolding store
store-Captures client_to_rch p retain j = ground arith
store-Captures rch_to_client p retain j = ground arith

note_partial-Captures : (partial : Bool) (j : CapturedJob) → Captures 0 0 j (note_partial partial j)
unfolding note_partial
note_partial-Captures partial j = ground arith

Captures-trans :
    {a b c d : ℕ} (j k l : CapturedJob)
    → Captures a b j k
    → Captures c d k l
    → Captures (a + c) (b + d) j l
Captures-trans j k l first second =
    let client = first.from_client in
    let client' = second.from_client in
    let printer = first.from_printer in
    let printer' = second.from_printer in
    record {
      to_printer = second.to_printer ∙ first.to_printer;
      to_client = second.to_client ∙ first.to_client;
      status = second.status ∙ first.status;
      from_client = omega (arith, client, client');
      from_printer = omega (arith, printer, printer');
    }

Captures-none_more :
    {a b : ℕ} (j k : CapturedJob) → Captures (a + (0 + 0)) (b + (0 + 0)) j k → Captures a b j k
Captures-none_more j k c =
    let client = c.from_client in
    let printer = c.from_printer in
    record {
      to_printer = c.to_printer;
      to_client = c.to_client;
      status = c.status;
      from_client = omega (arith, client);
      from_printer = omega (arith, printer);
    }

keep-Captures :
    (clock : Clock) (d : Direction) (p : Bytes) (o : Observation) (j : CapturedJob)
    → Captures 0 0 j (keep clock d p o j).1
unfolding keep
keep-Captures clock d [] o j = ground arith
keep-Captures clock d (b ∷ p) o j =
    Captures-trans j (store d (b ∷ p) o.retain_payload j) _
      (store-Captures d (b ∷ p) o.retain_payload j)
      (record_chunk-Captures (chunk_of clock d (b ∷ p) o (stored_in d j) (length j.chunks))
        (store d (b ∷ p) o.retain_payload j))

-- The length of the data counts for its direction.
abbrev pub size_for : Direction → Direction → Bytes → ℕ
size_for d e p = length (only d (tagged e p))

count_captured-Captures :
    (d : Direction) (p : Bytes) (received : Option ℕ) (j : CapturedJob)
    → Captures
        (size_for client_to_rch d p)
        (size_for rch_to_client d p)
        j
        (count_captured d (length p) received j)
unfolding count_captured
count_captured-Captures client_to_rch p received j =
    rw (only-tagged client_to_rch p, only-other rch_to_client client_to_rch p refl) (ground arith)
count_captured-Captures rch_to_client p received j =
    rw (only-tagged rch_to_client p, only-other client_to_rch rch_to_client p refl) (ground arith)

pub append-Captures :
    (clock : Clock) (d : Direction) (p : Bytes) (o : Observation) (j : CapturedJob)
    → Captures (size_for client_to_rch d p) (size_for rch_to_client d p) j (append clock d p o j).1
unfolding append only
append-Captures clock client_to_rch [] o j = ground arith
append-Captures clock rch_to_client [] o j = ground arith
append-Captures clock d (b ∷ p) o j =
    let counted = count_captured d (length (b ∷ p)) o.received_unix_ns j in
    let stored = admitted j (b ∷ p) in
    let k = (keep clock d stored o counted).1 in
    let partial = not (length stored == length (b ∷ p)) in
    let first = count_captured-Captures d (b ∷ p) o.received_unix_ns j in
    let rest =
      Captures-trans counted k (note_partial partial k) (keep-Captures clock d stored o counted)
        (note_partial-Captures partial k) in
    let all = Captures-trans j counted (note_partial partial k) first rest in
    Captures-none_more j (note_partial partial k) all
