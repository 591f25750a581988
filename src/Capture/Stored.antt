-- ===== src/Capture/Stored.antt =====
-- What a job of src/commercialrchproxy/capture/jobs.py holds after any calls on it.
use commercial_rchproxy.Common.{
  ℕ, ◌+◌, ◌≤◌, ◌<◌, Bool, true, false, Option, List, [], ◌∷◌, ◌++◌, Bytes, length, ltb, ◌≡◌, refl,
  sym, ap, ◌∙◌, inl, inr, Bool-cases, ltb→lt, ltb→le, arith, append-nil, append_assoc,
  length-append,
}
use commercial_rchproxy.Capture.Types.{
  Direction, client_to_rch, rch_to_client, CapturedChunk, CapturedJob, Clock, Observation,
}
use commercial_rchproxy.Capture.Jobs.{
  count_captured, keep, store, record_chunk, chunk_of, note_partial,
}
use commercial_rchproxy.Capture.Stream.{
  Traffic, tagged, same_way, only, offset_in, traffic_of, tiles,
}
use commercial_rchproxy.Capture.Traffic.{
  only-append, only-tagged, only-other, traffic_of-append, tiles-append,
}

-- The two payloads are the bytes of each direction of the traffic `kept`, and are counted.
pub record IsPayload (kept : Traffic) (request response : Bytes) (client printer : ℕ) : Type 0 where
  pub request_same : request ≡ only client_to_rch kept
  pub response_same : response ≡ only rch_to_client kept
  pub client_count : client ≡ length (only client_to_rch kept)
  pub printer_count : printer ≡ length (only rch_to_client kept)

-- The chunks are a first part of the traffic `kept` in its order, with offsets that tile it, and
-- all of it while the timeline is whole.
pub record IsTimeline (kept : Traffic) (chunks : List CapturedChunk) (max : ℕ) (whole : Bool)
    : Type 0 where
  pub bounded : length chunks ≤ max
  pub dropped : Traffic
  pub in_order : traffic_of chunks ++ dropped ≡ kept
  pub all_kept : whole ≡ true → dropped ≡ []
  pub full : whole ≡ false → max ≤ length chunks
  pub tiled : tiles 0 0 chunks ≡ true

abbrev pub IsStored : Traffic → CapturedJob → Type 0
IsStored kept j =
    IsPayload kept j.request j.response j.bytes_stored_from_client j.bytes_stored_from_printer
    × IsTimeline kept j.chunks j.max_capture_events j.timeline_complete

pub count_captured-IsStored :
    {kept : Traffic} (j : CapturedJob) (d : Direction) (n : ℕ) (received : Option ℕ)
    → IsStored kept j
    → IsStored kept (count_captured d n received j)
unfolding count_captured
count_captured-IsStored j client_to_rch n received s = s
count_captured-IsStored j rch_to_client n received s = s

pub note_partial-IsStored :
    {kept : Traffic} (j : CapturedJob) (partial : Bool)
    → IsStored kept j
    → IsStored kept (note_partial partial j)
unfolding note_partial
note_partial-IsStored j false s = s
note_partial-IsStored j true s = s

-- How the payload of a direction grows.
only-append_same :
    (kept : Traffic) (d : Direction) (n : ℕ) (p : Bytes)
    → n ≡ length (only d kept)
    → (only d kept ++ p ≡ only d (kept ++ tagged d p))
      × (n + length p ≡ length (only d (kept ++ tagged d p)))
only-append_same kept d n p count =
    let e : only d kept ++ p ≡ only d (kept ++ tagged d p) =
      sym (only-append d kept (tagged d p) ∙ ap (λ q. only d kept ++ q) (only-tagged d p)) in
    (e, ap (λ k. k + length p) count ∙ sym (length-append (only d kept) p) ∙ ap length e)

only-append_other :
    (kept : Traffic) (d e : Direction) (p : Bytes)
    → same_way d e ≡ false
    → only d (kept ++ tagged e p) ≡ only d kept
only-append_other kept d e p other =
    only-append d kept (tagged e p)
    ∙ ap (λ q. only d kept ++ q) (only-other d e p other)
    ∙ append-nil (only d kept)

-- The payload of one direction grows, and that of the other one is left.
store-IsPayload :
    {kept : Traffic} (j : CapturedJob) (d : Direction) (p : Bytes)
    → IsPayload kept j.request j.response j.bytes_stored_from_client j.bytes_stored_from_printer
    → (let k = store d p true j in
        IsPayload
          (kept ++ tagged d p)
          k.request
          k.response
          k.bytes_stored_from_client
          k.bytes_stored_from_printer)
unfolding store
store-IsPayload {kept = kept} j client_to_rch p s =
    let (same, count) = only-append_same kept client_to_rch _ p s.client_count in
    let other = only-append_other kept rch_to_client client_to_rch p refl in
    record {
      request_same = ap (λ q. q ++ p) s.request_same ∙ same;
      response_same = s.response_same ∙ sym other;
      client_count = count;
      printer_count = s.printer_count ∙ ap length (sym other);
    }
store-IsPayload {kept = kept} j rch_to_client p s =
    let (same, count) = only-append_same kept rch_to_client _ p s.printer_count in
    let other = only-append_other kept client_to_rch rch_to_client p refl in
    record {
      request_same = s.request_same ∙ sym other;
      response_same = ap (λ q. q ++ p) s.response_same ∙ same;
      client_count = s.client_count ∙ ap length (sym other);
      printer_count = count;
    }

offset_in-zero : (d : Direction) (a b : ℕ) → offset_in d a b ≡ offset_in d (0 + a) (0 + b)
offset_in-zero client_to_rch a b = omega arith
offset_in-zero rch_to_client a b = omega arith

-- One more tile for the timeline that a chunk is recorded in.
extend-IsTimeline :
    {kept : Traffic} {chunks : List CapturedChunk} {max : ℕ} {whole : Bool} (c : CapturedChunk)
    → IsTimeline kept chunks max whole
    → length chunks < max
    → c.offset
      ≡ offset_in c.direction (length (only client_to_rch kept)) (length (only rch_to_client kept))
    → c.byte_count ≡ length c.payload
    → IsTimeline (kept ++ tagged c.direction c.payload) (chunks ++ (c ∷ [])) max whole
unfolding traffic_of
extend-IsTimeline {kept = kept} {chunks = chunks} {max = max} {whole = whole} c s room at size =
    let none_dropped : s.dropped ≡ [] = elim (Bool-cases whole) [
      | inl complete ↦ s.all_kept complete
      | inr partial ↦ let limit = s.full partial in absurd (omega (arith, limit, room))
    ] in
    let same : traffic_of chunks ≡ kept =
      sym (append-nil (traffic_of chunks))
      ∙ ap (λ t. traffic_of chunks ++ t) (sym none_dropped)
      ∙ s.in_order in
    let at' =
      at
      ∙ ap
          (λ t.
            offset_in c.direction (length (only client_to_rch t)) (length (only rch_to_client t)))
          (sym same) in
    let size_more = length-append chunks (c ∷ []) in
    record {
      bounded = omega (arith, size_more, room);
      dropped = [];
      in_order =
          append-nil (traffic_of (chunks ++ (c ∷ [])))
          ∙ traffic_of-append chunks (c ∷ [])
          ∙ ap (λ t. traffic_of chunks ++ t) (append-nil (tagged c.direction c.payload))
          ∙ ap (λ t. t ++ tagged c.direction c.payload) same;
      all_kept = λ _. refl;
      full = λ partial. let limit = s.full partial in omega (arith, limit, room);
      tiled = tiles-append 0 0 chunks c s.tiled (at' ∙ offset_in-zero c.direction _ _) size;
    }

-- Bytes that the full timeline lacks.
miss-IsTimeline :
    {kept : Traffic} {chunks : List CapturedChunk} {max : ℕ} {whole : Bool} (t : Traffic)
    → IsTimeline kept chunks max whole
    → max ≤ length chunks
    → IsTimeline (kept ++ t) chunks max false
miss-IsTimeline {chunks = chunks} t s no_room = record {
  bounded = s.bounded;
  dropped = s.dropped ++ t;
  in_order = sym (append_assoc (traffic_of chunks) s.dropped t) ∙ ap (λ q. q ++ t) s.in_order;
  all_kept = λ h. ground (arith, h);
  full = λ _. no_room;
  tiled = s.tiled;
}

-- A chunk whose bytes are stored is recorded, or the timeline becomes partial.
record_chunk-IsStored :
    {kept : Traffic} (j : CapturedJob) (c : CapturedChunk)
    → IsPayload
        (kept ++ tagged c.direction c.payload)
        j.request
        j.response
        j.bytes_stored_from_client
        j.bytes_stored_from_printer
    → IsTimeline kept j.chunks j.max_capture_events j.timeline_complete
    → c.offset
      ≡ offset_in c.direction (length (only client_to_rch kept)) (length (only rch_to_client kept))
    → c.byte_count ≡ length c.payload
    → IsStored (kept ++ tagged c.direction c.payload) (record_chunk c j).1
unfolding record_chunk
record_chunk-IsStored j c payload s at size =
    elim (Bool-cases (ltb (length j.chunks) j.max_capture_events)) [
      | inl room ↦ simp room (payload, extend-IsTimeline c s (ltb→lt _ _ room) at size)
      | inr no_room ↦
          simp no_room
            (payload, miss-IsTimeline (tagged c.direction c.payload) s (ltb→le _ _ no_room))
    ]

pub keep-IsStored :
    {kept : Traffic} (clock : Clock) (d : Direction) (p : Bytes) (o : Observation) (j : CapturedJob)
    → o.retain_payload ≡ true
    → IsStored kept j
    → IsStored (kept ++ tagged d p) (keep clock d p o j).1
unfolding keep store
keep-IsStored {kept = kept} clock d [] o j retains s = rw (append-nil kept) s
keep-IsStored clock client_to_rch (b ∷ p) o j retains (payload, timeline) = simp retains (
    record_chunk-IsStored (store client_to_rch (b ∷ p) true j)
      (record (chunk_of clock client_to_rch (b ∷ p) o j.bytes_stored_from_client
        (length j.chunks)) { payload = b ∷ p })
      (store-IsPayload j client_to_rch (b ∷ p) payload) timeline payload.client_count refl)
keep-IsStored clock rch_to_client (b ∷ p) o j retains (payload, timeline) = simp retains (
    record_chunk-IsStored (store rch_to_client (b ∷ p) true j)
      (record (chunk_of clock rch_to_client (b ∷ p) o j.bytes_stored_from_printer
        (length j.chunks)) { payload = b ∷ p })
      (store-IsPayload j rch_to_client (b ∷ p) payload) timeline payload.printer_count refl)
