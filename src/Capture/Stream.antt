-- ===== src/Capture/Stream.antt =====
-- What a job of src/commercialrchproxy/capture/jobs.py is asked to record, as one stream of bytes
-- that each carry their direction, and the calls that a session makes on a job.
use commercial_rchproxy.Common.{
  ℕ, ◌+◌, Bool, true, ◌&&◌, Option, List, [], ◌∷◌, ◌++◌, map, Bytes, length, ◌==◌,
}
use commercial_rchproxy.Capture.Types.{
  Direction, client_to_rch, rch_to_client, CapturedChunk, CaptureToken, CapturedJob, Clock,
  Observation,
}
use commercial_rchproxy.Capture.Jobs.{append, mark_local_write_drain}

abbrev pub Traffic : Type 0
Traffic = List (Direction × ℕ)

abbrev pub tagged : Direction → Bytes → Traffic
tagged direction = map (λ b. (direction, b))

abbrev pub same_way : Direction → Direction → Bool
same_way client_to_rch client_to_rch = true
same_way rch_to_client rch_to_client = true
same_way _ _ = Bool.false

-- The bytes of one direction, in their order.
unfoldable pub only : Direction → Traffic → Bytes
only direction [] = []
only client_to_rch ((client_to_rch, b) ∷ t) = b ∷ only client_to_rch t
only client_to_rch ((rch_to_client, b) ∷ t) = only client_to_rch t
only rch_to_client ((client_to_rch, b) ∷ t) = only rch_to_client t
only rch_to_client ((rch_to_client, b) ∷ t) = b ∷ only rch_to_client t

-- The bytes that the chunks hold, in the order of the chunks.
unfoldable pub traffic_of : List CapturedChunk → Traffic
traffic_of [] = []
traffic_of (c ∷ cs) = tagged c.direction c.payload ++ traffic_of cs

abbrev pub offset_in : Direction → ℕ → ℕ → ℕ
offset_in client_to_rch client printer = client
offset_in rch_to_client client printer = printer

-- Whether the chunks follow each other without gap or overlap in each direction, where so many
-- bytes of the two directions stand before them.
unfoldable pub tiles : ℕ → ℕ → List CapturedChunk → Bool
unfolding only
tiles client printer [] = true
tiles client printer (c ∷ cs) =
    (c.offset == offset_in c.direction client printer)
    && (c.byte_count == length c.payload)
    && tiles (client + length (only client_to_rch (tagged c.direction c.payload)))
        (printer + length (only rch_to_client (tagged c.direction c.payload))) cs

-- A call that a session makes on its job.
pub data Call : Type 0 where
  observe : Clock → Direction → Bytes → Observation → Call
  drain : CaptureToken → Bool → Option ℕ → Option Bytes → Call

unfoldable pub perform_call : Call → CapturedJob → CapturedJob
perform_call (observe clock direction payload o) j = (append clock direction payload o j).1
perform_call (drain token completed at error) j = mark_local_write_drain token completed at error j

unfoldable pub perform_calls : List Call → CapturedJob → CapturedJob
perform_calls [] j = j
perform_calls (c ∷ cs) j = perform_calls cs (perform_call c j)

-- The bytes that the calls observe.
unfoldable pub observed : List Call → Traffic
observed [] = []
observed (observe clock direction payload o ∷ cs) = tagged direction payload ++ observed cs
observed (drain token completed at error ∷ cs) = observed cs

unfoldable pub all_retain : List Call → Bool
all_retain [] = true
all_retain (observe clock direction payload o ∷ cs) = o.retain_payload && all_retain cs
all_retain (drain token completed at error ∷ cs) = all_retain cs
