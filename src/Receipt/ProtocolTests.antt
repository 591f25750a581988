-- ===== src/Receipt/ProtocolTests.antt =====
-- Whole streams through `parse_protocol_chunks`.
use commercial_rchproxy.Common.{
  ℕ, false, List, [], ◌∷◌, ◌++◌, Bytes, length, take, drop, codes, ◌≡◌, refl, arith,
}
use commercial_rchproxy.Framing.Types.{StreamEvent, FramingResult, frame, frames, acks}
use commercial_rchproxy.Receipt.Correlate.{
  correlate, note_unmatched_acks, note_unmatched_frames, correlate_requests,
}
use commercial_rchproxy.Receipt.Issues.{retain}
use commercial_rchproxy.Receipt.Assembly.{parse_documents}
use commercial_rchproxy.Framing.Framer.{init, made, fresh}
use commercial_rchproxy.Framing.Feeding.{joined}
use commercial_rchproxy.Framing.Finishing.{IsComplete}
use commercial_rchproxy.Framing.Bcc.{built, refused, build_frame, frame_prefix}
use commercial_rchproxy.Receipt.Protocol.{
  CopiesLimits, CopiesResult, parsed, limit_not_positive, parse_protocol_chunks,
  parse_framed_copies, retaining, parse_protocol_copies, parse_framed_copies,
}
use commercial_rchproxy.Receipt.OneChunk.{parse_protocol_copies-parse_protocol_chunks}
use commercial_rchproxy.Receipt.Bounds.{IsBounded, parse_protocol_chunks-parsed}
use commercial_rchproxy.Receipt.DocumentTests.{request, standard, init-standard}

abbrev copies_limits : CopiesLimits
copies_limits = record {
  max_documents = 10;
  max_messages = 3;
  max_issues = 2;
  max_semantic_fields = 100;
}

abbrev frame_bytes : Bytes → Bytes
frame_bytes payload = elim (build_frame payload (codes "00") (codes "z") (codes "0")) [
  | built bytes ↦ bytes
  | refused why ↦ []
]

abbrev sale_bytes : Bytes
sale_bytes =
    frame_bytes (codes "=K")
    ++ frame_bytes (codes "=R1/$250/(Caffe)")
    ++ frame_bytes (codes "=T1/$250")
    ++ frame_bytes (codes "<</?s")

-- The frames are cut in the middle, and the printer answers with an ACK.
abbrev sale_chunks : List Bytes
sale_chunks = take 20 sale_bytes ∷ drop 20 sale_bytes ∷ []

-- The frames of the sale as framing finds them, and no answer of the printer.
abbrev framed : List StreamEvent → FramingResult
framed events = record {
  events = events;
  issues = [];
  bytes_seen = 0;
  total_frame_count = length events;
  total_ack_count = 0;
  events_truncated = false;
  omitted_issue_count = 0;
}

abbrev sale : List StreamEvent
sale =
    frame (request 1 (codes "=K"))
    ∷ frame (request 2 (codes "=R1/$250/(Caffe)"))
    ∷ frame (request 3 (codes "=T1/$250"))
    ∷ frame (request 4 (codes "<</?s"))
    ∷ []

-- The numbers of documents, messages and issues, of all and of those kept.
abbrev sizes : CopiesResult → List ℕ
sizes r = length r.documents ∷ length r.messages ∷ length r.all_issues ∷ length r.issues ∷ []

-- The document is not closed, two missing answers are noted, and a fourth message is over its limit;
-- of these four issues one is kept, and one counts the others.
sale-sizes :
    sizes (parse_framed_copies copies_limits [] (framed sale) (framed [])) ≡ 1 ∷ 3 ∷ 4 ∷ 2 ∷ []
unfolding parse_framed_copies parse_documents frames correlate note_unmatched_acks acks
    note_unmatched_frames correlate_requests retain
sale-sizes = refl

no_messages :
    parse_protocol_chunks standard (record copies_limits { max_messages = 0 }) 1000 sale_chunks []
    ≡ limit_not_positive
unfolding parse_protocol_chunks
no_messages = refl

init-retaining : init (retaining standard) ≡ made (fresh standard)
init-retaining = init-standard

parse_protocol_chunks-parsed_example :
    (r : CopiesResult) × (parse_protocol_chunks standard copies_limits 40 sale_chunks
        ((6 ∷ []) ∷ [])
      ≡ parsed r)
    × IsBounded (record copies_limits { max_issues = 1024 }) r
    × IsComplete standard (take 40 (joined sale_chunks)) r.request_framing
    × IsComplete standard (take 40 (joined ((6 ∷ []) ∷ []))) r.response_framing
parse_protocol_chunks-parsed_example =
    parse_protocol_chunks-parsed standard copies_limits 40 sale_chunks ((6 ∷ []) ∷ [])
      (fresh standard) init-retaining (omega arith) (omega arith) (omega arith) (omega arith)

abbrev ack : Bytes
ack = 6 ∷ []

parse_protocol_copies-parse_protocol_chunks_example :
    parse_protocol_copies standard copies_limits 100 (frame_bytes (codes "=K")) ack
    ≡ parse_protocol_chunks standard copies_limits 100 (frame_bytes (codes "=K") ∷ []) (ack ∷ [])
unfolding build_frame frame_prefix
parse_protocol_copies-parse_protocol_chunks_example =
    parse_protocol_copies-parse_protocol_chunks standard copies_limits 100
      (frame_bytes (codes "=K")) ack (fresh standard) init-retaining (omega arith) (omega arith)
      (omega arith) (omega arith) (omega arith) (omega arith)
