-- ===== src/Framing/Tests.antt =====
-- Runs of the framer on concrete streams, and the properties of framing at concrete inputs.
use commercial_rchproxy.Common.{
  ℕ, ◌≡◌, refl, true, false, Option, none, some, List, [], ◌∷◌, ◌++◌, Bytes, arith,
}
use commercial_rchproxy.Framing.Types.{FramingResult}
use commercial_rchproxy.Framing.Bcc.{built, build_frame, frame_prefix, calculate_bcc, bcc_matches}
use commercial_rchproxy.Framing.Scan.{
  Action, decide, decide_header, rejected_count, next_plausible_control, find_plausible,
  partial_stx, last_stx,
}
use commercial_rchproxy.Framing.Framer.{
  Framer, made, init, fresh, add_issue, advance, note_issue, append_event, finalize_omitted_issues,
}
use commercial_rchproxy.Framing.Process.{
  close, take_ack, take_one_ack, feed_all, feed, feed_rounds, feed_round, extend, process, perform,
  finish, finished_result, compact, make_room, frame_at,
}
use commercial_rchproxy.Framing.Checksum.{bcc_matches-corrupted}
use commercial_rchproxy.Framing.RoundTrip.{frame_at-build_frame, ReadsBack}
use commercial_rchproxy.Framing.Feeding.{joined}
use commercial_rchproxy.Framing.Finishing.{IsComplete}
use commercial_rchproxy.Framing.Contract.{finish-feed_all, finish-finish}
use commercial_rchproxy.Framing.Assess.{defaults}

-- The frame with data `=K`, as `build_frame` makes it.
abbrev frame_k : Bytes
frame_k = 2 ∷ 48 ∷ 48 ∷ 48 ∷ 48 ∷ 50 ∷ 122 ∷ 61 ∷ 75 ∷ 48 ∷ 48 ∷ 67 ∷ 3 ∷ []

build_frame-frame_k : build_frame (61 ∷ 75 ∷ []) (48 ∷ 48 ∷ []) (122 ∷ []) (48 ∷ []) ≡ built frame_k
unfolding build_frame frame_prefix calculate_bcc
build_frame-frame_k = refl

init-defaults : init defaults ≡ made (fresh defaults)
unfolding init
init-defaults = refl

-- The frame cut in its length field, with an ACK behind it.
abbrev two_chunks : List Bytes
two_chunks = (2 ∷ 48 ∷ 48 ∷ 48 ∷ []) ∷ (48 ∷ 50 ∷ 122 ∷ 61 ∷ 75 ∷ 48 ∷ 48 ∷ 67 ∷ 3 ∷ 6 ∷ []) ∷ []

finish-feed_all_example :
    (r : FramingResult) × (finished_result (feed_all (fresh defaults) two_chunks) ≡ some r)
    × IsComplete defaults (joined two_chunks) r
finish-feed_all_example = finish-feed_all defaults (fresh defaults) init-defaults refl two_chunks

-- A header that is not complete is kept in the buffer.
abbrev waiting : Framer
waiting = record (fresh defaults) { buffer = 2 ∷ 48 ∷ 48 ∷ []; bytes_seen = 3 }

feed_all-waiting : feed_all (fresh defaults) ((2 ∷ 48 ∷ 48 ∷ []) ∷ []) ≡ some waiting
unfolding feed_all feed feed_rounds feed_round compact make_room extend process decide perform
feed_all-waiting = refl

finish-finish_example : finish (finish waiting).1 ≡ finish waiting
finish-finish_example =
    finish-finish defaults (fresh defaults) init-defaults refl ((2 ∷ 48 ∷ 48 ∷ []) ∷ []) waiting
      feed_all-waiting

frame_at-build_frame_example :
    (decide false 999 (frame_k ++ (6 ∷ [])) ≡ Action.frame 2)
    × ReadsBack
        (61 ∷ 75 ∷ [])
        (48 ∷ 48 ∷ [])
        (122 ∷ [])
        (48 ∷ [])
        frame_k
        (frame_at (fresh defaults) (frame_k ++ (6 ∷ [])) 2)
frame_at-build_frame_example =
    frame_at-build_frame (fresh defaults) false 999 (61 ∷ 75 ∷ []) (48 ∷ 48 ∷ []) (122 ∷ [])
      (48 ∷ []) frame_k (6 ∷ []) build_frame-frame_k refl refl refl (omega arith)

bcc_matches-frame_k :
    bcc_matches
      (48 ∷ 67 ∷ [])
      (calculate_bcc (2 ∷ 48 ∷ 48 ∷ 48 ∷ 48 ∷ 50 ∷ 122 ∷ 61 ∷ 75 ∷ 48 ∷ []))
    ≡ true
unfolding bcc_matches calculate_bcc
bcc_matches-frame_k = refl

bcc_matches-corrupted_example :
    bcc_matches
      (48 ∷ 67 ∷ [])
      (calculate_bcc (2 ∷ 48 ∷ 48 ∷ 48 ∷ 48 ∷ 50 ∷ 122 ∷ 62 ∷ 75 ∷ 48 ∷ []))
    ≡ false
bcc_matches-corrupted_example =
    bcc_matches-corrupted (2 ∷ 48 ∷ 48 ∷ 48 ∷ 48 ∷ 50 ∷ 122 ∷ []) (75 ∷ 48 ∷ []) (48 ∷ 67 ∷ []) 61
      62 refl refl (omega arith) (omega arith) (omega arith) bcc_matches-frame_k

abbrev acks_of : Option FramingResult → Option ℕ
acks_of none = none
acks_of (some r) = some r.total_ack_count

abbrev noisy : Bytes
noisy = 2 ∷ 65 ∷ 66 ∷ 67 ∷ 68 ∷ 69 ∷ 2 ∷ 70 ∷ 6 ∷ []

-- The ACK behind an unfinished header is counted when the stream comes in one chunk, and is part of
-- a truncated frame when it comes in two.
acks_of-whole : acks_of (finished_result (feed_all (fresh defaults) (noisy ∷ []))) ≡ some 1
unfolding feed_all feed feed_rounds feed_round make_room compact process extend perform decide
    decide_header add_issue advance note_issue rejected_count next_plausible_control find_plausible
    partial_stx last_stx finish close finalize_omitted_issues take_ack take_one_ack append_event
acks_of-whole = refl

acks_of-halves :
    acks_of (
      finished_result
        (feed_all (fresh defaults) ((2 ∷ 65 ∷ 66 ∷ 67 ∷ 68 ∷ 69 ∷ []) ∷ (2 ∷ 70 ∷ 6 ∷ []) ∷ [])))
    ≡ some 0
unfolding feed_all feed feed_rounds feed_round make_room compact process extend perform decide
    decide_header add_issue advance note_issue rejected_count next_plausible_control find_plausible
    partial_stx last_stx finish close finalize_omitted_issues take_ack take_one_ack append_event
acks_of-halves = refl
