-- ===== src/Receipt/Tests.antt =====
-- Correlations and reservations on concrete inputs.
use commercial_rchproxy.Common.{
  ℕ, ◌≤◌, true, false, List, [], ◌∷◌, length, take, ◌*◌, ◌≡◌, refl, arith,
}
use commercial_rchproxy.Framing.Types.{RchFrame, AckEvent}
use commercial_rchproxy.Receipt.Correlate.{correlate}
use commercial_rchproxy.Receipt.Correlation.{paired, reports, correlate-paired}
use commercial_rchproxy.Receipt.Issues.{
  ResultIssue, reported, omitted, bounded_result_issues, length-bounded_result_issues, retain,
}
use commercial_rchproxy.Receipt.Budget.{
  new_budget, reserve_all, Accounts, reserve_all-Accounts, Request,
}

abbrev frame_of : ℕ → ℕ → RchFrame
frame_of id sequence = record {
  event_id = id;
  frame_id = id;
  stream_offset = 13 * id;
  raw = [];
  address = 48 ∷ 48 ∷ [];
  data_length = 0;
  frame_class = 122;
  payload = [];
  sequence = sequence;
  bcc = [];
  expected_bcc = [];
  bcc_valid = true;
}

abbrev ack_of : ℕ → AckEvent
ack_of id = record { event_id = id; stream_offset = id; raw = 6 ∷ [] }

-- Two requests with sequences 0 and 1, one ACK, and responses with sequences 8, 5 and 0.
correlate-paired_example :
    correlate 2
      (frame_of 1 48 ∷ frame_of 2 49 ∷ [])
      (ack_of 1 ∷ [])
      (frame_of 1 56 ∷ frame_of 2 53 ∷ frame_of 3 48 ∷ [])
    ≡ (
      paired
          (frame_of 1 48 ∷ frame_of 2 49 ∷ [])
          (ack_of 1 ∷ [])
          (frame_of 1 56 ∷ frame_of 2 53 ∷ frame_of 3 48 ∷ []),
      take 2 (
          reports
            (frame_of 1 48 ∷ frame_of 2 49 ∷ [])
            (ack_of 1 ∷ [])
            (frame_of 1 56 ∷ frame_of 2 53 ∷ frame_of 3 48 ∷ [])),
    )
correlate-paired_example =
    correlate-paired 2 (frame_of 1 48 ∷ frame_of 2 49 ∷ []) (ack_of 1 ∷ [])
      (frame_of 1 56 ∷ frame_of 2 53 ∷ frame_of 3 48 ∷ [])

-- The ACK of the second request is missing, its response is out of sequence, and the third response
-- has no request.
length-reports :
    length (
      reports
        (frame_of 1 48 ∷ frame_of 2 49 ∷ [])
        (ack_of 1 ∷ [])
        (frame_of 1 56 ∷ frame_of 2 53 ∷ frame_of 3 48 ∷ []))
    ≡ 3
length-reports = refl

abbrev requests : List Request
requests =
    (3, record { stream_offset = 0; frame_id = 1 })
    ∷ (4, record { stream_offset = 13; frame_id = 2 })
    ∷ (2, record { stream_offset = 26; frame_id = 3 })
    ∷ []

reserve_all-Accounts_example :
    Accounts
      (new_budget 5)
      requests
      (reserve_all requests (new_budget 5)).0
      (reserve_all requests (new_budget 5)).1
reserve_all-Accounts_example = reserve_all-Accounts requests (new_budget 5) (omega arith)

-- The limit crossing that came last is kept, the second ordinary issue is not.
abbrev many_issues : List ResultIssue
many_issues = reported false 1 ∷ reported false 2 ∷ reported false 3 ∷ reported true 4 ∷ []

bounded-many_issues :
    bounded_result_issues many_issues 3 ≡ reported false 1 ∷ reported true 4 ∷ omitted 2 ∷ []
unfolding bounded_result_issues retain
bounded-many_issues = refl

length-bounded_result_issues_example : length (bounded_result_issues many_issues 3) ≤ 3
length-bounded_result_issues_example = length-bounded_result_issues many_issues 3 (omega arith)
