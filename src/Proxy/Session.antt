-- ===== src/Proxy/Session.antt =====
-- src/commercialrchproxy/proxy/session.py: `ProxySession.run`. What the lock, the connections, the
-- sockets and the recorder do is an input; what the session does is a list of actions.
use commercial_rchproxy.Common.{
  ℕ, zero, suc, ◌+◌, Bool, true, false, not, ◌&&◌, ◌||◌, Option, none, some, List, [], ◌∷◌, ◌++◌,
  if◌then◌else◌,
}
use commercial_rchproxy.Recorder.Types.{FailurePolicy}
use commercial_rchproxy.Proxy.Pump.{Event, uncaught, still_running, Pumped, pump}

pub data SessionState : Type 0 where
  accepted connecting_printer forwarding draining_response closed : SessionState
  printer_unreachable transport_error : SessionState

-- `transport_status`, without the suffix on what is unknown
pub data TransportStatus : Type 0 where
  stream_closed unreachable tail_timeout transport_failed delivery_unknown shutdown :
      TransportStatus

-- An attempt to connect: it fails with one of the exceptions that are retried, where
-- `sleep_cancelled` is for the pause behind it, or is cancelled, or raises another exception.
pub data ConnectAnswer : Type 0 where
  opened : ConnectAnswer
  failed : (sleep_cancelled : Bool) → ConnectAnswer
  connect_cancelled connect_raised : ConnectAnswer

-- The first `asyncio.wait`
pub data FirstDone : Type 0 where
  client_done printer_done both_done wait_cancelled : FirstDone

-- The second one, with the time limit
pub data TailWait : Type 0 where
  tail_done tail_timed_out tail_cancelled : TailWait

pub record World : Type 0 where
  pub lock_granted : Bool
  pub connects : ℕ → ConnectAnswer
  pub first : FirstDone
  pub tail : TailWait
  -- whether the session is cancelled while it waits for a pump that it has cancelled
  pub gather_cancelled : Bool
  pub client_events : List Event
  pub printer_events : List Event
  -- in the `finally` block: whether the session is cancelled while it waits for unfinished pumps,
  -- whether `finalize` raises or is cancelled, and whether the waits for the two closes are cancelled
  pub pumps_wait_cancelled : Bool
  pub finalize_raises : Bool
  pub printer_close_cancelled : Bool
  pub client_close_cancelled : Bool

-- How a task of a pump ends: it returns a result, with an error or not, or raises, or does not end.
pub data TaskEnd : Type 0 where
  returned : (has_error : Bool) → TaskEnd
  raised unfinished : TaskEnd

abbrev pub has_error : Pumped → Bool
has_error p = elim p.error [ none ↦ false | some why ↦ true ]

unfoldable pub task_end : Pumped → TaskEnd
task_end p = elim p.ended_by [
  | uncaught ↦ raised
  | still_running ↦ unfinished
  | _ ↦ returned (has_error p)
]

pub data SessionAction : Type 0 where
  acquire_lock release_lock start_pumps end_pumps close_printer track_persistence : SessionAction
  connect_attempt : ℕ → SessionAction
  finalize : TransportStatus → SessionAction
  close_client : (abort : Bool) → SessionAction

-- How the body of the `try` ends: its last state and status and `abort_client`, or waiting for a pump.
pub data Body : Type 0 where
  body_end : SessionState → TransportStatus → (abort_client : Bool) → Body
  waiting : Body

-- The two handlers
abbrev pub cancelled_in : SessionState → Body
cancelled_in state = body_end state shutdown false

abbrev pub raised_in : Body
raised_in = body_end transport_error transport_failed true

-- The state and the status from the errors of the two results.
unfoldable pub judge : (timed_out client_error printer_error : Bool) → Body
judge timed_out client_error printer_error =
    if client_error || printer_error
    then body_end transport_error (if timed_out then tail_timeout else transport_failed)
        printer_error
    else body_end closed delivery_unknown false

-- `task.result()` of both
unfoldable pub judge_tasks : (timed_out : Bool) → TaskEnd → TaskEnd → Body
unfolding judge
judge_tasks timed_out unfinished printer = waiting
judge_tasks timed_out raised unfinished = waiting
judge_tasks timed_out raised raised = raised_in
judge_tasks timed_out raised (returned e) = raised_in
judge_tasks timed_out (returned c) unfinished = waiting
judge_tasks timed_out (returned c) raised = raised_in
judge_tasks timed_out (returned c) (returned e) = judge timed_out c e

-- What follows when the pump that ends first has ended so; `both` is what the results of both say.
unfoldable pub after_first : TailWait → (gather_cancelled : Bool) → TaskEnd → (Bool → Body) → Body
after_first tail gather unfinished both = waiting
after_first tail gather raised both = raised_in
after_first tail gather (returned true) both =
    if gather then cancelled_in forwarding else both false
after_first tail_done gather (returned false) both = both false
after_first tail_timed_out gather (returned false) both =
    if gather then cancelled_in draining_response else both true
after_first tail_cancelled gather (returned false) both = cancelled_in draining_response

-- The body, from the start of the pumps on.
unfoldable pub forward : FailurePolicy → World → Body
unfolding task_end judge_tasks after_first
forward policy w =
    let client = task_end (pump policy [] [] 0 w.client_events) in
    let printer = task_end (pump policy [] [] 0 w.printer_events) in
    let both = λ (timed_out : Bool). judge_tasks timed_out client printer in
    elim w.first [
      | client_done ↦ after_first w.tail w.gather_cancelled client both
      | printer_done ↦ after_first w.tail w.gather_cancelled printer both
      | both_done ↦ both false
      | wait_cancelled ↦ cancelled_in forwarding
    ]

-- The attempts to connect.
pub data Connection : Type 0 where
  connected : Connection
  -- the state, the status and `abort_client`
  not_connected : SessionState → TransportStatus → Bool → Connection

-- What an attempt makes of the later ones, with the number of attempts that are left.
unfoldable pub connect_step :
    ConnectAnswer → (left : ℕ) → List SessionAction × Connection → List SessionAction × Connection
connect_step opened left later = ([], connected)
connect_step connect_cancelled left later = ([], not_connected connecting_printer shutdown false)
connect_step connect_raised left later = ([], not_connected transport_error transport_failed true)
connect_step (failed sleep_cancelled) zero later = later
connect_step (failed true) (suc left) later = ([], not_connected connecting_printer shutdown false)
connect_step (failed false) (suc left) later = later

-- The attempts from number `attempt` on, of which `left` are allowed: those made, and their end.
unfoldable pub connect : (left attempt : ℕ) → (ℕ → ConnectAnswer) → List SessionAction × Connection
unfolding connect_step
connect zero attempt answers = ([], not_connected printer_unreachable unreachable true)
connect (suc left) attempt answers =
    let (made, end) = connect_step (answers attempt) left (connect left (attempt + 1) answers) in
    (connect_attempt attempt ∷ made, end)

pub record SessionReport : Type 0 where
  pub actions : List SessionAction
  pub end : Option (SessionState × TransportStatus)

-- Whether a pump may be unfinished when the body ends so: the other statuses follow from the results of
-- both, or there are no pumps.
abbrev pub may_be_unfinished : TransportStatus → Bool
may_be_unfinished shutdown = true
may_be_unfinished transport_failed = true
may_be_unfinished _ = false

-- The actions of the `finally` block behind the pumps: `finalize` is skipped when the wait for them is
-- cancelled, the client's side when closing the printer's is, and the persistence when anything failed.
unfoldable pub close_actions :
    (skipped fails printer_open printer_cancelled locked abort : Bool)
    → TransportStatus
    → List SessionAction
close_actions skipped fails printer_open printer_cancelled locked abort status =
    let persist = if fails then [] else (track_persistence ∷ []) in
    let unlock = if locked then release_lock ∷ persist else persist in
    let client = if printer_cancelled then unlock else close_client abort ∷ unlock in
    let printer = if printer_open then close_printer ∷ client else client in
    if skipped then printer else finalize status ∷ printer

-- The `finally` block; an abort of the client's connection does not wait.
unfoldable pub close_session :
    World → (printer_open locked abort : Bool) → TransportStatus → List SessionAction
unfolding close_actions
close_session w printer_open locked abort status =
    let skipped = printer_open && w.pumps_wait_cancelled && may_be_unfinished status in
    let printer_cancelled = printer_open && w.printer_close_cancelled in
    let client_cancelled = not abort && w.client_close_cancelled in
    close_actions skipped (skipped || w.finalize_raises || printer_cancelled || client_cancelled)
      printer_open printer_cancelled locked abort status

-- The session from the result of its body on.
unfoldable pub end_session :
    World → (printer_open locked : Bool) → List SessionAction → Body → SessionReport
unfolding close_session
end_session w printer_open locked before waiting = record { actions = before; end = none }
end_session w printer_open locked before (body_end state status abort) = record {
  actions = before ++ close_session w printer_open locked abort status;
  end = some (state, status);
}

-- The body of pumps ends them, by a result or by cancelling them in the `finally` block.
abbrev pub end_of_pumps : Body → List SessionAction
end_of_pumps waiting = []
end_of_pumps (body_end state status abort) = end_pumps ∷ []

unfoldable pub connect_and_forward : FailurePolicy → ℕ → World → SessionReport
unfolding connect forward end_session
connect_and_forward policy printer_connect_attempts w =
    let (made, connection) = connect printer_connect_attempts 1 w.connects in
    elim connection [
      | not_connected state status abort ↦
          end_session w false true (acquire_lock ∷ made) (body_end state status abort)
      | connected ↦
          let body = forward policy w in
          end_session w true true (acquire_lock ∷ (made ++ (start_pumps ∷ end_of_pumps body))) body
    ]

-- `run`
unfoldable pub run_session : FailurePolicy → ℕ → World → SessionReport
unfolding connect_and_forward end_session
run_session policy printer_connect_attempts w =
    if w.lock_granted
    then connect_and_forward policy printer_connect_attempts w
    else end_session w false false [] (cancelled_in accepted)
