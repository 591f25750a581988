-- ===== src/Proxy/Delivered.antt =====
-- What the state `closed` of src/commercialrchproxy/proxy/session.py says of both directions.
use commercial_rchproxy.Common.{
  ℕ, zero, suc, ◌+◌, Bool, true, false, Option, none, some, List, [], ◌∷◌, ◌++◌, ◌≡◌, refl, subst,
  if-cases,
}
use commercial_rchproxy.Recorder.Types.{FailurePolicy}
use commercial_rchproxy.Proxy.Pump.{pump}
use commercial_rchproxy.Proxy.Session.{
  SessionState, accepted, closed, TransportStatus, delivery_unknown, ConnectAnswer, opened, failed,
  connect_cancelled, connect_raised, TailWait, tail_done, tail_timed_out, tail_cancelled, FirstDone,
  client_done, printer_done, both_done, wait_cancelled, World, TaskEnd, returned, raised,
  unfinished, task_end, SessionAction, acquire_lock, start_pumps, end_of_pumps, shutdown, Body,
  body_end, waiting, judge, judge_tasks, after_first, forward, Connection, connected, not_connected,
  connect_step, connect, SessionReport, end_session, connect_and_forward, run_session,
}
use commercial_rchproxy.Proxy.PumpEnds.{is_without_error, Relays, pump-Relays}

-- The state `closed` says `P`, and its status no more than that delivery is unknown.
abbrev Says : Type 0 → SessionState → TransportStatus → Type 0
Says P closed status = P × (status ≡ delivery_unknown)
Says P _ status = Unit {0}

abbrev BodySays : Type 0 → Body → Type 0
BodySays P waiting = Unit {0}
BodySays P (body_end state status aborts) = Says P state status

judge_tasks-Says :
    (P : Type 0) (timed_out : Bool) (c p : TaskEnd)
    → (is_without_error c ≡ true → is_without_error p ≡ true → P)
    → BodySays P (judge_tasks timed_out c p)
unfolding judge_tasks judge
judge_tasks-Says P timed_out unfinished p both = tt
judge_tasks-Says P timed_out raised unfinished both = tt
judge_tasks-Says P timed_out raised raised both = tt
judge_tasks-Says P timed_out raised (returned e) both = tt
judge_tasks-Says P timed_out (returned e) unfinished both = tt
judge_tasks-Says P timed_out (returned e) raised both = tt
judge_tasks-Says P timed_out (returned true) (returned e) both = tt
judge_tasks-Says P timed_out (returned false) (returned true) both = tt
judge_tasks-Says P timed_out (returned false) (returned false) both = (both refl refl, refl)

after_first-Says :
    (P : Type 0) (tail : TailWait) (gather : Bool) (first : TaskEnd) (both : Bool → Body)
    → ((timed_out : Bool) → BodySays P (both timed_out))
    → BodySays P (after_first tail gather first both)
unfolding after_first
after_first-Says P tail gather unfinished both h = tt
after_first-Says P tail gather raised both h = tt
after_first-Says P tail true (returned true) both h = tt
after_first-Says P tail false (returned true) both h = h false
after_first-Says P tail_done gather (returned false) both h = h false
after_first-Says P tail_timed_out true (returned false) both h = tt
after_first-Says P tail_timed_out false (returned false) both h = h true
after_first-Says P tail_cancelled gather (returned false) both h = tt

-- Both directions relay all that was read.
abbrev pub BothRelay : FailurePolicy → World → Type 0
BothRelay policy w = Relays policy w.client_events × Relays policy w.printer_events

forward-Says :
    (policy : FailurePolicy) (w : World) → BodySays (BothRelay policy w) (forward policy w)
unfolding forward
forward-Says policy w =
    let c = task_end (pump policy [] [] 0 w.client_events) in
    let p = task_end (pump policy [] [] 0 w.printer_events) in
    let said = λ (timed_out : Bool).
      judge_tasks-Says (BothRelay policy w) timed_out c p (λ hc hp.
        (pump-Relays policy w.client_events hc, pump-Relays policy w.printer_events hp)) in
    first-cases w.first said
  where
    first-cases :
        (f : FirstDone)
        → ((timed_out : Bool)
            → BodySays (BothRelay policy w) (
                judge_tasks timed_out
                  (task_end (pump policy [] [] 0 w.client_events))
                  (task_end (pump policy [] [] 0 w.printer_events))))
        → BodySays (BothRelay policy w) (forward policy (record w { first = f }))
    first-cases client_done said =
        after_first-Says _ w.tail w.gather_cancelled
          (task_end (pump policy [] [] 0 w.client_events)) _ said
    first-cases printer_done said =
        after_first-Says _ w.tail w.gather_cancelled
          (task_end (pump policy [] [] 0 w.printer_events)) _ said
    first-cases both_done said = said false
    first-cases wait_cancelled said = tt

-- What a report says, if the session ended.
abbrev EndSays : Type 0 → Option (SessionState × TransportStatus) → Type 0
EndSays P none = Unit {0}
EndSays P (some (state, status)) = Says P state status

end_session-Says :
    (P : Type 0) (w : World) (printer_open locked : Bool) (before : List SessionAction)
    (body : Body)
    → BodySays P body
    → EndSays P (end_session w printer_open locked before body).end
unfolding end_session
end_session-Says P w printer_open locked before waiting h = tt
end_session-Says P w printer_open locked before (body_end state status aborts) h = h

abbrev ConnectSays : Type 0 → Connection → Type 0
ConnectSays P connected = Unit {0}
ConnectSays P (not_connected state status aborts) = Says P state status

connect_step-Says :
    (P : Type 0) (answer : ConnectAnswer) (left : ℕ) (later : List SessionAction × Connection)
    → ConnectSays P later.1
    → ConnectSays P (connect_step answer left later).1
unfolding connect_step
connect_step-Says P opened left later h = tt
connect_step-Says P connect_cancelled left later h = tt
connect_step-Says P connect_raised left later h = tt
connect_step-Says P (failed c) zero later h = h
connect_step-Says P (failed true) (suc left) later h = tt
connect_step-Says P (failed false) (suc left) later h = h

connect-Says :
    (P : Type 0) (left attempt : ℕ) (answers : ℕ → ConnectAnswer)
    → ConnectSays P (connect left attempt answers).1
unfolding connect
connect-Says P zero attempt answers = tt
connect-Says P (suc left) attempt answers =
    connect_step-Says P (answers attempt) left (connect left (attempt + 1) answers)
      (connect-Says P left (attempt + 1) answers)

connection-Says :
    (policy : FailurePolicy) (w : World) (made : List SessionAction) (c : Connection)
    → ConnectSays (BothRelay policy w) c
    → EndSays
        (BothRelay policy w)
        (elim c as (λ _. SessionReport) [
          | not_connected state status aborts ↦
              end_session w false true (acquire_lock ∷ made) (body_end state status aborts)
          | connected ↦
              let body = forward policy w in
              end_session w true true
                (acquire_lock ∷ (made ++ (start_pumps ∷ end_of_pumps body)))
                body
        ]).end
connection-Says policy w made connected h =
    end_session-Says (BothRelay policy w) w true true
      (acquire_lock ∷ (made ++ (start_pumps ∷ end_of_pumps (forward policy w)))) (forward policy w)
      (forward-Says policy w)
connection-Says policy w made (not_connected state status aborts) h =
    end_session-Says (BothRelay policy w) w false true (acquire_lock ∷ made)
      (body_end state status aborts) h

run_session-Says :
    (policy : FailurePolicy) (n : ℕ) (w : World)
    → EndSays (BothRelay policy w) (run_session policy n w).end
unfolding run_session connect_and_forward
run_session-Says policy n w =
    if-cases (λ (r : SessionReport). EndSays (BothRelay policy w) r.end) w.lock_granted
      (λ _.
        connection-Says policy w (connect n 1 w.connects).0 (connect n 1 w.connects).1
          (connect-Says _ n 1 w.connects))
      (λ _.
        end_session-Says (BothRelay policy w) w false false [] (body_end accepted shutdown false)
          tt)

-- A session that ends in the state `closed` has seen both pumps end at the end of their streams, every
-- byte that was read from either side was written to the other one in its order, and yet the status
-- says that delivery is unknown.
pub run_session-closed :
    (policy : FailurePolicy) (printer_connect_attempts : ℕ) (w : World) (status : TransportStatus)
    → (run_session policy printer_connect_attempts w).end ≡ some (closed, status)
    → BothRelay policy w × (status ≡ delivery_unknown)
run_session-closed policy n w status ended =
    subst (EndSays (BothRelay policy w)) ended (run_session-Says policy n w)
