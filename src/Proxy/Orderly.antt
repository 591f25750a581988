-- ===== src/Proxy/Orderly.antt =====
-- The order in which src/commercialrchproxy/proxy/session.py takes and gives back what it uses.
use commercial_rchproxy.Common.{
  ℕ, Bool, true, false, not, ◌&&◌, ◌||◌, Option, none, some, List, [], ◌∷◌, ◌++◌, ◌≡◌, refl, sym,
  ap, ◌∙◌, leb, arith, if-cases, append_assoc,
}
use commercial_rchproxy.Recorder.Types.{FailurePolicy}
use commercial_rchproxy.Proxy.Session.{
  TransportStatus, shutdown, World, SessionAction, acquire_lock, start_pumps, end_pumps, Body,
  may_be_unfinished, close_actions, body_end, waiting, Connection, connected, not_connected,
  connect, close_session, end_session, end_of_pumps, forward, connect_and_forward, run_session,
}
use commercial_rchproxy.Proxy.Observer.{
  Stage, after_action, after_actions, is_over, is_interrupted, Orderly, then_actions,
  after_actions-append, is_ready, is_locked, ConnectOrderly, after_actions-step, connect-Orderly,
  unlocked, pumping, persisted, locked, pumped, finalized, printer_closed, client_closed, released,
}

-- The end of a session whose pumps have ended, and of one that has no printer.
close-pumped :
    (n : ℕ) (pumps_cancelled unfinished fails printer_cancelled client_cancelled abort : Bool)
    (status : TransportStatus)
    → let skipped = pumps_cancelled && unfinished in
      is_over (pumps_cancelled || printer_cancelled) (
        after_actions n pumped (
          close_actions skipped
            (skipped || fails || printer_cancelled || client_cancelled)
            true
            printer_cancelled
            true
            abort
            status))
      ≡ true
unfolding after_actions close_actions
close-pumped n true true f true c abort status = refl
close-pumped n true true f false c abort status = refl
close-pumped n true false true true c abort status = refl
close-pumped n true false true false c abort status = refl
close-pumped n true false false true c abort status = refl
close-pumped n true false false false true abort status = refl
close-pumped n true false false false false abort status = refl
close-pumped n false u true true c abort status = refl
close-pumped n false u true false c abort status = refl
close-pumped n false u false true c abort status = refl
close-pumped n false u false false true abort status = refl
close-pumped n false u false false false abort status = refl

close-locked :
    (n : ℕ) (interrupted failed abort : Bool) (status : TransportStatus) (o : Option Stage)
    → is_locked o ≡ true
    → is_over interrupted
        (then_actions n o (close_actions false failed false false true abort status))
      ≡ true
unfolding after_actions close_actions
close-locked n i true abort status (some (locked k)) h = refl
close-locked n i false abort status (some (locked k)) h = refl
close-locked n i failed abort status none h = absurd (ground (arith, h))
close-locked n i failed abort status (some unlocked) h = absurd (ground (arith, h))
close-locked n i failed abort status (some pumping) h = absurd (ground (arith, h))
close-locked n i failed abort status (some persisted) h = absurd (ground (arith, h))
close-locked n i failed abort status (some pumped) h = absurd (ground (arith, h))
close-locked n i failed abort status (some (finalized p l)) h = absurd (ground (arith, h))
close-locked n i failed abort status (some (printer_closed f)) h = absurd (ground (arith, h))
close-locked n i failed abort status (some (client_closed l c)) h = absurd (ground (arith, h))
close-locked n i failed abort status (some (released c)) h = absurd (ground (arith, h))

close-unlocked :
    (n : ℕ) (interrupted failed : Bool)
    → is_over interrupted
        (after_actions n unlocked (close_actions false failed false false false false shutdown))
      ≡ true
unfolding after_actions close_actions
close-unlocked n i true = refl
close-unlocked n i false = refl

pumps-allowed : (n k : ℕ) → leb 1 k ≡ true → after_action n (locked k) start_pumps ≡ some pumping
unfolding after_action
pumps-allowed n k h = rw h refl

-- The pumps start after an attempt.
ready-pumping :
    (n : ℕ) (o : Option Stage)
    → is_ready o ≡ true
    → then_actions n o (start_pumps ∷ []) ≡ some pumping
unfolding after_actions
ready-pumping n (some (locked k)) h =
    after_actions-step n (locked k) pumping start_pumps [] (pumps-allowed n k h)
ready-pumping n none h = absurd (ground (arith, h))
ready-pumping n (some unlocked) h = absurd (ground (arith, h))
ready-pumping n (some pumping) h = absurd (ground (arith, h))
ready-pumping n (some persisted) h = absurd (ground (arith, h))
ready-pumping n (some pumped) h = absurd (ground (arith, h))
ready-pumping n (some (finalized p l)) h = absurd (ground (arith, h))
ready-pumping n (some (printer_closed f)) h = absurd (ground (arith, h))
ready-pumping n (some (client_closed l c)) h = absurd (ground (arith, h))
ready-pumping n (some (released c)) h = absurd (ground (arith, h))

-- The actions from the lock to the start of the pumps.
pumping-reached :
    (n : ℕ) (made rest : List SessionAction)
    → is_ready (after_actions n (locked 0) made) ≡ true
    → after_actions n unlocked (acquire_lock ∷ (made ++ (start_pumps ∷ rest)))
      ≡ after_actions n pumping rest
unfolding after_actions
pumping-reached n made rest ready =
    ap (after_actions n (locked 0)) (sym (append_assoc made (start_pumps ∷ []) rest))
    ∙ after_actions-append n (locked 0) (made ++ (start_pumps ∷ [])) rest
    ∙ ap (λ o. then_actions n o rest)
        (after_actions-append n (locked 0) made (start_pumps ∷ [])
          ∙ ready-pumping n (after_actions n (locked 0) made) ready)

forward-Orderly :
    (n : ℕ) (w : World) (made : List SessionAction) (body : Body)
    → is_ready (after_actions n (locked 0) made) ≡ true
    → Orderly n w
        (end_session w true true (acquire_lock ∷ (made ++ (start_pumps ∷ end_of_pumps body))) body)
unfolding end_session close_session after_actions
forward-Orderly n w made waiting ready = pumping-reached n made [] ready
forward-Orderly n w made (body_end state status abort) ready =
    let closing = close_session w true true abort status in
    ap (is_over (is_interrupted w)) (
      after_actions-append n unlocked (acquire_lock ∷ (made ++ (start_pumps ∷ end_pumps ∷ [])))
        closing
      ∙ ap (λ o. then_actions n o closing) (pumping-reached n made (end_pumps ∷ []) ready))
    ∙ close-pumped n w.pumps_wait_cancelled (may_be_unfinished status) w.finalize_raises
        w.printer_close_cancelled (not abort && w.client_close_cancelled) abort status

connection-Orderly :
    (policy : FailurePolicy) (n : ℕ) (w : World) (r : List SessionAction × Connection)
    → ConnectOrderly n 0 r
    → Orderly n w (elim r.1 [
      | not_connected state status abort ↦
          end_session w false true (acquire_lock ∷ r.0) (body_end state status abort)
      | connected ↦
          let body = forward policy w in
          end_session w true true (acquire_lock ∷ (r.0 ++ (start_pumps ∷ end_of_pumps body))) body
    ])
unfolding end_session close_session after_actions
connection-Orderly policy n w (made, connected) h = forward-Orderly n w made (forward policy w) h
connection-Orderly policy n w (made, not_connected state status abort) h =
    let closing = close_session w false true abort status in
    ap (is_over (is_interrupted w)) (after_actions-append n (locked 0) made closing)
    ∙ close-locked n (is_interrupted w)
        (w.finalize_raises || false || (not abort && w.client_close_cancelled)) abort status
        (after_actions n (locked 0) made) h

-- However the lock, the connections, the sockets and the recorder behave, and wherever the session is
-- cancelled, also in its `finally` block, its actions come in this order: it takes the lock, makes at
-- most the allowed attempts to connect, each once and in turn, starts the pumps only after an attempt
-- and ends them, finalizes the capture, closes the printer's side if it was opened, and the client's,
-- gives the lock back just when it took it, and tracks the persistence, if at all, last. A session
-- that does not end waits for a pump. One that ends has given back the lock; finalizing or closing the
-- client's side is left out only if the `finally` block is cancelled while it waits for the pumps or
-- for the printer's side to close, and the persistence is then not tracked.
pub run_session-Orderly :
    (policy : FailurePolicy) (printer_connect_attempts : ℕ) (w : World)
    → Orderly printer_connect_attempts w (run_session policy printer_connect_attempts w)
unfolding run_session connect_and_forward
run_session-Orderly policy n w =
    if-cases (Orderly n w) w.lock_granted
      (λ _.
        connection-Orderly policy n w (connect n 1 w.connects)
          (connect-Orderly n n 0 1 w.connects refl (omega arith)))
      (λ _.
        close-unlocked n (is_interrupted w)
          (w.finalize_raises || false || w.client_close_cancelled))
