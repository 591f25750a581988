-- ===== src/Proxy/Observer.antt =====
-- What an observer of a session of src/commercialrchproxy/proxy/session.py allows, up to the pumps.
use commercial_rchproxy.Common.{
  ℕ, zero, suc, ◌+◌, Bool, true, false, ◌&&◌, ◌||◌, Option, none, some, List, [], ◌∷◌, ◌++◌,
  if◌then◌else◌, ◌≡◌, refl, ap, ◌∙◌, ◌==◌, leb, ◌≤◌, arith,
}
use commercial_rchproxy.Proxy.Session.{
  World, ConnectAnswer, opened, failed, connect_cancelled, connect_raised, SessionAction,
  acquire_lock, release_lock, start_pumps, end_pumps, close_printer, track_persistence,
  connect_attempt, finalize, close_client, Connection, connected, not_connected, connect_step,
  connect, SessionReport,
}

-- What an observer of a session knows: the phase it is in. The attempts are counted; `complete` says
-- that the capture was finalized and the client's side closed.
pub data Stage : Type 0 where
  unlocked pumping pumped persisted : Stage
  locked : (attempts : ℕ) → Stage
  finalized : (has_printer has_lock : Bool) → Stage
  printer_closed : (was_finalized : Bool) → Stage
  client_closed : (has_lock complete : Bool) → Stage
  released : (complete : Bool) → Stage

-- The stage after an action, if the action is allowed in the stage.
unfoldable pub after_action : (max_attempts : ℕ) → Stage → SessionAction → Option Stage
after_action n unlocked acquire_lock = some (locked 0)
after_action n unlocked (finalize s) = some (finalized false false)
after_action n (locked k) (connect_attempt i) =
    if i == k + 1 && leb i n then some (locked i) else none
after_action n (locked k) start_pumps = if leb 1 k then some pumping else none
after_action n (locked k) (finalize s) = some (finalized false true)
after_action n pumping end_pumps = some pumped
after_action n pumped (finalize s) = some (finalized true true)
after_action n pumped close_printer = some (printer_closed false)
after_action n (finalized true has_lock) close_printer = some (printer_closed true)
after_action n (finalized false has_lock) (close_client abort) = some (client_closed has_lock true)
after_action n (printer_closed was_finalized) (close_client abort) =
    some (client_closed true was_finalized)
after_action n (printer_closed was_finalized) release_lock = some (released false)
after_action n (client_closed true complete) release_lock = some (released complete)
after_action n (client_closed false true) track_persistence = some persisted
after_action n (released true) track_persistence = some persisted
after_action n _ _ = none

unfoldable pub after_actions : (max_attempts : ℕ) → Stage → List SessionAction → Option Stage
unfolding after_action
after_actions n s [] = some s
after_actions n s (a ∷ as') = elim (after_action n s a) [
  | none ↦ none
  | some t ↦ after_actions n t as'
]

-- Whether a session may be over: the lock, if it was taken, is given back; and unless the session was
-- interrupted in its `finally` block, the capture is finalized and the client's side closed.
abbrev pub is_over : (interrupted : Bool) → Option Stage → Bool
is_over interrupted (some (released complete)) = complete || interrupted
is_over interrupted (some (client_closed false complete)) = complete || interrupted
is_over interrupted (some persisted) = true
is_over interrupted _ = false

-- A cancellation that makes the `finally` block skip a part.
abbrev pub is_interrupted : World → Bool
is_interrupted w = w.pumps_wait_cancelled || w.printer_close_cancelled

-- The actions are allowed, and a session that ends may be over; one that waits for a pump is pumping.
abbrev pub Orderly : ℕ → World → SessionReport → Type 0
Orderly n w r = elim r.end [
  | none ↦ after_actions n unlocked r.actions ≡ some pumping
  | some end ↦ is_over (is_interrupted w) (after_actions n unlocked r.actions) ≡ true
]

abbrev pub then_actions : ℕ → Option Stage → List SessionAction → Option Stage
then_actions n none as' = none
then_actions n (some s) as' = after_actions n s as'

pub after_actions-append :
    (n : ℕ) (s : Stage) (xs ys : List SessionAction)
    → after_actions n s (xs ++ ys) ≡ then_actions n (after_actions n s xs) ys
unfolding after_actions
after_actions-append n s [] ys = refl
after_actions-append n s (x ∷ xs) ys =
    step-cases (after_action n s x) (λ t. after_actions-append n t xs ys)
  where
    step-cases :
        (o : Option Stage)
        → ((t : Stage) → after_actions n t (xs ++ ys) ≡ then_actions n (after_actions n t xs) ys)
        → (elim o as (λ _. Option Stage) [ none ↦ none | some t ↦ after_actions n t (xs ++ ys) ])
          ≡ then_actions n
              (elim o as (λ _. Option Stage) [ none ↦ none | some t ↦ after_actions n t xs ])
              ys
    step-cases none later = refl
    step-cases (some t) later = later t

-- Whether attempts were made, and whether the lock is held before the pumps.
abbrev pub is_ready : Option Stage → Bool
is_ready (some (locked k)) = leb 1 k
is_ready _ = false

abbrev pub is_locked : Option Stage → Bool
is_locked (some (locked k)) = true
is_locked _ = false

abbrev pub ConnectOrderly : ℕ → ℕ → List SessionAction × Connection → Type 0
ConnectOrderly n k (made, connected) = is_ready (after_actions n (locked k) made) ≡ true
ConnectOrderly n k (made, not_connected s t a) = is_locked (after_actions n (locked k) made) ≡ true

pub attempt-allowed :
    (n k i : ℕ)
    → (i == k + 1 && leb i n) ≡ true
    → after_action n (locked k) (connect_attempt i) ≡ some (locked i)
unfolding after_action
attempt-allowed n k i allowed = rw allowed refl

pub after_actions-step :
    (n : ℕ) (s t : Stage) (a : SessionAction) (as' : List SessionAction)
    → after_action n s a ≡ some t
    → after_actions n s (a ∷ as') ≡ after_actions n t as'
unfolding after_actions
after_actions-step n s t a as' h = rw (h, after_actions) refl

pub connect_attempt-Orderly :
    (n k i : ℕ) (later : List SessionAction × Connection)
    → (i == k + 1 && leb i n) ≡ true
    → ConnectOrderly n i later
    → ConnectOrderly n k (connect_attempt i ∷ later.0, later.1)
connect_attempt-Orderly n k i (made, connected) allowed h =
    ap is_ready (
      after_actions-step n (locked k) (locked i) (connect_attempt i) made
        (attempt-allowed n k i allowed))
    ∙ h
connect_attempt-Orderly n k i (made, not_connected s t a) allowed h =
    ap is_locked (
      after_actions-step n (locked k) (locked i) (connect_attempt i) made
        (attempt-allowed n k i allowed))
    ∙ h

pub connect_step-Orderly :
    (n i left : ℕ) (answer : ConnectAnswer) (later : List SessionAction × Connection)
    → 1 ≤ i
    → ConnectOrderly n i later
    → ConnectOrderly n i (connect_step answer left later)
unfolding connect_step after_actions
connect_step-Orderly n i left opened later positive h = ground (arith, positive)
connect_step-Orderly n i left connect_cancelled later positive h = refl
connect_step-Orderly n i left connect_raised later positive h = refl
connect_step-Orderly n i zero (failed c) later positive h = h
connect_step-Orderly n i (suc left) (failed true) later positive h = refl
connect_step-Orderly n i (suc left) (failed false) later positive h = h

pub connect-Orderly :
    (n left k i : ℕ) (answers : ℕ → ConnectAnswer)
    → i ≡ k + 1
    → left + k ≤ n
    → ConnectOrderly n k (connect left i answers)
unfolding connect after_actions
connect-Orderly n zero k i answers next room = refl
connect-Orderly n (suc left) k i answers next room =
    let later = connect-Orderly n left i (i + 1) answers refl (omega (arith, next, room)) in
    connect_attempt-Orderly n k i (connect_step (answers i) left (connect left (i + 1) answers))
      (ground (arith, next, room))
      (connect_step-Orderly n i left (answers i) (connect left (i + 1) answers)
        (omega (arith, next)) later)
