-- ===== src/Logging/Retention.antt =====
-- What the log queue of src/commercialrchproxy/logging/structured.py retains.
use commercial_rchproxy.Common.{
  ℕ, ◌+◌, ◌≤◌, ◌<◌, true, List, [], ◌∷◌, ◌++◌, length, length-append, ltb, ltb→lt, ltb→le, ◌≡◌,
  refl, sym, ap, ◌∙◌, subst, inl, inr, Bool-cases, arith, append-nil, append_assoc,
}
use commercial_rchproxy.Logging.Queue.{
  LogQueue, new_queue, put_nowait, drop_oldest, put_again, enqueue, handle_from, LogAction, logs,
  handles, act, act_all,
}

-- The records that are logged.
abbrev pub logged : List LogAction → List ℕ
logged [] = []
logged (logs r ∷ rest) = r ∷ logged rest
logged (handles ∷ rest) = logged rest

-- The queue holds the last of the records `seen`; those before them are handled or dropped.
pub record IsRetained (capacity : ℕ) (seen : List ℕ) (q : LogQueue) : Type 0 where
  pub same_capacity : q.capacity ≡ capacity
  pub bounded : length q.queue ≤ capacity
  pub gone : List ℕ
  pub last_ones : gone ++ q.queue ≡ seen
  pub accounted : length gone ≡ length q.handled + q.dropped_records

-- A record finds room.
put-IsRetained :
    {capacity : ℕ} {seen : List ℕ} (r : ℕ) (q : LogQueue)
    → length q.queue < capacity
    → IsRetained capacity seen q
    → IsRetained capacity (seen ++ (r ∷ [])) (record q { queue = q.queue ++ (r ∷ []) })
put-IsRetained r q room s =
    let size = length-append q.queue (r ∷ []) in
    record {
      same_capacity = s.same_capacity;
      bounded = omega (arith, size, room);
      gone = s.gone;
      last_ones = sym (append_assoc s.gone q.queue (r ∷ [])) ∙ ap (λ l. l ++ (r ∷ [])) s.last_ones;
      accounted = s.accounted;
    }

-- The oldest record is dropped.
drop_oldest-IsRetained :
    {capacity : ℕ} {seen : List ℕ} (r : ℕ) (rs : List ℕ) (q : LogQueue)
    → q.queue ≡ r ∷ rs
    → IsRetained capacity seen q
    → IsRetained capacity seen (record q { queue = rs; dropped_records = q.dropped_records + 1 })
drop_oldest-IsRetained r rs q e s =
    let size = ap length e in
    let more = length-append s.gone (r ∷ []) in
    let old = s.accounted in
    let b = s.bounded in
    record {
      same_capacity = s.same_capacity;
      bounded = omega (arith, size, b);
      gone = s.gone ++ (r ∷ []);
      last_ones = append_assoc s.gone (r ∷ []) rs ∙ ap (λ l. s.gone ++ l) (sym e) ∙ s.last_ones;
      accounted = omega (arith, more, old);
    }

handle-IsRetained :
    {capacity : ℕ} {seen : List ℕ} (rs : List ℕ) (q : LogQueue)
    → q.queue ≡ rs
    → IsRetained capacity seen q
    → IsRetained capacity seen (handle_from rs q)
unfolding handle_from
handle-IsRetained [] q e s = s
handle-IsRetained (r ∷ rs) q e s =
    let size = ap length e in
    let more = length-append s.gone (r ∷ []) in
    let taken = length-append q.handled (r ∷ []) in
    let old = s.accounted in
    let b = s.bounded in
    record {
      same_capacity = s.same_capacity;
      bounded = omega (arith, size, b);
      gone = s.gone ++ (r ∷ []);
      last_ones = append_assoc s.gone (r ∷ []) rs ∙ ap (λ l. s.gone ++ l) (sym e) ∙ s.last_ones;
      accounted = omega (arith, more, old, taken);
    }

put_again-IsRetained :
    {capacity : ℕ} {seen : List ℕ} (r : ℕ) (rs : List ℕ) (q : LogQueue)
    → 0 < capacity
    → q.queue ≡ rs
    → capacity ≤ length q.queue
    → IsRetained capacity seen q
    → IsRetained capacity (seen ++ (r ∷ [])) (put_again r (drop_oldest rs q))
unfolding put_again put_nowait drop_oldest
put_again-IsRetained r [] q some_room e full s =
    let size = ap length e in absurd (omega (arith, size, full, some_room))
put_again-IsRetained {capacity = capacity} r (o ∷ rs) q some_room e full s =
    let d = drop_oldest-IsRetained o rs q e s in
    let size = ap length e in
    let b = s.bounded in
    let same = s.same_capacity in
    let room : length rs < capacity = omega (arith, size, b) in
    let fits : ltb (length rs) q.capacity ≡ true = ground (arith, room, same) in
    rw fits
      (put-IsRetained r (record q { queue = rs; dropped_records = q.dropped_records + 1 }) room d)

enqueue-IsRetained :
    {capacity : ℕ} {seen : List ℕ} (r : ℕ) (q : LogQueue)
    → 0 < capacity
    → IsRetained capacity seen q
    → IsRetained capacity (seen ++ (r ∷ [])) (enqueue r q)
unfolding enqueue put_nowait
enqueue-IsRetained {capacity = capacity} r q some_room s =
    let same = s.same_capacity in
    elim (Bool-cases (ltb (length q.queue) q.capacity)) [
      | inl room ↦
          let r' = ltb→lt _ _ room in rw room (put-IsRetained r q (omega (arith, r', same)) s)
      | inr full ↦
          let f = ltb→le _ _ full in
          rw full (put_again-IsRetained r q.queue q some_room refl (omega (arith, f, same)) s)
    ]

act_all-IsRetained :
    {capacity : ℕ} (actions : List LogAction) (seen : List ℕ) (q : LogQueue)
    → 0 < capacity
    → IsRetained capacity seen q
    → IsRetained capacity (seen ++ logged actions) (act_all actions q)
unfolding act_all act
act_all-IsRetained [] seen q some_room s = rw (append-nil seen) s
act_all-IsRetained {capacity = capacity} (logs r ∷ rest) seen q some_room s =
    subst (λ l. IsRetained capacity l (act_all rest (enqueue r q)))
      (append_assoc seen (r ∷ []) (logged rest))
      (act_all-IsRetained rest (seen ++ (r ∷ [])) (enqueue r q) some_room
        (enqueue-IsRetained r q some_room s))
act_all-IsRetained (handles ∷ rest) seen q some_room s =
    act_all-IsRetained rest seen (handle_from q.queue q) some_room
      (handle-IsRetained q.queue q refl s)

-- However logging and the listener alternate, the queue never exceeds its capacity, which is
-- positive, and holds the last of the logged records in their order; those before them are as many
-- as were handled or are counted as dropped.
pub act_all-new_queue :
    (capacity : ℕ) (actions : List LogAction)
    → 0 < capacity
    → IsRetained capacity (logged actions) (act_all actions (new_queue capacity))
act_all-new_queue capacity actions some_room =
    act_all-IsRetained actions [] (new_queue capacity) some_room (record {
      same_capacity = refl;
      bounded = omega arith;
      gone = [];
      last_ones = refl;
      accounted = refl;
    })
