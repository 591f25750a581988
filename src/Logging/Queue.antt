-- ===== src/Logging/Queue.antt =====
-- src/commercialrchproxy/logging/structured.py: `_NonBlockingQueueHandler.enqueue`, between the
-- records that the listener takes. A record is a number here, and a call of `enqueue` is one step.
use commercial_rchproxy.Common.{
  ℕ, ◌+◌, Option, none, some, List, [], ◌∷◌, ◌++◌, length, ltb, if◌then◌else◌,
}

-- `handled` are the records that the listener has taken, the last one at the end.
pub record LogQueue : Type 0 where
  pub capacity : ℕ
  pub queue : List ℕ
  pub dropped_records : ℕ
  pub handled : List ℕ

abbrev pub new_queue : ℕ → LogQueue
new_queue capacity = record { capacity = capacity; queue = []; dropped_records = 0; handled = [] }

-- `put_nowait`; `none` is `Full`.
unfoldable pub put_nowait : ℕ → LogQueue → Option LogQueue
put_nowait r q =
    if ltb (length q.queue) q.capacity
    then some (record q { queue = q.queue ++ (r ∷ []) })
    else none

-- `get_nowait` of a record that is dropped; an empty queue is left.
unfoldable pub drop_oldest : List ℕ → LogQueue → LogQueue
drop_oldest [] q = q
drop_oldest (r ∷ rs) q = record q { queue = rs; dropped_records = q.dropped_records + 1 }

-- What follows `Full`.
abbrev pub if_full : Option LogQueue → LogQueue → LogQueue
if_full (some p) q = p
if_full none q = q

unfoldable pub put_again : ℕ → LogQueue → LogQueue
unfolding put_nowait
put_again r q = if_full (put_nowait r q) (record q { dropped_records = q.dropped_records + 1 })

-- `enqueue`
unfoldable pub enqueue : ℕ → LogQueue → LogQueue
unfolding put_nowait
enqueue r q = if_full (put_nowait r q) (put_again r (drop_oldest q.queue q))

-- The listener takes a record.
unfoldable pub handle_from : List ℕ → LogQueue → LogQueue
handle_from [] q = q
handle_from (r ∷ rs) q = record q { queue = rs; handled = q.handled ++ (r ∷ []) }

pub data LogAction : Type 0 where
  logs : ℕ → LogAction
  handles : LogAction

unfoldable pub act : LogAction → LogQueue → LogQueue
act (logs r) q = enqueue r q
act handles q = handle_from q.queue q

unfoldable pub act_all : List LogAction → LogQueue → LogQueue
act_all [] q = q
act_all (a ∷ rest) q = act_all rest (act a q)
