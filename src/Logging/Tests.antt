-- ===== src/Logging/Tests.antt =====
-- The log queue on a concrete sequence, and its property there.
use commercial_rchproxy.Common.{List, [], ◌∷◌, ◌≡◌, refl, arith}
use commercial_rchproxy.Logging.Queue.{
  new_queue, put_nowait, drop_oldest, put_again, enqueue, handle_from, LogAction, logs, handles,
  act, act_all,
}
use commercial_rchproxy.Logging.Retention.{IsRetained, logged, act_all-new_queue}

-- The second record is dropped.
abbrev session : List LogAction
session = logs 1 ∷ handles ∷ logs 2 ∷ logs 3 ∷ logs 4 ∷ []

act_all-session : (act_all session (new_queue 2)).queue ≡ 3 ∷ 4 ∷ []
unfolding act_all act enqueue put_nowait put_again drop_oldest handle_from
act_all-session = refl

act_all-new_queue_example : IsRetained 2 (logged session) (act_all session (new_queue 2))
act_all-new_queue_example = act_all-new_queue 2 session (omega arith)
