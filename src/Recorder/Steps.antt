-- ===== src/Recorder/Steps.antt =====
-- The interleavings of src/commercialrchproxy/capture/recorder.py: the session's calls, which take
-- the lock in turn, and the steps of the live worker between them.
use commercial_rchproxy.Common.{
  ℕ, Bool, true, Option, none, some, List, [], ◌∷◌, ◌++◌, Bytes, length, ltb, ◌≡◌,
}
use commercial_rchproxy.Capture.Types.{Direction, CaptureToken, Clock}
use commercial_rchproxy.Recorder.Types.{Command, Settings, Manager, new_manager}
use commercial_rchproxy.Recorder.Manager.{record_chunk_event, mark_drain, close_manager, finalize}
use commercial_rchproxy.Recorder.Worker.{worker_step, worker_error}

abbrev pub commands_of : Option Command → List Command
commands_of none = []
commands_of (some c) = c ∷ []

-- A `put` that waited finds room.
unfoldable pub resume_put : Command → Manager → Manager
resume_put c m = record m { queue = m.queue ++ (c ∷ []); waiting = none }

-- One step from a manager to the next one, with the commands that the step has for the spool. While
-- a `put` waits its caller holds the lock.
pub data Step : Manager → List Command → Manager → Type 0 where
  records :
      {m : Manager} (clock : Clock) (direction : Direction) (payload : Bytes) (received : ℕ)
      (forwarded : Option ℕ)
      → m.waiting ≡ none
      → Step m
          (commands_of (record_chunk_event clock direction payload received forwarded m).1)
          (record_chunk_event clock direction payload received forwarded m).2
  marks :
      {m : Manager} (token : CaptureToken) (completed : Bool) (at : ℕ) (error : Option Bytes)
      → m.waiting ≡ none
      → Step m
          (commands_of (mark_drain token completed at error m).1)
          (mark_drain token completed at error m).2
  resumes :
      {m : Manager} (c : Command)
      → m.waiting ≡ some c
      → ltb (length m.queue) m.settings.queue_items ≡ true
      → Step m [] (resume_put c m)
  closes : {m : Manager} → Step m [] (close_manager m)
  finalizes :
      {m : Manager} (now : Bytes) (status : Option Bytes)
      → m.closed ≡ true
      → m.waiting ≡ none
      → Step m [] (finalize now status m)
  works : {m n : Manager} → worker_step m ≡ some n → Step m [] n
  fails : {m n : Manager} (error : Bytes) → worker_error error m ≡ some n → Step m [] n

-- The managers that steps from a new one lead to, with all the commands of the steps.
pub data Reached (settings : Settings) : List Command → Manager → Type 0 where
  begins : Reached settings [] (new_manager settings)
  steps :
      {issued commands : List Command} {m n : Manager}
      → Reached settings issued m
      → Step m commands n
      → Reached settings (issued ++ commands) n
