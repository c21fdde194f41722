-- ===== src/Server/Scheduler.antt =====
-- The task loop of src/gss-server: `process_tasks` of shared_state.cpp with its wait and its timer,
-- the handlers that run on the threads of `io_context` (main.cpp), and the mutex, under which each
-- access to the shared state is one step. `main` starts one thread that calls `process_tasks`; that
-- thread ends when the first timer is set, and from then on the timer's callback, on an I/O thread,
-- calls `process_tasks` again and holds its thread while it waits.
pub mod Tasks
pub mod Order
pub mod Progress
pub mod Posted
pub mod Termination
use gss.Base.{ℕ, ◌<◌, ◌≡◌, Bool, true, false, List, [], ◌∷◌, ◌++◌, Option, none, some}
use gss.Base.Text.{Text}
use gss.Base.Try.{Try, returned}
use gss.Containers.Queue.{Queue}
use gss.Server.Libraries.{PosixTime, JsonLibrary}
use gss.Server.Task.{Task}
use gss.Server.SharedState.{
  SharedState, SessionId, new_state, join, leave, push_task, take_task, must_wait, timer_sends,
}

-- Where `process_tasks` is: in its own thread before the first task, between two calls with the
-- timer of a task set, or in the callback on an I/O thread.
pub data Worker (time : PosixTime) : Type 0 where
  on_consumer : Worker time
  timing : Task time → Worker time
  on_io : Worker time

-- The I/O threads that `process_tasks` holds, and the task whose timer is set.
abbrev pub held : {time : PosixTime} → Worker time → ℕ
held on_consumer = 0
held (timing t) = 0
held on_io = 1

abbrev pub running : {time : PosixTime} → Worker time → List (Task time)
running on_consumer = []
running (timing t) = t ∷ []
running on_io = []

module _ {time : PosixTime} (queue : Queue (Task time)) where
  -- `pushed` and `finished` record the tasks that were pushed, and those whose timer has run out;
  -- `posted` the messages that the timers have posted to sessions.
  pub record System : Type 0 where
    pub shared : SharedState queue
    pub worker : Worker time
    pub pushed : List (Task time)
    pub finished : List (Task time)
    pub posted : List (SessionId × Text)

  unfoldable pub boot : Text → System
  unfolding new_state
  boot root = record {
    shared = new_state queue root;
    worker = on_consumer;
    pushed = [];
    finished = [];
    posted = [];
  }

  unfoldable pub pushing : Task time → System → System
  unfolding push_task
  pushing t s = record s { shared = push_task queue t s.shared; pushed = s.pushed ++ t ∷ [] }

  unfoldable pub taking : Task time → SharedState queue → System → System
  taking t shared s = record s { shared = shared; worker = timing t }

  module _ (json : JsonLibrary) where
    -- The callback of the timer, up to its call of `process_tasks`, at the sessions that are alive
    -- then and the names that they have.
    unfoldable pub firing : (SessionId → Bool) → (SessionId → Text) → Task time → System → System
    unfolding timer_sends
    firing alive uid t s = record s {
      worker = on_io;
      finished = s.finished ++ t ∷ [];
      posted = s.posted ++ timer_sends queue json alive uid t s.shared;
    }

    -- A handler runs on an I/O thread that is free. The wait ends only when the queue is not empty.
    pub data Step (threads : ℕ) (s : System) : System → Type 0 where
      push : (t : Task time) → held s.worker < threads → Step threads s (pushing t s)
      joins :
          (x : SessionId)
          → held s.worker < threads
          → Step threads s (record s { shared = join queue x s.shared })
      leaves :
          (x : SessionId)
          → held s.worker < threads
          → Step threads s (record s { shared = leave queue x s.shared })
      start :
          (t : Task time) (shared : SharedState queue)
          → s.worker ≡ on_consumer
          → must_wait queue s.shared ≡ false
          → take_task queue s.shared ≡ returned (t, shared)
          → Step threads s (taking t shared s)
      fire :
          (alive : SessionId → Bool) (uid : SessionId → Text) (t : Task time)
          → s.worker ≡ timing t
          → held s.worker < threads
          → Step threads s (firing alive uid t s)
      resume :
          (t : Task time) (shared : SharedState queue)
          → s.worker ≡ on_io
          → must_wait queue s.shared ≡ false
          → take_task queue s.shared ≡ returned (t, shared)
          → Step threads s (taking t shared s)

    pub data Reach (threads : ℕ) (s : System) : System → Type 0 where
      here : Reach threads s s
      next : {u v : System} → Reach threads s u → Step threads u v → Reach threads s v
