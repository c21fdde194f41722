-- ===== src/Server/Scheduler/Tasks.antt =====
-- What taking a task from the shared queue does.
use gss.Base.{
  List-cases, ◌^◌, ◌<◌, ◌≡◌, refl, inl, inr, false, List, [], ◌∷◌, ◌++◌, some, length, ◌∙◌, ap,
  subst₂,
}
use gss.Base.Try.{returned, raised, out_of_range}
use gss.Base.Text.{Text}
use gss.Containers.Queue.{Queue}
use gss.Server.Libraries.{PosixTime}
use gss.Server.Task.{Task}
use gss.Server.SharedState.{SharedState, new_state, take_task, push_task, tasks, must_wait}

module _ {time : PosixTime} {queue : Queue (Task time)} where
  -- The first task is taken: it is current, and the others are left.
  pub record Taken (t : Task time) (ts : List (Task time)) (s r : SharedState queue) : Type 0 where
    pub left : tasks queue r ≡ ts
    pub now : r.curr ≡ some t
    pub same_sessions : r.sessions ≡ s.sessions
    pub same_root : r.doc_root ≡ s.doc_root

  pub take_task-cons :
      (s : SharedState queue) (t : Task time) (ts : List (Task time))
      → tasks queue s ≡ t ∷ ts
      → (r : SharedState queue) × (take_task queue s ≡ returned (t, r)) × Taken t ts s r
  unfolding take_task tasks
  take_task-cons s t ts e =
      let (rest, popped, left) = queue.pop_front-cons s.tasks_queue t ts e in
      (
        record s { curr = some t; tasks_queue = rest },
        rw (queue.front-cons s.tasks_queue t ts e, popped),
        record { left = left; now = refl; same_sessions = refl; same_root = refl },
      )

  pub take_task-nil :
      (s : SharedState queue)
      → tasks queue s ≡ []
      → take_task queue s ≡ raised (out_of_range "Empty list.")
  unfolding take_task tasks
  take_task-nil s e = rw (queue.front-nil s.tasks_queue e)

  pub take_task-Taken :
      (s : SharedState queue) (t : Task time) {r : SharedState queue}
      → take_task queue s ≡ returned (t, r)
      → (ts : List (Task time)) × (tasks queue s ≡ t ∷ ts) × Taken t ts s r
  take_task-Taken s t {r} e = elim (List-cases (tasks queue s)) [
    | inl nil ↦ cc (take_task-nil s nil)
    | inr (u, us, cons) ↦ same u us cons (take_task-cons s u us cons)
  ]
    where
      same :
          (u : Task time) (us : List (Task time))
          → tasks queue s ≡ u ∷ us
          → (r' : SharedState queue) × (take_task queue s ≡ returned (u, r')) × Taken u us s r'
          → (ts : List (Task time)) × (tasks queue s ≡ t ∷ ts) × Taken t ts s r
      same u us cons (r', e', taken) =
          let task_eq : u ≡ t = cc (e, e') in
          let state_eq : r' ≡ r = cc (e, e') in
          (
            us,
            cons ∙ ap (λ x. x ∷ us) task_eq,
            subst₂ (λ x y. Taken x us s y) task_eq state_eq taken,
          )

  -- The wait is over only when there is a task, and taking it throws nothing.
  pub must_wait-take :
      (s : SharedState queue)
      → must_wait queue s ≡ false
      → (t : Task time) × (r : SharedState queue) × (take_task queue s ≡ returned (t, r))
  unfolding must_wait tasks
  must_wait-take s go = elim (List-cases (tasks queue s)) [
    | inl nil ↦ cc (queue.empty-nil s.tasks_queue nil)
    | inr (t, ts, cons) ↦ let (r, e, _) = take_task-cons s t ts cons in (t, r, e)
  ]

  pub must_wait-cons :
      (s : SharedState queue) (t : Task time) (ts : List (Task time))
      → tasks queue s ≡ t ∷ ts
      → length (tasks queue s) < 2 ^ 64
      → must_wait queue s ≡ false
  unfolding must_wait tasks
  must_wait-cons s t ts = queue.empty-cons s.tasks_queue t ts

  pub tasks-push_task :
      (t : Task time) (s : SharedState queue)
      → tasks queue (push_task queue t s) ≡ tasks queue s ++ t ∷ []
  unfolding tasks push_task
  tasks-push_task t s = queue.contents-push_back t s.tasks_queue

module _ {time : PosixTime} (queue : Queue (Task time)) where
  pub tasks-new_state : (root : Text) → tasks queue (new_state queue root) ≡ []
  unfolding tasks new_state
  tasks-new_state root = queue.contents-new_list
