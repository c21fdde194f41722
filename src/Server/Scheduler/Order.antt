-- ===== src/Server/Scheduler/Order.antt =====
-- Tasks finish in the order in which they were pushed; what `current` says meanwhile.
use gss.Base.{
  ℕ, ◌≡◌, refl, List, [], ◌∷◌, ◌++◌, Option, none, some, append_assoc, list_laws, ap, sym, ◌∙◌,
  subst,
}
use gss.Base.Text.{Text}
use gss.Base.Try.{returned}
use gss.Containers.Queue.{Queue}
use gss.Server.Libraries.{PosixTime, JsonLibrary}
use gss.Server.Task.{Task}
use gss.Server.SharedState.{
  SharedState, new_state, join, leave, push_task, take_task, tasks, current,
}
use gss.Server.Scheduler.{
  Worker, on_consumer, timing, on_io, running, System, boot, pushing, taking, firing, Step, push,
  joins, leaves, start, fire, resume, Reach, here, next,
}
use gss.Server.Scheduler.Tasks.{Taken, take_task-Taken, tasks-push_task}

-- What `curr_` holds: nothing before the first task, then the task whose timer is set, and while
-- the callback waits, the task that finished last.
abbrev pub CurrentFits :
    {time : PosixTime} → Worker time → List (Task time) → Option (Task time) → Type 0
CurrentFits on_consumer finished curr = (curr ≡ none) × (finished ≡ [])
CurrentFits (timing t) finished curr = curr ≡ some t
CurrentFits {time} on_io finished curr =
    (before : List (Task time)) × (t : Task time) × (finished ≡ before ++ t ∷ []) × (curr ≡ some t)

module _ {time : PosixTime} {queue : Queue (Task time)} where
  pub record Inv (s : System queue) : Type 0 where
    pub ordered : s.finished ++ (running s.worker ++ tasks queue s.shared) ≡ s.pushed
    pub current_fits : CurrentFits s.worker s.finished (current queue s.shared)

  pub boot-Inv : (root : Text) → Inv (boot queue root)
  unfolding boot new_state tasks current
  boot-Inv root = record { ordered = queue.contents-new_list; current_fits = (refl, refl) }

  Taken-ordered :
      (done pushed : List (Task time)) (t : Task time) (ts : List (Task time))
      (s r : SharedState queue)
      → done ++ ([] ++ tasks queue s) ≡ pushed
      → tasks queue s ≡ t ∷ ts
      → Taken t ts s r
      → done ++ ((t ∷ []) ++ tasks queue r) ≡ pushed
  Taken-ordered done pushed t ts s r ordered cons taken =
      ap (λ l. done ++ (t ∷ l)) taken.left ∙ ap (λ l. done ++ l) (sym cons) ∙ ordered

  -- The invariant, at the place where the worker is known to be.
  Inv-at :
      (s : System queue) {w : Worker time}
      → s.worker ≡ w
      → Inv s
      → (s.finished ++ (running w ++ tasks queue s.shared) ≡ s.pushed)
        × CurrentFits w s.finished (current queue s.shared)
  Inv-at s {w} at inv = (
    subst (λ w. s.finished ++ (running w ++ tasks queue s.shared) ≡ s.pushed) at inv.ordered,
    subst (λ w. CurrentFits w s.finished (current queue s.shared)) at inv.current_fits,
  )

  taking-Inv :
      (s : System queue) (t : Task time) (r : SharedState queue)
      → s.finished ++ ([] ++ tasks queue s.shared) ≡ s.pushed
      → take_task queue s.shared ≡ returned (t, r)
      → Inv (taking queue t r s)
  unfolding taking current
  taking-Inv s t r ordered e =
      let (ts, cons, taken) = take_task-Taken s.shared t e in
      record {
        ordered = Taken-ordered s.finished s.pushed t ts s.shared r ordered cons taken;
        current_fits = taken.now;
      }

  pushing-ordered :
      (t : Task time) (s : System queue)
      → Inv s
      → s.finished ++ (running s.worker ++ tasks queue (push_task queue t s.shared))
        ≡ s.pushed ++ t ∷ []
  pushing-ordered t s inv = rw (tasks-push_task t s.shared, sym inv.ordered) (simp list_laws)

  Step-Inv :
      {json : JsonLibrary} {threads : ℕ} (s : System queue) {r : System queue}
      → Step queue json threads s r
      → Inv s
      → Inv r
  unfolding pushing firing push_task join leave tasks current
  Step-Inv s (push t free) inv = record {
    ordered = pushing-ordered t s inv;
    current_fits = inv.current_fits;
  }
  Step-Inv s (joins x free) inv = record { ordered = inv.ordered; current_fits = inv.current_fits }
  Step-Inv s (leaves x free) inv = record { ordered = inv.ordered; current_fits = inv.current_fits }
  Step-Inv s (start t r at go e) inv = taking-Inv s t r (Inv-at s at inv).0 e
  Step-Inv s (fire alive uid t at free) inv = record {
    ordered = append_assoc s.finished (t ∷ []) (tasks queue s.shared) ∙ (Inv-at s at inv).0;
    current_fits = (s.finished, t, refl, (Inv-at s at inv).1);
  }
  Step-Inv s (resume t r at go e) inv = taking-Inv s t r (Inv-at s at inv).0 e

  pub Reach-Inv :
      {json : JsonLibrary} {threads : ℕ} {s r : System queue}
      → Inv s
      → Reach queue json threads s r
      → Inv r
  Reach-Inv inv here = inv
  Reach-Inv inv (next {u} r st) = Step-Inv u st (Reach-Inv inv r)

  module _ {json : JsonLibrary} (root : Text) (threads : ℕ) (s : System queue)
      (r : Reach queue json threads (boot queue root) s) where
    -- However the handlers and the timer interleave, the tasks whose timer has run out, then the
    -- one whose timer is set, then those in the queue, are the tasks in the order of their pushes.
    pub tasks-fifo : s.finished ++ (running s.worker ++ tasks queue s.shared) ≡ s.pushed
    tasks-fifo = (Reach-Inv (boot-Inv root) r).ordered

    -- In every state that the server can reach in which the callback waits for a task, a task has
    -- finished, and `current` is the one that finished last.
    pub current-stale :
        s.worker ≡ on_io
        → (before : List (Task time)) × (t : Task time) × (s.finished ≡ before ++ t ∷ [])
          × (current queue s.shared ≡ some t)
    current-stale at = (Inv-at s at (Reach-Inv (boot-Inv root) r)).1
