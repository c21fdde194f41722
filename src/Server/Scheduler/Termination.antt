-- ===== src/Server/Scheduler/Termination.antt =====
-- How long the task loop can go on without a new task, and where it ends.
use gss.Base.{
  List-cases, ℕ, zero, suc, ◌+◌, ◌*◌, ◌^◌, ◌<◌, ◌≤◌, ◌≡◌, refl, ◌⊎◌, inl, inr, List, [], ◌∷◌, true,
  length, arith, ap, ◌∙◌,
}
use gss.Base.Text.{Text}
use gss.Containers.Queue.{Queue}
use gss.Server.Libraries.{PosixTime, JsonLibrary}
use gss.Server.Task.{Task}
use gss.Server.SharedState.{SharedState, tasks, take_task}
use gss.Base.Try.{returned}
use gss.Server.Scheduler.{
  Worker, on_consumer, timing, on_io, held, running, System, boot, taking, firing, Step, push,
  joins, leaves, start, fire, resume, Reach, next,
}
use gss.Server.Scheduler.Tasks.{take_task-cons, take_task-Taken, must_wait-cons}
use gss.Server.Scheduler.Order.{boot-Inv, Reach-Inv}
use gss.Server.Scheduler.Progress.{IsIdle, Worker-cases, idle-finished}

-- The steps that are left: two for each task in the queue, one for the task whose timer is set.
pub steps_left : {time : PosixTime} (queue : Queue (Task time)) → System queue → ℕ
steps_left queue s = 2 * length (tasks queue s.shared) + length (running s.worker)

-- The steps of the task loop: a task is taken, or its timer runs out.
abbrev pub IsWork :
    {time : PosixTime} {queue : Queue (Task time)} {json : JsonLibrary} {threads : ℕ}
    {s r : System queue}
    → Step queue json threads s r
    → Type 0
IsWork (push t free) = ⊥
IsWork (joins x free) = ⊥
IsWork (leaves x free) = ⊥
IsWork (start t shared at go e) = Unit {0}
IsWork (fire alive uid t at free) = Unit {0}
IsWork (resume t shared at go e) = Unit {0}

module _ {time : PosixTime} (queue : Queue (Task time)) (json : JsonLibrary) (threads : ℕ) where
  -- A run of `n` such steps, and nothing else.
  pub data Works (s : System queue) : ℕ → System queue → Type 0 where
    begin : Works s zero s
    further :
        {n : ℕ} {u v : System queue}
        → Works s n u
        → (st : Step queue json threads u v) → IsWork st
        → Works s (suc n) v

  -- The task loop can make a step.
  abbrev pub CanWork : System queue → Type 0
  CanWork s = (r : System queue) × (st : Step queue json threads s r) × IsWork st

running_le : {time : PosixTime} (w : Worker time) → length (running w) ≤ 1
running_le on_consumer = omega arith
running_le (timing t) = omega arith
running_le on_io = omega arith

module _ {time : PosixTime} {queue : Queue (Task time)} where
  taking-steps_left :
      (s : System queue) (t : Task time) {shared : SharedState queue}
      → length (running s.worker) ≡ 0
      → take_task queue s.shared ≡ returned (t, shared)
      → suc (steps_left queue (taking queue t shared s)) ≡ steps_left queue s
  unfolding steps_left taking
  taking-steps_left s t idle e =
      let (ts, cons, taken) = take_task-Taken s.shared t e in
      omega (arith, idle, ap length cons, ap length taken.left)

module _ {time : PosixTime} {queue : Queue (Task time)} {json : JsonLibrary} {threads : ℕ} where
  Step-steps_left :
      (s : System queue) {r : System queue} (st : Step queue json threads s r)
      → IsWork st
      → suc (steps_left queue r) ≡ steps_left queue s
  Step-steps_left s (push t free) w = absurd w
  Step-steps_left s (joins x free) w = absurd w
  Step-steps_left s (leaves x free) w = absurd w
  Step-steps_left s (start t shared at go e) w =
      taking-steps_left s t (ap (λ w. length (running w)) at) e
  Step-steps_left s (fire alive uid t at free) w =
      unfold steps_left firing in omega (arith, ap (λ w. length (running w)) at)
  Step-steps_left s (resume t shared at go e) w =
      taking-steps_left s t (ap (λ w. length (running w)) at) e

  Works-steps_left :
      {s : System queue} {n : ℕ} {r : System queue}
      → Works queue json threads s n r
      → n + steps_left queue r ≡ steps_left queue s
  Works-steps_left begin = omega arith
  Works-steps_left (further {u} run st w) =
      omega (arith, Works-steps_left run, Step-steps_left u st w)

  Works-Reach :
      {s u : System queue} {n : ℕ} {r : System queue}
      → Reach queue json threads u s
      → Works queue json threads s n r
      → Reach queue json threads u r
  Works-Reach path begin = path
  Works-Reach path (further run st w) = next (Works-Reach path run) st

  Step-pushed :
      (s : System queue) {r : System queue} (st : Step queue json threads s r)
      → IsWork st
      → r.pushed ≡ s.pushed
  unfolding taking firing
  Step-pushed s (push t free) w = absurd w
  Step-pushed s (joins x free) w = absurd w
  Step-pushed s (leaves x free) w = absurd w
  Step-pushed s (start t shared at go e) w = refl
  Step-pushed s (fire alive uid t at free) w = refl
  Step-pushed s (resume t shared at go e) w = refl

  Works-pushed :
      {s : System queue} {n : ℕ} {r : System queue}
      → Works queue json threads s n r
      → r.pushed ≡ s.pushed
  Works-pushed begin = refl
  Works-pushed (further {u} run st w) = Step-pushed u st w ∙ Works-pushed run

  can_take :
      (s : System queue) (t : Task time) (ts : List (Task time))
      → IsIdle s.worker
      → tasks queue s.shared ≡ t ∷ ts
      → length (tasks queue s.shared) < 2 ^ 64
      → CanWork queue json threads s
  can_take s t ts idle cons fits =
      let (shared, e, taken) = take_task-cons s.shared t ts cons in
      let go = must_wait-cons s.shared t ts cons fits in
      elim idle [
        | inl at ↦ (taking queue t shared s, start t shared at go e, tt)
        | inr at ↦ (taking queue t shared s, resume t shared at go e, tt)
      ]

  -- With one I/O thread at least, the worker can make a step, or waits on an empty queue.
  can_work :
      (s : System queue)
      → 0 < threads
      → length (tasks queue s.shared) < 2 ^ 64
      → CanWork queue json threads s ⊎ (IsIdle s.worker × (tasks queue s.shared ≡ []))
  can_work s some_threads fits = elim (Worker-cases s.worker) [
    | inl idle ↦ elim (List-cases (tasks queue s.shared)) [
      | inl nil ↦ inr (idle, nil)
      | inr (t, ts, cons) ↦ inl (can_take s t ts idle cons fits)
    ]
    | inr (t, at) ↦
        let free : held s.worker < threads = rw at some_threads in
        inl (firing queue json (λ x. true) (λ x. []) t s, fire (λ x. true) (λ x. []) t at free, tt)
  ]

  -- With one I/O thread at least, from a state that the server can reach and that has fewer than
  -- 2^64 tasks in the queue: every run of the task loop without a new task has at most two steps
  -- for each task in the queue and one for the task whose timer is set; wherever such a run stands,
  -- all tasks that were pushed have finished, in order, or the loop can make a further step.
  pub Works-ends :
      (root : Text) (s : System queue) (n : ℕ) (r : System queue)
      → 0 < threads
      → length (tasks queue s.shared) < 2 ^ 64
      → Reach queue json threads (boot queue root) s
      → Works queue json threads s n r
      → (n ≤ 2 * length (tasks queue s.shared) + length (running s.worker))
        × ((r.finished ≡ s.pushed) ⊎ CanWork queue json threads r)
  unfolding steps_left
  Works-ends root s n r some_threads fits path run =
      let falls = Works-steps_left run in
      let fewer : length (tasks queue r.shared) < 2 ^ 64 =
        omega (arith, falls, fits, running_le s.worker) in
      let inv = Reach-Inv (boot-Inv root) (Works-Reach path run) in
      (
        omega (arith, falls),
        elim (can_work r some_threads fewer) [
          | inl more ↦ inr more
          | inr (idle, nil) ↦ inl (idle-finished json r inv idle nil ∙ Works-pushed run)
        ],
      )
