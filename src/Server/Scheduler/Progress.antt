-- ===== src/Server/Scheduler/Progress.antt =====
-- Whether the task loop can go on.
use gss.Base.{
  List-cases, Bool, ℕ, zero, suc, ◌^◌, ◌<◌, ◌≤◌, ◌≡◌, refl, ◌⊎◌, inl, inr, List, [], ◌∷◌, ◌++◌,
  length, arith, ap, sym, ◌∙◌, append-nil,
}
use gss.Base.Text.{Text}
use gss.Containers.Queue.{Queue}
use gss.Server.Libraries.{PosixTime, JsonLibrary}
use gss.Server.Task.{Task}
use gss.Server.SharedState.{SessionId, SharedState, new_state, tasks}
use gss.Server.Scheduler.{
  Worker, on_consumer, timing, on_io, held, running, System, boot, pushing, taking, firing, Step,
  push, joins, leaves, start, fire, resume, Reach, here, next,
}
use gss.Server.Scheduler.Tasks.{
  take_task-cons, take_task-nil, must_wait-cons, tasks-push_task, tasks-new_state,
}
use gss.Server.Scheduler.Order.{Inv, boot-Inv, Reach-Inv}

-- The worker waits for a task.
abbrev pub IsIdle : {time : PosixTime} → Worker time → Type 0
IsIdle w = (w ≡ on_consumer) ⊎ (w ≡ on_io)

pub Worker-cases :
    {time : PosixTime} (w : Worker time) → IsIdle w ⊎ ((t : Task time) × (w ≡ timing t))
Worker-cases on_consumer = inl (inl refl)
Worker-cases (timing t) = inr (t, refl)
Worker-cases on_io = inl (inr refl)

held-le : {time : PosixTime} (w : Worker time) → held w ≤ 1
held-le on_consumer = omega arith
held-le (timing t) = omega arith
held-le on_io = omega arith

less : (n : ℕ) → suc n < 2 ^ 64 → n < 2 ^ 64
less n fits = omega arith

module _ {time : PosixTime} {queue : Queue (Task time)} (json : JsonLibrary) where
  -- Nothing can happen any more.
  abbrev pub IsStuck : ℕ → System queue → Type 0
  IsStuck threads s = (r : System queue) → ¬ Step queue json threads s r

  one_thread_busy : (s : System queue) → s.worker ≡ on_io → ¬ (held s.worker < 1)
  one_thread_busy s at free = absurd (omega (arith, ap held at))

  -- With one I/O thread, once the callback waits on an empty queue, no step is possible: the
  -- handler that would push a task has no thread to run on.
  pub one_thread-IsStuck :
      (s : System queue) → s.worker ≡ on_io → tasks queue s.shared ≡ [] → IsStuck 1 s
  one_thread-IsStuck s at nil r (push t free) = one_thread_busy s at free
  one_thread-IsStuck s at nil r (joins x free) = one_thread_busy s at free
  one_thread-IsStuck s at nil r (leaves x free) = one_thread_busy s at free
  one_thread-IsStuck s at nil r (start t shared at' go e) = cc (at, at')
  one_thread-IsStuck s at nil r (fire alive uid t at' free) = cc (at, at')
  one_thread-IsStuck s at nil r (resume t shared at' go e) = cc (e, take_task-nil s.shared nil)

  Reach-first :
      {threads : ℕ} {s u v : System queue}
      → Step queue json threads s u
      → Reach queue json threads u v
      → Reach queue json threads s v
  Reach-first st here = next here st
  Reach-first st (next r last) = next (Reach-first st r) last

  -- An idle worker takes the first task.
  take_first :
      {threads : ℕ} (s : System queue) (t : Task time) (ts : List (Task time))
      → IsIdle s.worker
      → tasks queue s.shared ≡ t ∷ ts
      → length (tasks queue s.shared) < 2 ^ 64
      → (shared : SharedState queue) × Step queue json threads s (taking queue t shared s)
        × (tasks queue shared ≡ ts)
  take_first s t ts idle cons fits =
      let (shared, e, taken) = take_task-cons s.shared t ts cons in
      let go = must_wait-cons s.shared t ts cons fits in
      (
        shared,
        elim idle [ inl at ↦ start t shared at go e | inr at ↦ resume t shared at go e ],
        taken.left,
      )

  -- From `s` the queue is emptied, and the worker waits, without another push.
  abbrev pub Drains : ℕ → System queue → Type 0
  Drains threads s =
      (r : System queue) × Reach queue json threads s r
      × IsIdle r.worker
      × (tasks queue r.shared ≡ [])
      × (r.pushed ≡ s.pushed)

  pub idle-finished :
      (s : System queue)
      → Inv s
      → IsIdle s.worker
      → tasks queue s.shared ≡ []
      → s.finished ≡ s.pushed
  idle-finished s inv idle nil =
      sym (append-nil s.finished)
      ∙ ap (λ l. s.finished ++ l) (sym (nothing s.worker idle))
      ∙ ap (λ l. s.finished ++ (running s.worker ++ l)) (sym nil)
      ∙ inv.ordered
    where
      nothing : (w : Worker time) → IsIdle w → running w ++ [] ≡ []
      nothing on_consumer i = refl
      nothing (timing t) (inl e) = cc
      nothing (timing t) (inr e) = cc
      nothing on_io i = refl

  -- With two I/O threads or more, a task can be pushed in every state.
  pub two_threads_push :
      (threads : ℕ) (s : System queue) (t : Task time)
      → 1 < threads
      → Step queue json threads s (pushing queue t s)
  two_threads_push threads s t enough = push t (omega (arith, held-le s.worker))

  -- The sessions that are alive when a timer runs out, and their names.
  module _ (alive : SessionId → Bool) (uid : SessionId → Text) where
    drain_idle :
        (threads n : ℕ) (s : System queue)
        → 0 < threads
        → IsIdle s.worker
        → length (tasks queue s.shared) ≡ n
        → n < 2 ^ 64
        → Drains threads s
    unfolding taking firing
    drain_idle threads zero s some_threads idle size fits =
        elim (List-cases (tasks queue s.shared)) [
          | inl nil ↦ (s, here, idle, nil, refl)
          | inr (t, ts, cons) ↦ absurd (omega (arith, size, ap length cons))
        ]
    drain_idle threads (suc n) s some_threads idle size fits =
        elim (List-cases (tasks queue s.shared)) [
          | inl nil ↦ absurd (omega (arith, size, ap length nil))
          | inr (t, ts, cons) ↦
              let (shared, st, left) = take_first s t ts idle cons (omega (arith, size)) in
              let u : System queue = taking queue t shared s in
              let v : System queue = firing queue json alive uid t u in
              let shorter : length (tasks queue shared) ≡ n =
                ap length left ∙ omega (arith, size, ap length cons) in
              let d = drain_idle threads n v some_threads (inr refl) shorter (less n fits) in
              (
                d.0,
                Reach-first st (Reach-first (fire alive uid t refl some_threads) d.1),
                d.2,
                d.3,
                d.4,
              )
        ]

    drain :
        (threads : ℕ) (s : System queue)
        → 0 < threads
        → length (tasks queue s.shared) < 2 ^ 64
        → Drains threads s
    unfolding firing
    drain threads s some_threads fits = elim (Worker-cases s.worker) [
      | inl idle ↦ drain_idle threads _ s some_threads idle refl fits
      | inr (t, at) ↦
          let v : System queue = firing queue json alive uid t s in
          let free : held s.worker < threads = rw at some_threads in
          let d = drain_idle threads _ v some_threads (inr refl) refl fits in
          (d.0, Reach-first (fire alive uid t at free) d.1, d.2, d.3, d.4)
    ]

    -- From every state that the server can reach, with at least one I/O thread and fewer than 2^64
    -- tasks in the queue, steps are possible after which every task that was pushed has finished,
    -- in the order of the pushes.
    pub tasks-finish :
        (root : Text) (threads : ℕ) (s : System queue)
        → 0 < threads
        → length (tasks queue s.shared) < 2 ^ 64
        → Reach queue json threads (boot queue root) s
        → (r : System queue) × Reach queue json threads s r × (r.finished ≡ s.pushed)
    tasks-finish root threads s some_threads fits path =
        let d = drain threads s some_threads fits in
        let inv = Reach-Inv (Reach-Inv (boot-Inv root) path) d.1 in
        (d.0, d.1, idle-finished d.0 inv d.2 d.3 ∙ d.4)

    -- With one I/O thread, for every task the server can reach a state in which that task is the
    -- only one pushed, it has finished, and no step is possible any more.
    pub one_thread-hangs :
        (root : Text) (t : Task time)
        → (s : System queue) × Reach queue json 1 (boot queue root) s
          × (s.pushed ≡ t ∷ [])
          × (s.finished ≡ t ∷ [])
          × IsStuck 1 s
    unfolding boot pushing taking firing
    one_thread-hangs root t =
        let s1 : System queue = pushing queue t (boot queue root) in
        let first : tasks queue s1.shared ≡ t ∷ [] =
          tasks-push_task t (new_state queue root)
          ∙ ap (λ l. l ++ t ∷ []) (tasks-new_state queue root) in
        let (shared, st, left) =
          take_first {threads = 1} s1 t [] (inl refl) first (omega (arith, ap length first)) in
        let u : System queue = taking queue t shared s1 in
        let v : System queue = firing queue json alive uid t u in
        (
          v,
          next (next (next here (push t (omega arith))) st) (fire alive uid t refl (omega arith)),
          refl,
          refl,
          one_thread-IsStuck v refl left,
        )
