-- ===== src/Tests/Tasks.antt =====
-- The task loop and `main` at one task.
use gss.Base.{ℕ, ◌<◌, ◌≡◌, refl, false, [], ◌∷◌, none, some, arith, ◌≤◌, ◌*◌, ◌+◌, length, ◌⊎◌}
use gss.Base.Int.{pos}
use gss.Base.Text.{codes}
use gss.Base.Try.{returned}
use gss.Server.Task.{new_task, serialize}
use gss.Server.Task.Json.{task_of, task_of-serialize}
use gss.Server.SharedState.{SharedState, join, emplace, member, tasks, take_task, must_wait}
use gss.Server.Scheduler
use gss.Server.Scheduler.{
  System, boot, pushing, taking, firing, on_io, running, push, start, fire, joins,
}
use gss.Server.Scheduler.Progress.{IsStuck}
use gss.Server.Main.{Options, Served, main}
use gss.Server.Main.Threads.{AsksFor, main-io_threads, main-hangs}
use gss.Server.Scheduler.Termination.{CanWork, begin, further, Works-ends}
use gss.Tests.Instances.{alive, ann, clock, json, plain_queue, wash, root}

abbrev initial : System plain_queue
unfolding boot
initial = boot plain_queue root

abbrev one_joined : System plain_queue
unfolding initial
one_joined = record initial { shared = join plain_queue 1 initial.shared }

abbrev one_pushed : System plain_queue
unfolding pushing
one_pushed = pushing plain_queue wash one_joined

path_pushed :
    {threads : ℕ} → 0 < threads → Scheduler.Reach plain_queue json threads initial one_pushed
unfolding initial one_joined pushing one_pushed
path_pushed some_threads =
    Scheduler.next (Scheduler.next Scheduler.here (joins 1 some_threads)) (push wash some_threads)

abbrev after : SharedState plain_queue
after = record { doc_root = root; sessions = 1 ∷ []; tasks_queue = []; curr = some wash }

abbrev waiting : System plain_queue
unfolding taking firing
waiting = firing plain_queue json alive ann wash (taking plain_queue wash after one_pushed)

abbrev arguments : Options
arguments = record { port = some 8080; address_in = none; threads_in = none; show_version = false }

abbrev by_default : Served
by_default = record { address = codes "0.0.0.0"; port = 8080; io_threads = 1 }

main-io_threads_example : (0 < by_default.io_threads) × AsksFor arguments by_default.io_threads
unfolding main
main-io_threads_example = main-io_threads returned arguments by_default refl

main-hangs_example :
    (s : System plain_queue) × Scheduler.Reach plain_queue json 1 (boot plain_queue root) s
    × (s.pushed ≡ wash ∷ [])
    × IsStuck json 1 s
unfolding main
main-hangs_example =
    main-hangs plain_queue json alive ann returned arguments by_default root wash refl refl

task_of-serialize_example :
    task_of {time = clock} json (json.dump (serialize json wash))
    ≡ returned (new_task (codes "Ann") (codes "wash") (pos 15))
unfolding serialize new_task
task_of-serialize_example =
    task_of-serialize clock json (codes "Ann") (codes "wash") 75 (omega arith) refl

Works-ends_example :
    (2 ≤ 2 * length (tasks plain_queue one_pushed.shared) + length (running one_pushed.worker))
    × ((waiting.finished ≡ one_pushed.pushed) ⊎ CanWork plain_queue json 2 waiting)
unfolding take_task must_wait one_pushed one_joined initial join emplace member taking firing
    waiting tasks
Works-ends_example =
    Works-ends root one_pushed 2 waiting (omega arith) (omega arith) (path_pushed (omega arith)) (
      further (further begin (start wash after refl refl refl) tt)
        (fire alive ann wash refl (omega arith)) tt)
