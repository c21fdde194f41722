-- ===== src/Tests/Whole/Witnesses.antt =====
-- The theorems on the whole server, at its run.
use gss.Base.{
  ◌≡◌, refl, true, false, List, [], ◌∷◌, ◌++◌, map, arith, Bool-cases, inl, inr, sym, ◌==◌, ==_iff,
  ◌≢◌, ◌↔◌,
}
use gss.Base.Text.{Text, contains, text_eq}
use gss.Base.Try.{parse_error}
use gss.Server.Task.Json.{task_of}
use gss.Server.SharedState.{SessionId, tasks, member, update_message, push_task}
use gss.Server.Scheduler
use gss.Server.Scheduler.{running, boot, on_io}
use gss.Server.Scheduler.Posted.{Updates}
use gss.Server.HttpSession.Handler.{Request, illegal_target, handle_request, post_task}
use gss.Server.HttpSession.Connection
use gss.Server.HttpSession.Connection.Serving
use gss.Server.HttpSession.Connection.Serving.{stamp}
use gss.Server.Hub
use gss.Server.Hub.{Hub, new_hub, post, posts, timer, uid_in}
use gss.Server.Hub.Log.{posts_to, from, for}
use gss.Server.Hub.Arrival.{texts}
use gss.Server.Main.Escape.{of_main, escape}
use gss.Server.Whole.{going, over, Server, launch}
use gss.Server.Whole.Steps.{Reach, Step, next, visits, ask_raises}
use gss.Server.Whole.Threads.{IsFrozen, callback-IsFrozen}
use gss.Server.Whole.Posts.{posted_tasks}
use gss.Server.Whole.Forget.{forget}
use gss.Server.Whole.Loop.{system_of, Reach-system_of, tasks-posted}
use gss.Server.Whole.Sessions.{Reach-forget}
use gss.Server.Whole.Updates.{posts_to-Updates}
use gss.Server.Whole.Connections.{of, KeepBefore}
use gss.Server.Whole.Connections.Served.{answers-in_order}
use gss.Server.Whole.Ends.Causes.{Cause, ended-Cause}
use gss.Server.Whole.Arrival.{update_arrives}
use gss.Server.Whole.Queued.{queued_update_arrives}
use gss.Server.Whole.Progress.Finishing.{finished-posted}
use gss.Server.Whole.Shutdown.{IsHeld, stop-IsHeld}
use gss.Server.Whole.Winding.{Winds}
use gss.Tests.Whole.{
  echoed, post_wash, task, second, asked, taken, timed_out, path_second, path_asked, path_taken,
  path_timed_out,
}
use gss.Tests.Instances.{json, environment, plain_queue, root}

abbrev update : Text
update = update_message json task

abbrev posted : Hub plain_queue
unfolding post timed_out
posted = post plain_queue timer 1 update [] timed_out.hub

last_step : Step environment plain_queue 0 timed_out (record timed_out { hub = posted })
unfolding timed_out posted text_eq task
last_step = visits posted (posts timer 1 update [] refl) refl tt

callback-IsFrozen_example : IsFrozen environment plain_queue 0 (record timed_out { hub = posted })
unfolding timed_out tasks text_eq task
callback-IsFrozen_example =
    callback-IsFrozen environment plain_queue root timed_out (record timed_out { hub = posted })
      path_timed_out refl refl last_step

tasks-posted_example :
    timed_out.finished ++ (running timed_out.worker ++ tasks plain_queue timed_out.hub.shared)
    ≡ posted_tasks json timed_out.requests
tasks-posted_example = tasks-posted environment plain_queue 1 root timed_out path_timed_out

-- The task of the body.
one_posted : posted_tasks json timed_out.requests ≡ task ∷ []
unfolding timed_out illegal_target contains task_of text_eq
one_posted = refl

Reach-system_of_example :
    Scheduler.Reach plain_queue json 2
      (boot plain_queue root)
      (system_of environment plain_queue timed_out)
Reach-system_of_example = Reach-system_of environment plain_queue 1 root timed_out path_timed_out

Reach-forget_example :
    Hub.Reach plain_queue json (new_hub plain_queue root) (forget plain_queue timed_out.hub)
Reach-forget_example = Reach-forget environment plain_queue root 1 timed_out path_timed_out

posts_to-Updates_example :
    (updates : List (SessionId × Text)) × Updates json timed_out.finished updates
    × (from timer (posts_to 1 timed_out.hub.log) ++ for 1 (timed_out.hub.outbox timer)
        ≡ for 1 updates)
    × ((timed_out.hub.links 1).written
          ++ ((timed_out.hub.links 1).session.queue ++ timed_out.hub.inbox 1)
        ≡ texts (posts_to 1 timed_out.hub.log))
unfolding timed_out text_eq task
posts_to-Updates_example =
    posts_to-Updates environment plain_queue root 1 timed_out 1 path_timed_out refl

answers-in_order_example :
    (map stamp (of 1 asked.answers) ≡ map Serving.asked (of 1 asked.requests))
    × KeepBefore (of 1 asked.requests)
answers-in_order_example = answers-in_order environment plain_queue 1 root asked 1 path_asked

-- A POST without a body.
abbrev post_nothing : Request
unfolding post_wash
post_nothing = record post_wash { body = [] }

abbrev ended : Server environment plain_queue
unfolding second
ended = record second { status = over (escape 1 of_main parse_error) }

path_ended : Reach environment plain_queue 1 (launch environment plain_queue root) ended
unfolding second ended post_nothing Connection.on_read handle_request post_task task_of
    illegal_target contains
path_ended = next path_second (
    ask_raises 1 Connection.success false post_nothing of_main parse_error refl (omega arith) refl
      refl)

ended-Cause_example :
    (u : Server environment plain_queue) × Reach environment plain_queue 1
      (launch environment plain_queue root)
      u
    × (u.status ≡ going)
    × Cause environment plain_queue 1 u (escape 1 of_main parse_error)
unfolding ended
ended-Cause_example =
    ended-Cause environment plain_queue 1 root ended (escape 1 of_main parse_error) path_ended refl

only_ann :
    (z : SessionId)
    → member z echoed.hub.shared.sessions ≡ true
    → uid_in plain_queue echoed.hub z ≡ task.assignee
    → z ≡ 1
unfolding echoed task
only_ann z inside is_ann = elim (Bool-cases (1 == z)) [
  | inl e ↦ sym ((==_iff 1 z).0 e)
  | inr e ↦ cc (rw (uid_in, e) at is_ann)
]

update_arrives_example :
    (s : Server environment plain_queue) × Reach environment plain_queue 1 taken s
    × ((s.hub.links 1).written ≡ texts (posts_to 1 taken.hub.log) ++ update_message json task ∷ [])
unfolding taken asked second echoed task member
update_arrives_example =
    update_arrives environment plain_queue 1 1 (omega arith) root taken task path_taken refl refl
      refl refl only_ann refl refl refl

queued_update_arrives_example :
    (s : Server environment plain_queue) × (earlier : List Text) × Reach environment plain_queue 1
      asked s
    × ((s.hub.links 1).written ≡ earlier ++ update_message json task ∷ [])
unfolding asked second echoed task member tasks push_task
queued_update_arrives_example =
    queued_update_arrives environment plain_queue 1 root asked 1 [] task [] (omega arith) path_asked
      refl refl (omega arith) refl refl only_ann refl refl refl

finished-posted_example :
    (s : Server environment plain_queue) × Reach environment plain_queue 0 asked s
    × (s.requests ≡ asked.requests)
    × (s.finished ≡ posted_tasks json asked.requests)
unfolding asked tasks push_task
finished-posted_example =
    finished-posted environment plain_queue 0 root asked path_asked refl (omega arith)

-- The callback holds its thread here.
stop-IsHeld_example :
    ((s : Server environment plain_queue) × Winds environment plain_queue timed_out s
      × (s.worker ≢ on_io))
    ↔ ¬ IsHeld environment plain_queue timed_out
unfolding timed_out tasks text_eq task
stop-IsHeld_example =
    stop-IsHeld environment plain_queue 1 root timed_out path_timed_out (omega arith)
