-- ===== src/Tests/Http.antt =====
-- HTTP requests to a server with one file.
use gss.Base.{◌↔◌, some, ◌≡◌, ◌≢◌, refl, true, false, [], ◌∷◌, ◌++◌, arith, ◌⊎◌}
use gss.Base.Int.{pos}
use gss.Base.Text.{Text, codes, contains}
use gss.Base.Try.{returned, raised, Exception}
use gss.Server.Task.{new_task, serialize, Task}
use gss.Server.SharedState.{SharedState, tasks, current, push_task}
use gss.Server.HttpSession.Names.{strip_slash, file_path}
use gss.Server.HttpSession.Paths.{dots, file_path-inside}
use gss.Server.HttpSession.Handler.{
  get, post, other, Request, Response, file, handle_request, illegal_target, admin_body, text,
}
use gss.Server.HttpSession.Requests.{handle_request-post}
use gss.Server.HttpSession.Requests.Refused.{Legal, handle_request-Legal}
use gss.Server.HttpSession.Requests.Admin.{Reports, handle_request-Reports}
use gss.Server.HttpSession.Connection
use gss.Server.HttpSession.Connection.{do_read, Action}
use gss.Server.Task.Json.{task_of}
use gss.Server.Main.Escape.{of_v, ended, goes_on, escape, run_handler}
use gss.Server.Main.Escape.Posts.{on_read-ends_or_pushes}
use gss.Tests.Instances.{clock, json, environment, plain_queue, wash, root, fresh}

file_path-inside_example :
    (rest : Text) × (file_path root (codes "/a/") ≡ strip_slash root ++ (b'/' ∷ rest))
    × (contains dots (file_path root (codes "/a/")) ≡ false)
unfolding illegal_target contains
file_path-inside_example = file_path-inside root (codes "/a/") refl refl

abbrev post_wash : Request
unfolding serialize
post_wash = record {
  method = post;
  target = codes "/api/tasks";
  version = 11;
  keep_alive = true;
  body = json.dump (serialize json wash);
}

abbrev get_index : Request
get_index = record { method = get; target = codes "/"; version = 11; keep_alive = true; body = [] }

abbrev get_parent : Request
get_parent = record get_index { target = codes "/../etc" }

handle_request-post_example :
    (s : SharedState plain_queue) × (res : Response) × (handle_request environment plain_queue root
        post_wash fresh
      ≡ returned (s, res))
    × (tasks plain_queue s
        ≡ tasks plain_queue fresh ++ new_task (codes "Ann") (codes "wash") (pos 15) ∷ [])
    × (res.status ≡ 200)
unfolding illegal_target contains serialize new_task
handle_request-post_example =
    handle_request-post environment plain_queue root post_wash fresh (codes "Ann") (codes "wash") 75
      refl refl refl (omega arith) refl refl

handle_request-Legal_example :
    (((s' : SharedState plain_queue) × (res : Response) × (handle_request environment plain_queue
            root get_parent fresh
          ≡ returned (s', res))
        × (res.status ≡ 400))
      ↔ ((get_parent.method ≡ other) ⊎ (¬ Legal get_parent.target)))
    × (((s' : SharedState plain_queue) × (res : Response) × (handle_request environment plain_queue
              root get_parent fresh
            ≡ returned (s', res))
          × (res.status ≡ 400))
        ↔ ((res : Response) × (handle_request environment plain_queue root get_parent fresh
              ≡ returned (fresh, res))
            × (res.status ≡ 400)
            × ((path : Text) → res.body ≢ file path)))
handle_request-Legal_example = handle_request-Legal environment plain_queue root get_parent fresh

abbrev get_admin : Request
get_admin = record get_index { target = codes "/api/admin" }

-- One task is in process and the same one waits.
abbrev busy : SharedState plain_queue
busy = record { doc_root = root; sessions = []; tasks_queue = wash ∷ []; curr = some wash }

handle_request-Reports_example :
    (res : Response) × (body : Text) × (handle_request environment plain_queue root get_admin busy
      ≡ returned (busy, res))
    × (res.status ≡ 200)
    × (res.body ≡ text body)
    × Reports environment plain_queue busy body
unfolding illegal_target contains admin_body serialize current tasks
handle_request-Reports_example =
    handle_request-Reports environment plain_queue root get_admin busy refl refl refl refl

on_read-ends_or_pushes_example :
    ((x : Exception) × (task_of {time = clock} json post_wash.body ≡ raised x)
      × (run_handler 1 of_v
            (Connection.on_read environment plain_queue Connection.success false post_wash fresh)
          ≡ ended (escape 1 of_v x)))
    ⊎ ((t : Task clock) × (res : Response) × (task_of json post_wash.body ≡ returned t)
        × (run_handler 1 of_v
              (Connection.on_read environment plain_queue Connection.success false post_wash fresh)
            ≡ goes_on (push_task plain_queue t fresh, Connection.async_write res ∷ [])))
unfolding illegal_target contains post_wash
on_read-ends_or_pushes_example =
    on_read-ends_or_pushes environment plain_queue post_wash fresh 1 of_v refl refl refl
