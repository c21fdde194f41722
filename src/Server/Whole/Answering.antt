-- ===== src/Server/Whole/Answering.antt =====
-- A request of the HTTP connections of the whole server from when it is read to its answer.
use gss.Base.{◌+◌, suc, ◌≡◌, ◌⊎◌, Bool, false, List, [], ◌∷◌, if◌then◌else◌}
use gss.Base.Text.{Text}
use gss.Base.Try.{returned}
use gss.Containers.Queue.{Queue}
use gss.Server.Task.{Task}
use gss.Server.Task.Json.{task_of}
use gss.Server.SharedState.{SessionId, SharedState}
use gss.Server.HttpSession.Handler.{Request, Environment}
use gss.Server.HttpSession.Requests.Effect.{is_task_post}
use gss.Server.Whole.{ConnectionId, Server, reading, closed}
use gss.Server.Whole.Steps.{answers}

-- A number of a session that is new.
abbrev unused_id : List SessionId → SessionId
unused_id [] = 0
unused_id (x ∷ xs) = suc (x + unused_id xs)

module _ (env : Environment) (queue : Queue (Task env.time)) where
  -- A POST of a task has a body that is a task.
  abbrev pub IsTask : Request → Type 0
  IsTask req =
      (is_task_post req ≡ false) ⊎ ((t : Task env.time) × (task_of env.json req.body ≡ returned t))

  -- The write of an answer that went well.
  record Written (c : ConnectionId) (keep : Bool) (s s' : Server env queue) : Type 0 where
    pub stage : s'.stages c ≡ (if keep then reading else closed)
    pub requests : s'.requests ≡ s.requests
    pub answers : s'.answers ≡ s.answers
    pub hub : s'.hub ≡ s.hub
    pub status : s'.status ≡ s.status
