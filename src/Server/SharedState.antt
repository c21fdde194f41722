-- ===== src/Server/SharedState.antt =====
-- src/gss-server/shared_state.hpp and shared_state.cpp: what each member function does while it
-- holds the mutex. The wait on the condition variable and the timer are in Scheduler.
-- A session is known by a number; `weak_ptr::lock` succeeds on those that `alive` names.
pub mod Sessions
pub mod Notices
use gss.Base.{
  ℕ, ◌≡◌, Bool, true, false, ◌&&◌, List, [], ◌∷◌, Option, none, some, ◌==◌, if◌then◌else◌, map,
}
use gss.Base.Text.{Text, codes, text_eq}
use gss.Base.Try.{Try, returned, raised, ◌>>=◌}
use gss.Containers.Queue.{Queue}
use gss.Server.Libraries.{PosixTime, JsonLibrary}
use gss.Server.Task.{Task, serialize}

abbrev pub SessionId : Type 0
SessionId = ℕ

unfoldable pub member : SessionId → List SessionId → Bool
member s [] = false
member s (x ∷ xs) = if x == s then true else member s xs

-- `sessions_.emplace(session)` and `sessions_.erase(session)` on the set.
unfoldable pub emplace : SessionId → List SessionId → List SessionId
unfolding member
emplace s xs = if member s xs then xs else s ∷ xs

unfoldable pub erase : SessionId → List SessionId → List SessionId
erase s [] = []
erase s (x ∷ xs) = if x == s then erase s xs else x ∷ erase s xs

-- The sessions that are still alive when the message is sent, in the order of the set.
unfoldable pub receivers : (SessionId → Bool) → List SessionId → List SessionId
receivers alive [] = []
receivers alive (x ∷ xs) = if alive x then x ∷ receivers alive xs else receivers alive xs

-- `for (auto p : sessions_) if (p->uid() == id) session = p`: the last one counts.
unfoldable pub find_session :
    (SessionId → Text) → Text → List SessionId → Option SessionId → Option SessionId
find_session uid id [] found = found
find_session uid id (x ∷ xs) found =
    find_session uid id xs (if text_eq (uid x) id then some x else found)

-- `if (auto sp = session.lock()) sp->send(ss);`
unfoldable pub deliver : (SessionId → Bool) → Option SessionId → List SessionId
deliver alive none = []
deliver alive (some x) = if alive x then x ∷ [] else []

-- What the timer sends: `update_msg["type"] = "update"; update_msg.dump()`.
unfoldable pub update_message : {time : PosixTime} (json : JsonLibrary) → Task time → Text
unfolding serialize
update_message json t =
    json.dump (json.put (serialize json t) (codes "type") (json.string (codes "update")))

module _ {time : PosixTime} (queue : Queue (Task time)) where
  pub record SharedState : Type 0 where
    pub doc_root : Text
    pub sessions : List SessionId
    pub tasks_queue : queue.Carrier
    pub curr : Option (Task time)

  unfoldable pub new_state : Text → SharedState
  new_state doc_root = record {
    doc_root = doc_root;
    sessions = [];
    tasks_queue = queue.new_list;
    curr = none;
  }

  unfoldable pub join : SessionId → SharedState → SharedState
  unfolding emplace
  join session s = record s { sessions = emplace session s.sessions }

  unfoldable pub leave : SessionId → SharedState → SharedState
  unfolding erase
  leave session s = record s { sessions = erase session s.sessions }

  -- `send(message)`: the sessions to which the message is posted.
  unfoldable pub send_all : (SessionId → Bool) → SharedState → List SessionId
  unfolding receivers
  send_all alive s = receivers alive s.sessions

  -- `send(id, message)`: likewise.
  unfoldable pub send_to :
      (SessionId → Bool) → (SessionId → Text) → Text → SharedState → List SessionId
  unfolding find_session deliver
  send_to alive uid id s = deliver alive (find_session uid id s.sessions none)

  -- `tasks()` copies the queue.
  unfoldable pub tasks : SharedState → List (Task time)
  tasks s = queue.contents s.tasks_queue

  unfoldable pub push_task : Task time → SharedState → SharedState
  push_task t s = record s { tasks_queue = queue.push_back t s.tasks_queue }

  unfoldable pub pop_task : SharedState → Try SharedState
  pop_task s = do rest ← queue.pop_front s.tasks_queue; returned (record s { tasks_queue = rest })

  unfoldable pub peek_task : SharedState → Try (Task time)
  peek_task s = queue.front s.tasks_queue

  unfoldable pub current : SharedState → Option (Task time)
  current s = s.curr

  -- `process_tasks` after the wait: the task whose timer is started.
  unfoldable pub take_task : SharedState → Try (Task time × SharedState)
  take_task s = do
    t ← queue.front s.tasks_queue
    rest ← queue.pop_front s.tasks_queue
    returned (t, record s { curr = some t; tasks_queue = rest })

  -- `while (tasks_queue_.empty()) cv_.wait(lock);`: whether the caller goes on waiting.
  unfoldable pub must_wait : SharedState → Bool
  must_wait s = queue.empty s.tasks_queue

  -- What the callback of the timer of a task posts, and to which sessions:
  -- `self->send(std::string(t.assignee()), update_msg.dump())`.
  unfoldable pub timer_sends :
      JsonLibrary
      → (SessionId → Bool)
      → (SessionId → Text)
      → Task time
      → SharedState
      → List (SessionId × Text)
  unfolding send_to update_message
  timer_sends json alive uid t s =
      map (λ x. (x, update_message json t)) (send_to alive uid t.assignee s)
