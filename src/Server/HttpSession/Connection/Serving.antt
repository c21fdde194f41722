-- ===== src/Server/HttpSession/Connection/Serving.antt =====
-- The requests of one connection, one after the other.
use gss.Base.{
  append-nil, not, ◌&&◌, ℕ, suc, ◌≡◌, refl, true, false, Bool, List, [], ◌∷◌, ◌++◌, map,
  if◌then◌else◌, Bool-cases, inl, inr, ap, ap₂, sym, ◌∙◌, ◌==◌,
}
use gss.Base.Text.{Text, codes}
use gss.Base.Try.{Try, returned, ◌>>=◌}
use gss.Containers.Queue.{Queue}
use gss.Server.Task.{Task}
use gss.Server.SharedState.{SharedState}
use gss.Server.HttpSession.Handler.{Request, Response, post, verb_eq, Environment}
use gss.Server.HttpSession.Requests.{handle_request-pure}
use gss.Server.HttpSession.Connection.{
  ErrorCode, success, end_of_stream, operation_aborted, failed, Action, report, upgrade, async_read,
  fail, shutdown_send, async_write, on_read, on_write, do_read,
}

-- A read of a request and, when it is answered, the write of the answer: how they complete.
pub record Exchange : Type 0 where
  pub request : Request
  pub is_upgrade : Bool
  pub read : ErrorCode
  pub written : ErrorCode

abbrev pub exchange : Request → Bool → ErrorCode → ErrorCode → Exchange
exchange request is_upgrade read written = record {
  request = request;
  is_upgrade = is_upgrade;
  read = read;
  written = written;
}

-- The answers whose write is started, and how many reads are.
abbrev pub responses : List Action → List Response
responses [] = []
responses (async_write msg ∷ actions) = msg ∷ responses actions
responses (_ ∷ actions) = responses actions

abbrev pub reads : List Action → ℕ
reads [] = 0
reads (async_read ∷ actions) = suc (reads actions)
reads (_ ∷ actions) = reads actions

module _ (env : Environment) (queue : Queue (Task env.time)) where
  -- What the write handler calls after the calls `actions` of a read, and whether it reads on.
  unfoldable pub finish : ErrorCode → List Action → List Action
  unfolding on_write
  finish ec actions = elim (responses actions) [
    | [] ↦ []
    | (msg ∷ rest) ↦ on_write ec msg.keep_alive
  ]

  -- The calls of the handlers of one connection that `run` has started to read.
  unfoldable pub converse :
      List Exchange → SharedState queue → Try (SharedState queue × List Action)
  unfolding on_read finish
  converse [] state = returned (state, [])
  converse (x ∷ xs) state = do
    (state', actions) ← on_read env queue x.read x.is_upgrade x.request state
    let next = finish x.written actions
    (state'', later) ← (if reads next == 0 then returned (state', []) else converse xs state')
    returned (state'', actions ++ (next ++ later))

abbrev pub is_success : ErrorCode → Bool
is_success success = true
is_success _ = false

-- The request was read without an error and is no upgrade; and then, its answer was written without
-- an error and the request asks to keep the connection alive.
abbrev pub is_answered : Exchange → Bool
is_answered x = is_success x.read && not x.is_upgrade

abbrev pub continues : Exchange → Bool
continues x = is_answered x && (is_success x.written && x.request.keep_alive)

-- The version and the keep-alive of an answer, and those that a request asks for.
abbrev pub stamp : Response → ℕ × Bool
stamp msg = (msg.version, msg.keep_alive)

abbrev pub asked : Request → ℕ × Bool
asked req = (req.version, req.keep_alive)

-- What is asked up to the first exchange after which the connection does not go on.
abbrev pub all_asked : List Exchange → List (ℕ × Bool)
all_asked [] = []
all_asked (x ∷ xs) =
    if continues x
    then asked x.request ∷ all_asked xs
    else if is_answered x
    then asked x.request ∷ []
    else []

-- The exchanges before that one.
abbrev pub kept : List Exchange → ℕ
kept [] = 0
kept (x ∷ xs) = if continues x then suc (kept xs) else 0

abbrev pub NonePost : List Exchange → Type 0
NonePost [] = Unit {0}
NonePost (x ∷ xs) = (verb_eq x.request.method post ≡ false) × NonePost xs

module _ (env : Environment) (queue : Queue (Task env.time)) where
  -- The connection throws nothing, leaves the state as it is, gives these answers and reads as
  -- often.
  abbrev pub Serves : List Exchange → SharedState queue → Type 0
  Serves xs s =
      (actions : List Action) × (converse env queue xs s ≡ returned (s, actions))
      × (map stamp (responses actions) ≡ all_asked xs)
      × (reads actions ≡ kept xs)

  -- A write that fails.
  fail-quiet :
      (ec : ErrorCode) (what : Text) → (responses (fail ec what) ≡ []) × (reads (fail ec what) ≡ 0)
  unfolding fail
  fail-quiet success what = (refl, refl)
  fail-quiet end_of_stream what = (refl, refl)
  fail-quiet operation_aborted what = (refl, refl)
  fail-quiet (failed message) what = (refl, refl)

  on_write-fail :
      (ec : ErrorCode) (keep_alive : Bool)
      → is_success ec ≡ false
      → on_write ec keep_alive ≡ fail ec (codes "write")
  unfolding on_write
  on_write-fail success keep_alive e = cc e
  on_write-fail end_of_stream keep_alive e = refl
  on_write-fail operation_aborted keep_alive e = refl
  on_write-fail (failed message) keep_alive e = refl

  -- The two ways on after an answer is given: its write fails, or it is done.
  Serves-failed :
      (written : ErrorCode) (req : Request) (xs : List Exchange) (s : SharedState queue)
      → is_success written ≡ false
      → verb_eq req.method post ≡ false
      → Serves (exchange req false success written ∷ xs) s
  unfolding converse on_read finish
  Serves-failed written req xs s bad p =
      let (msg, e, (version, keep, server)) = handle_request-pure env queue s.doc_root req s p in
      let (no_answer, no_read) = fail-quiet written (codes "write") in
      (
        async_write msg ∷ fail written (codes "write"),
        rw (e, on_write-fail written msg.keep_alive bad, no_read, append-nil),
        rw (no_answer, bad) (ap₂ ◌∷◌ (ap₂ (λ v k. (v, k)) version keep) refl),
        rw (no_read, bad),
      )

  Serves-written :
      (req : Request) (xs : List Exchange) (s : SharedState queue)
      → verb_eq req.method post ≡ false
      → Serves xs s
      → Serves (exchange req false success success ∷ xs) s
  unfolding converse on_read on_write do_read
  Serves-written req xs s p (later, e', answers, further) =
      let (msg, e, (version, keep, server)) = handle_request-pure env queue s.doc_root req s p in
      let echoed : stamp msg ≡ asked req = ap₂ (λ v k. (v, k)) version keep in
      let goes_on = λ (b : Bool). if b then asked req ∷ all_asked xs else asked req ∷ [] in
      elim (Bool-cases req.keep_alive) [
        | inl again ↦ (
          async_write msg ∷ (do_read ++ later),
          rw (e, keep, again, e'),
          ap₂ ◌∷◌ echoed answers ∙ ap goes_on (sym again),
          rw again (ap suc further),
        )
        | inr last ↦ (
          async_write msg ∷ shutdown_send ∷ [],
          rw (e, keep, last),
          ap₂ ◌∷◌ echoed refl ∙ ap goes_on (sym last),
          rw last,
        )
      ]

  Serves-cons :
      (read written : ErrorCode) (is_upgrade : Bool) (req : Request) (xs : List Exchange)
      (s : SharedState queue)
      → verb_eq req.method post ≡ false
      → Serves xs s
      → Serves (exchange req is_upgrade read written ∷ xs) s
  unfolding converse on_read fail
  Serves-cons end_of_stream written is_upgrade req xs s p later =
      (shutdown_send ∷ [], refl, refl, refl)
  Serves-cons operation_aborted written is_upgrade req xs s p later = ([], refl, refl, refl)
  Serves-cons (failed message) written is_upgrade req xs s p later =
      (report (codes "read") message ∷ [], refl, refl, refl)
  Serves-cons success written true req xs s p later = (upgrade req ∷ [], refl, refl, refl)
  Serves-cons success success false req xs s p later = Serves-written req xs s p later
  Serves-cons success end_of_stream false req xs s p later =
      Serves-failed end_of_stream req xs s refl p
  Serves-cons success operation_aborted false req xs s p later =
      Serves-failed operation_aborted req xs s refl p
  Serves-cons success (failed message) false req xs s p later =
      Serves-failed (failed message) req xs s refl p

  -- However the reads and writes of a connection end, when none of its requests is a POST, it
  -- throws nothing and leaves the shared state as it is. Each request that is read without an error
  -- and is no upgrade gets one answer, in order, with its version and keep-alive; after each whose
  -- answer is written without an error and which asks to keep the connection alive one further read
  -- is started, and after the first other one nothing more is read or answered.
  pub converse-Serves :
      (xs : List Exchange) (s : SharedState queue)
      → NonePost xs
      → (actions : List Action) × (converse env queue xs s ≡ returned (s, actions))
        × (map stamp (responses actions) ≡ all_asked xs)
        × (reads actions ≡ kept xs)
  unfolding converse
  converse-Serves [] s p = ([], refl, refl, refl)
  converse-Serves (x ∷ xs) s p =
      Serves-cons x.read x.written x.is_upgrade x.request xs s p.0 (converse-Serves xs s p.1)
