-- ===== src/Server/Whole/Connections.antt =====
-- The requests and answers of each HTTP connection of the whole server.
pub mod Served
use gss.Base.{
  ℕ, suc, ◌<◌, ◌≡◌, refl, sym, ap, ap₂, ◌∙◌, ◌⊎◌, inl, inr, Bool, true, false, Bool-cases, List, [],
  ◌∷◌, ◌++◌, append-nil, append_assoc, map, map-append, subst, ◌==◌, ==_iff, arith,
}
use gss.Base.Text.{Text, codes}
use gss.Base.Try.{Try, returned, raised, >>=-returned}
use gss.Containers.Queue.{Queue}
use gss.Server.Task.{Task}
use gss.Server.SharedState.{SessionId, SharedState}
use gss.Server.HttpSession.Handler.{Request, Response, Environment, handle_request}
use gss.Server.HttpSession.Requests.Echoes.{handle_request-Echoes}
use gss.Server.HttpSession.Connection.Serving.{stamp, asked}
use gss.Server.HttpSession.Connection.{
  ErrorCode, success, end_of_stream, operation_aborted, failed, Action, async_write, on_read, fail,
}
use gss.Server.Hub.Log.{when}
use gss.Server.Whole.{
  ConnectionId, Stage, unused, reading, closed, writing, set_stage, heard, Server, perform,
  perform_each,
}

-- What one connection has of a history.
abbrev pub of {ℓ} : {A : Type ℓ} → ConnectionId → List (ConnectionId × A) → List A
of c [] = []
of c ((d, a) ∷ rest) = when (d == c) a ++ of c rest

pub of-append {ℓ} :
    {A : Type ℓ} (c : ConnectionId) (xs ys : List (ConnectionId × A))
    → of c (xs ++ ys) ≡ of c xs ++ of c ys
of-append c [] ys = refl
of-append c ((d, a) ∷ xs) ys =
    ap (λ l. when (d == c) a ++ l) (of-append c xs ys)
    ∙ sym (append_assoc (when (d == c) a) (of c xs) (of c ys))

-- All of the requests ask to keep the connection alive; all but the last do.
abbrev pub AllKeep : List Request → Type 0
AllKeep [] = Unit {0}
AllKeep (req ∷ reqs) = (req.keep_alive ≡ true) × AllKeep reqs

abbrev pub KeepBefore : List Request → Type 0
KeepBefore [] = Unit {0}
KeepBefore (req ∷ []) = Unit {0}
KeepBefore (req ∷ next ∷ reqs) = (req.keep_alive ≡ true) × KeepBefore (next ∷ reqs)

pub AllKeep-KeepBefore : (reqs : List Request) → AllKeep reqs → KeepBefore reqs
AllKeep-KeepBefore [] all = tt
AllKeep-KeepBefore (req ∷ []) all = tt
AllKeep-KeepBefore (req ∷ next ∷ reqs) all = (all.0, AllKeep-KeepBefore (next ∷ reqs) all.1)

pub AllKeep-snoc :
    (reqs : List Request) (req : Request)
    → AllKeep reqs
    → req.keep_alive ≡ true
    → AllKeep (reqs ++ req ∷ [])
AllKeep-snoc [] req all keep = (keep, tt)
AllKeep-snoc (r ∷ reqs) req all keep = (all.0, AllKeep-snoc reqs req all.1 keep)

pub KeepBefore-snoc :
    (reqs : List Request) (req : Request) → AllKeep reqs → KeepBefore (reqs ++ req ∷ [])
KeepBefore-snoc [] req all = tt
KeepBefore-snoc (r ∷ []) req all = (all.0, tt)
KeepBefore-snoc (r ∷ next ∷ reqs) req all = (all.0, KeepBefore-snoc (next ∷ reqs) req all.1)

-- The requests of a connection, by what it waits for.
abbrev pub StageFits : Stage → List Request → Type 0
StageFits unused reqs = reqs ≡ []
StageFits reading reqs = AllKeep reqs
StageFits closed reqs = KeepBefore reqs
StageFits (writing msg) reqs =
    (before : List Request) × (req : Request) × (reqs ≡ before ++ req ∷ [])
    × AllKeep before
    × (stamp msg ≡ asked req)

pub StageFits-KeepBefore :
    (stage : Stage) (reqs : List Request) → StageFits stage reqs → KeepBefore reqs
StageFits-KeepBefore unused reqs fits = rw fits tt
StageFits-KeepBefore reading reqs fits = AllKeep-KeepBefore reqs fits
StageFits-KeepBefore closed reqs fits = fits
StageFits-KeepBefore (writing msg) reqs (before, req, e, all, same) =
    subst KeepBefore (sym e) (KeepBefore-snoc before req all)

module _ (env : Environment) (queue : Queue (Task env.time)) where
  -- The calls of a handler that neither reads on nor writes.
  abbrev pub Silent : List Action → Type 0
  Silent actions =
      (c : ConnectionId) (x : SessionId) (s : Server env queue)
      → ((perform_each env queue c x actions s).stages ≡ s.stages)
        × ((perform_each env queue c x actions s).answers ≡ s.answers)
        × ((perform_each env queue c x actions s).requests ≡ s.requests)

  fail-Silent : (ec : ErrorCode) (what : Text) → Silent (fail ec what)
  unfolding fail perform_each perform
  fail-Silent success what c x s = (refl, refl, refl)
  fail-Silent end_of_stream what c x s = (refl, refl, refl)
  fail-Silent operation_aborted what c x s = (refl, refl, refl)
  fail-Silent (failed message) what c x s = (refl, refl, refl)

  -- A read that returns is of a request that is answered like it asks, or is silent.
  abbrev pub Reacts : ErrorCode → Bool → Request → List Action → Type 0
  Reacts ec is_upgrade req actions =
      (((c : ConnectionId) → heard c ec is_upgrade req ≡ []) × Silent actions)
      ⊎ (((c : ConnectionId) → heard c ec is_upgrade req ≡ (c, req) ∷ [])
          × ((msg : Response) × (actions ≡ async_write msg ∷ []) × (stamp msg ≡ asked req)))

  calls_of :
      {s s' : SharedState queue} {actions actions' : List Action}
      → ◌≡◌ {A = Try (SharedState queue × List Action)}
          (returned (s, actions))
          (returned (s', actions'))
      → actions ≡ actions'
  calls_of e = cc e

  pub on_read-Reacts :
      (ec : ErrorCode) (is_upgrade : Bool) (req : Request) (s s' : SharedState queue)
      (actions : List Action)
      → on_read env queue ec is_upgrade req s ≡ returned (s', actions)
      → Reacts ec is_upgrade req actions
  unfolding on_read Reacts fail perform_each perform
  on_read-Reacts end_of_stream is_upgrade req s s' actions e =
      inl (λ c. refl, subst Silent (calls_of e) (λ c x s. (refl, refl, refl)))
  on_read-Reacts operation_aborted is_upgrade req s s' actions e =
      inl (λ c. refl, subst Silent (calls_of e) (λ c x s. (refl, refl, refl)))
  on_read-Reacts (failed message) is_upgrade req s s' actions e =
      inl (λ c. refl, subst Silent (calls_of e) (λ c x s. (refl, refl, refl)))
  on_read-Reacts success true req s s' actions e =
      inl (λ c. refl, subst Silent (calls_of e) (λ c x s. (refl, refl, refl)))
  on_read-Reacts success false req s s' actions e =
      let ((r, res), handled, e') = >>=-returned (handle_request env queue s.doc_root req s) _ e in
      let (version, keep, server) =
        handle_request-Echoes env queue s.doc_root req s r res handled in
      inr (λ c. refl, (res, sym (calls_of e'), ap₂ (λ v k. (v, k)) version keep))
