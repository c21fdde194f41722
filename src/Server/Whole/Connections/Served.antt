-- ===== src/Server/Whole/Connections/Served.antt =====
-- What holds of each HTTP connection of the whole server at any time.
use gss.Base.{
  ℕ, ◌≡◌, refl, sym, ap, ap₂, ◌∙◌, inl, inr, Bool, true, false, Bool-cases, List, [], ◌∷◌, ◌++◌,
  append-nil, map, map-append, subst, ◌==◌, ==_iff, arith,
}
use gss.Base.Text.{Text}
use gss.Containers.Queue.{Queue}
use gss.Server.Task.{Task}
use gss.Server.SharedState.{SessionId, SharedState}
use gss.Server.Listener
use gss.Server.HttpSession.Handler.{Request, Response, Environment}
use gss.Server.HttpSession.Connection.Serving.{stamp, asked}
use gss.Server.HttpSession.Connection.{
  ErrorCode, success, end_of_stream, operation_aborted, failed, Action, run, do_read, fail,
  on_write,
}
use gss.Server.Whole.{
  ConnectionId, Stage, unused, reading, closed, writing, set_stage, heard, Server, launch, listen,
  perform, perform_each, handle_connection, handle_request_read, handle_response_written,
  handle_timer, take,
}
use gss.Server.Whole.Winding
use gss.Server.Whole.Steps.{
  stops, winds, returns, Step, Reach, here, next, connects, asks, ask_raises, answers, visits,
  visit_raises, starts, fires, resumes,
}
use gss.Server.Whole.Connections.{
  of, of-append, AllKeep, KeepBefore, AllKeep-snoc, StageFits, StageFits-KeepBefore, Reacts,
  on_read-Reacts,
}

-- The answers are those of the requests, in order.
pub record Served (stage : Stage) (reqs : List Request) (res : List Response) : Type 0 where
  pub stamps : map stamp res ≡ map asked reqs
  pub fits : StageFits stage reqs

abbrev pub AllServed :
    (ConnectionId → Stage) → List (ConnectionId × Request) → List (ConnectionId × Response) → Type 0
AllServed stages reqs res = (d : ConnectionId) → Served (stages d) (of d reqs) (of d res)

of-here {ℓ} :
    {A : Type ℓ} (c : ConnectionId) (a : A) (xs : List (ConnectionId × A))
    → of c (xs ++ (c, a) ∷ []) ≡ of c xs ++ a ∷ []
of-here c a xs =
    let at : (c == c) ≡ true = ground arith in of-append c xs ((c, a) ∷ []) ∙ rw at refl

of-other {ℓ} :
    {A : Type ℓ} (c d : ConnectionId) (a : A) (xs : List (ConnectionId × A))
    → (c == d) ≡ false
    → of d (xs ++ (c, a) ∷ []) ≡ of d xs
of-other c d a xs other = of-append d xs ((c, a) ∷ []) ∙ rw other (append-nil (of d xs))

-- One connection goes on to wait for something else.
moved :
    (stages : ConnectionId → Stage) (c : ConnectionId) (v : Stage)
    (reqs : List (ConnectionId × Request)) (res : List (ConnectionId × Response))
    → AllServed stages reqs res
    → (StageFits (stages c) (of c reqs) → StageFits v (of c reqs))
    → AllServed (set_stage stages c v) reqs res
moved stages c v reqs res all go d = elim (Bool-cases (c == d)) [
  | inl same ↦ rw same (
      subst (λ z. Served v (of z reqs) (of z res)) ((==_iff c d).0 same)
        (record { stamps = (all c).stamps; fits = go (all c).fits }))
  | inr other ↦ rw other (all d)
]

-- One connection is given a request and starts to write the answer.
answered :
    (stages : ConnectionId → Stage) (c : ConnectionId) (req : Request) (msg : Response)
    (reqs : List (ConnectionId × Request)) (res : List (ConnectionId × Response))
    → AllServed stages reqs res
    → stages c ≡ reading
    → stamp msg ≡ asked req
    → AllServed
        (set_stage (set_stage stages c closed) c (writing msg))
        (reqs ++ (c, req) ∷ [])
        (res ++ (c, msg) ∷ [])
answered stages c req msg reqs res all at same d = elim (Bool-cases (c == d)) [
  | inl is_c ↦ rw is_c (
      subst (λ z. Served (writing msg) (of z (reqs ++ (c, req) ∷ [])) (of z (res ++ (c, msg) ∷ [])))
        ((==_iff c d).0 is_c) here_served)
  | inr other ↦ rw (other, of-other c d req reqs other, of-other c d msg res other) (all d)
]
  where
    here_served : Served (writing msg) (of c (reqs ++ (c, req) ∷ [])) (of c (res ++ (c, msg) ∷ []))
    here_served = record {
      stamps =
          ap (map stamp) (of-here c msg res)
          ∙ map-append stamp (of c res) (msg ∷ [])
          ∙ ap₂ ◌++◌ (all c).stamps (ap (λ p. p ∷ []) same)
          ∙ sym (map-append asked (of c reqs) (req ∷ []))
          ∙ ap (map asked) (sym (of-here c req reqs));
      fits = (
        of c reqs,
        req,
        of-here c req reqs,
        subst (λ st. StageFits st (of c reqs)) at (all c).fits,
        same,
      );
    }

set_stage_twice :
    (stages : ConnectionId → Stage) (c d : ConnectionId) (u v : Stage)
    → set_stage (set_stage stages c u) c v d ≡ set_stage stages c v d
set_stage_twice stages c d u v = elim (Bool-cases (c == d)) [
  | inl same ↦ rw same
  | inr other ↦ rw other
]

-- A request whose answer asks to keep the connection alive does so, too.
written-AllKeep :
    (msg : Response) (reqs : List Request)
    → StageFits (writing msg) reqs
    → msg.keep_alive ≡ true
    → AllKeep reqs
written-AllKeep msg reqs (before, req, e, all, same) keep =
    subst AllKeep (sym e) (AllKeep-snoc before req all (sym (ap (λ p. p.1) same) ∙ keep))

module _ (env : Environment) (queue : Queue (Task env.time)) where
  abbrev HasServed : Server env queue → Type 0
  HasServed s = AllServed s.stages s.requests s.answers

  -- Nothing more is called, whatever the connection waited for.
  closes : (stage : Stage) (reqs : List Request) → StageFits stage reqs → StageFits closed reqs
  closes stage reqs fits = StageFits-KeepBefore stage reqs fits

  connected-Served :
      (c : ConnectionId) (ec : Listener.ErrorCode) (s : Server env queue)
      → s.stages c ≡ unused
      → HasServed s
      → HasServed (handle_connection env queue c ec s)
  unfolding handle_connection listen Listener.on_accept Listener.fail run do_read perform_each
      perform
  connected-Served c Listener.success s new all =
      moved s.stages c reading s.requests s.answers all
        (λ fits. subst AllKeep (sym (subst (λ st. StageFits st (of c s.requests)) new fits)) tt)
  connected-Served c Listener.operation_aborted s new all = all
  connected-Served c (Listener.failed message) s new all = all

  written-Served :
      (c : ConnectionId) (ec : ErrorCode) (res : Response) (s : Server env queue)
      → s.stages c ≡ writing res
      → HasServed s
      → HasServed (handle_response_written env queue c ec res.keep_alive s)
  unfolding handle_response_written on_write fail do_read perform_each perform
  written-Served c success res s at all = elim (Bool-cases res.keep_alive) [
    | inl keep ↦ rw keep (λ d.
        subst (λ st. Served st (of d s.requests) (of d s.answers))
          (sym (set_stage_twice s.stages c d closed reading))
          (moved s.stages c reading s.requests s.answers all
            (λ fits.
              written-AllKeep res (of c s.requests)
                (subst (λ st. StageFits st (of c s.requests)) at fits) keep)
            d))
    | inr last ↦ rw last (moved s.stages c closed s.requests s.answers all (closes (s.stages c) _))
  ]
  written-Served c end_of_stream res s at all =
      moved s.stages c closed s.requests s.answers all (closes (s.stages c) _)
  written-Served c operation_aborted res s at all =
      moved s.stages c closed s.requests s.answers all (closes (s.stages c) _)
  written-Served c (failed message) res s at all =
      moved s.stages c closed s.requests s.answers all (closes (s.stages c) _)

  asked-Served :
      (c : ConnectionId) (ec : ErrorCode) (is_upgrade : Bool) (req : Request) (x : SessionId)
      (shared : SharedState queue) (actions : List Action) (s : Server env queue)
      → s.stages c ≡ reading
      → Reacts env queue ec is_upgrade req actions
      → HasServed s
      → HasServed (handle_request_read env queue c x (heard c ec is_upgrade req) shared actions s)
  unfolding handle_request_read perform_each perform
  asked-Served c ec is_upgrade req x shared actions s at (inl (unheard, silent)) all =
      let (stages, res, reqs) = silent c x (record s {
        hub = record s.hub { shared = shared };
        stages = set_stage s.stages c closed;
        requests = s.requests ++ heard c ec is_upgrade req;
      }) in
      rw (stages, res, reqs, unheard c, append-nil)
        (moved s.stages c closed s.requests s.answers all (closes (s.stages c) _))
  asked-Served c ec is_upgrade req x shared actions s at (inr (one, (msg, writes, same))) all =
      rw (writes, one c) (answered s.stages c req msg s.requests s.answers all at same)

  Step-Served :
      (started : ℕ) (s : Server env queue) {s' : Server env queue}
      → Step env queue started s s'
      → HasServed s
      → HasServed s'
  unfolding handle_timer take
  Step-Served started s (connects c ec on free pending new) all = connected-Served c ec s new all
  Step-Served started s (asks c ec is_upgrade req x shared actions on free at new e) all =
      asked-Served c ec is_upgrade req x shared actions s at
        (on_read-Reacts env queue ec is_upgrade req s.hub.shared shared actions e) all
  Step-Served started s (ask_raises c ec is_upgrade req thread e on free at raises) all = all
  Step-Served started s (answers c ec res on free at) all = written-Served c ec res s at all
  Step-Served started s (visits g st on ok) all = all
  Step-Served started s (visit_raises x ec buffer thread e on free at done raises) all = all
  Step-Served started s (starts t shared on at go e) all = all
  Step-Served started s (fires t on at free) all = all
  Step-Served started s (resumes t shared on at quiet go e) all = all
  Step-Served started s (stops on free) all = all
  Step-Served started s (winds s' on (Winding.posts src y m rest e)) all = all
  Step-Served started s (winds s' on (Winding.starts t shared at go e)) all = all
  Step-Served started s (winds s' on (Winding.resumes t shared at quiet go e)) all = all
  Step-Served started s (returns on down) all = all

  Reach-Served :
      (started : ℕ) (root : Text) (s : Server env queue)
      → Reach env queue started (launch env queue root) s
      → HasServed s
  unfolding launch
  Reach-Served started root s here d = record { stamps = refl; fits = refl }
  Reach-Served started root s (next {u} r st) d =
      Step-Served started u st (Reach-Served started root u r) d

  -- However connections, sessions, timers and the task loop interleave: on each connection, one
  -- answer has been started for each request that was read and handled, POSTs too, in their order,
  -- with its version and its keep-alive; and all requests but the last one asked to keep the
  -- connection alive.
  pub answers-in_order :
      (started : ℕ) (root : Text) (s : Server env queue) (c : ConnectionId)
      → Reach env queue started (launch env queue root) s
      → (map stamp (of c s.answers) ≡ map asked (of c s.requests)) × KeepBefore (of c s.requests)
  answers-in_order started root s c r =
      let served = Reach-Served started root s r c in
      (served.stamps, StageFits-KeepBefore (s.stages c) (of c s.requests) served.fits)
