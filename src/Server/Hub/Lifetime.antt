-- ===== src/Server/Hub/Lifetime.antt =====
-- Sessions that are gone: the raw pointers of `sessions_`, and the handlers of their objects.
pub mod Gone
pub mod Handlers
use gss.Base.{
  ◌≡◌, ◌≢◌, ◌⊎◌, refl, sym, ap, ◌∙◌, Bool, true, false, List, [], ◌∷◌, ◌++◌, Option, none, some,
  ◌==◌, inl, inr, Bool-cases, ==_iff, subst, arith,
}
use gss.Base.Text.{Text}
use gss.Containers.Queue.{Queue}
use gss.Server.Libraries.{PosixTime, JsonLibrary}
use gss.Server.Task.{Task}
use gss.Server.SharedState.{SessionId, member, join, leave}
use gss.Server.SharedState.Sessions.Members.{member-emplace, member-erase}
use gss.Server.WebsocketSession.{
  Action, async_accept, async_read, async_write, broadcast, report, on_accept, destroy,
}
use gss.Server.WebsocketSession.Writes.{Link, writing, failing}
use gss.Server.Hub.{
  Hub, Phase, accepting, reading, idle, dropped, destroyed, is_alive, Source, session, timer, Step,
  accepts, reads, posts, sends, wrote, failed, times_out, drops, destroys, Reach, here, next,
  new_hub, perform, perform_all, post, tell, tell_to, handle_accept, handle_read, handle_send,
  handle_destroy, set_phase, set_link, set_at, set_source, posted,
}
use gss.Server.Hub.Lifetime.Gone.{Safe, Safe-alive, alive-inbox, alive-in_flight, alive-outbox}
use gss.Server.Hub.Lifetime.Handlers.{
  SafeAt, AllSafe, AllSafe-change, Kept, set_phase-Kept, perform-Kept, perform_all-Kept,
}

module _ {time : PosixTime} (queue : Queue (Task time)) where
  -- A change in the link and the inbox of a session that is alive.
  set_link-AllSafe :
      (x : SessionId) (l : Link) (h : Hub queue)
      → is_alive (h.phase x) ≡ true
      → AllSafe queue h
      → AllSafe queue (set_link queue x l h)
  set_link-AllSafe x l h alive safe =
      AllSafe-change queue x (set_link queue x l h) alive λ y e. rw e (safe y)

  handle_destroy-AllSafe :
      (x : SessionId) (h : Hub queue)
      → h.phase x ≡ dropped
      → AllSafe queue h
      → AllSafe queue (handle_destroy queue x h)
  unfolding handle_destroy perform_all perform destroy leave
  handle_destroy-AllSafe x h at safe y = elim (Bool-cases (x == y)) [
    | inl e ↦
        let same : x ≡ y = (==_iff x y).0 e in
        let was = (safe y).quiet (ap (λ z. is_alive (h.phase z)) (sym same) ∙ ap is_alive at) in
        record { outside = λ d. rw (member-erase, e) refl; quiet = λ d. was }
    | inr e ↦ rw (member-erase, e) (safe y)
  ]

  -- One post less to be made.
  drained :
      (src : Source) (x : SessionId) (m : Text) (rest : List (SessionId × Text)) (h : Hub queue)
      → h.outbox src ≡ (x, m) ∷ rest
      → AllSafe queue h
      → AllSafe queue (record h { outbox = set_source h.outbox src rest })
  drained (session z) x m rest h front safe =
      AllSafe-change queue z (record h { outbox = set_source h.outbox (session z) rest })
        (alive-outbox x m rest (safe z) front) λ y e. rw e (safe y)
  drained timer x m rest h front safe = safe

  post-AllSafe :
      (src : Source) (x : SessionId) (m : Text) (rest : List (SessionId × Text)) (h : Hub queue)
      → h.outbox src ≡ (x, m) ∷ rest
      → AllSafe queue h
      → AllSafe queue (post queue src x m rest h)
  unfolding post
  post-AllSafe src x m rest h front safe y =
      let left = drained src x m rest h front safe in
      elim (Bool-cases (is_alive (h.phase x))) [
        | inl lives ↦
            let h' : Hub queue = record h {
              outbox = set_source h.outbox src rest;
              inbox = set_at h.inbox x (h.inbox x ++ m ∷ []);
              log = posted src x m ∷ h.log;
            } in
            rw lives (AllSafe-change queue x h' lives (λ z e. rw e (left z)) y)
        | inr gone ↦ rw gone (left y)
      ]

  tell_to-AllSafe :
      (found : Option SessionId) (m : Text) (h : Hub queue)
      → AllSafe queue h
      → AllSafe queue (tell_to queue found m h)
  unfolding tell_to
  tell_to-AllSafe none m h safe = safe
  tell_to-AllSafe (some y) m h safe = safe

  drop-AllSafe :
      (x : SessionId) (h : Hub queue)
      → h.inbox x ≡ []
      → (h.links x).in_flight ≡ []
      → h.outbox (session x) ≡ []
      → AllSafe queue h
      → AllSafe queue (set_phase queue x dropped h)
  drop-AllSafe x h none_posted none_written none_left safe y = elim (Bool-cases (x == y)) [
    | inl e ↦
        let at : x ≡ y = (==_iff x y).0 e in
        rw e (record {
          outside = λ d. cc d;
          quiet = λ d.
              subst
                (λ z. (h.inbox z ≡ []) × ((h.links z).in_flight ≡ []) × (h.outbox (session z) ≡ []))
                at (none_posted, none_written, none_left);
        })
    | inr e ↦ rw e (safe y)
  ]

  Step-AllSafe :
      (json : JsonLibrary) (h : Hub queue) {g : Hub queue}
      → Step queue json h g
      → AllSafe queue h
      → AllSafe queue g
  unfolding handle_accept handle_read handle_send tell
  Step-AllSafe json h (accepts x ec e) safe =
      (perform_all-Kept queue x (on_accept ec) (set_phase queue x idle h)
        (set_phase-Kept queue x idle h refl safe)).safe
  Step-AllSafe json h (reads x ec buffer s actions e done read) safe =
      let k = set_phase-Kept queue x idle h refl safe in
      (perform_all-Kept queue x actions _ (record {
        safe =
            set_link-AllSafe x (record (h.links x) { session = s }) (set_phase queue x idle h)
              k.alive k.safe;
        alive = k.alive;
      })).safe
  Step-AllSafe json h (posts src y t rest e) safe = post-AllSafe src y t rest h e safe
  Step-AllSafe json h (sends x t rest e own) safe =
      AllSafe-change queue x (handle_send queue x t rest h) (alive-inbox t rest (safe x) e)
        λ y e. rw e (safe y)
  Step-AllSafe json h (wrote x t others e own) safe =
      set_link-AllSafe x (writing t others (h.links x)) h (alive-in_flight t others (safe x) e) safe
  Step-AllSafe json h (failed x ec t others err e own) safe =
      set_link-AllSafe x (failing ec others (h.links x)) h (alive-in_flight t others (safe x) e)
        safe
  Step-AllSafe json h (times_out t e) safe = tell_to-AllSafe _ _ h safe
  Step-AllSafe json h (drops x e empty flight done) safe = drop-AllSafe x h empty flight done safe
  Step-AllSafe json h (destroys x e) safe = handle_destroy-AllSafe x h e safe

  Reach-AllSafe :
      (json : JsonLibrary) {h g : Hub queue}
      → Reach queue json h g
      → AllSafe queue h
      → AllSafe queue g
  Reach-AllSafe json here safe = safe
  Reach-AllSafe json (next {m = k} r st) safe = Step-AllSafe json k st (Reach-AllSafe json r safe)

  new_hub-AllSafe : (root : Text) → AllSafe queue (new_hub queue root)
  unfolding new_hub
  new_hub-AllSafe root y = Safe-alive refl

-- However the handlers take turns, the set holds no pointer to a session that has been destroyed;
-- a session that has something posted to it and not yet run, a write under way or posts to make has
-- not been dropped.
pub sessions-is_alive :
    {time : PosixTime} (queue : Queue (Task time)) (json : JsonLibrary) (root : Text)
    (h : Hub queue) (y : SessionId)
    → Reach queue json (new_hub queue root) h
    → ((member y h.shared.sessions ≡ false) ⊎ (h.phase y ≢ destroyed))
      × ((is_alive (h.phase y) ≡ true)
          ⊎ ((h.inbox y ≡ []) × ((h.links y).in_flight ≡ []) × (h.outbox (session y) ≡ [])))
sessions-is_alive queue json root h y r =
    let safe = Reach-AllSafe queue json r (new_hub-AllSafe queue root) y in
    (
      elim (Bool-cases (member y h.shared.sessions)) [
        | inl inside ↦ inr λ d. cc (inside, safe.outside d)
        | inr outside ↦ inl outside
      ],
      elim (Bool-cases (is_alive (h.phase y))) [
        | inl lives ↦ inl lives
        | inr gone ↦ inr (safe.quiet gone)
      ],
    )
