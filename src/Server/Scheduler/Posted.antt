-- ===== src/Server/Scheduler/Posted.antt =====
-- The messages that the timers post.
use gss.Base.{
  ◌≡◌, refl, ap, ◌∙◌, List, [], ◌∷◌, ◌++◌, append_assoc, append-nil, map, ℕ, Option, none, some,
  Bool, Bool-cases, inl, inr, sym, subst,
}
use gss.Base.Text.{Text}
use gss.Containers.Queue.{Queue}
use gss.Server.Libraries.{PosixTime, JsonLibrary}
use gss.Server.Task.{Task}
use gss.Server.SharedState.{SessionId, update_message, send_to, timer_sends, deliver}
use gss.Server.Scheduler.{
  System, boot, pushing, taking, firing, Step, push, joins, leaves, start, fire, resume, Reach,
  here, next,
}

-- Each message is the update of a task among `finished`.
abbrev pub AreUpdates :
    {time : PosixTime} → JsonLibrary → List (Task time) → List (SessionId × Text) → Type 0
AreUpdates json finished [] = Unit {0}
AreUpdates {time} json finished ((x, message) ∷ posted) =
    ((before : List (Task time)) × (t : Task time) × (after : List (Task time)) × (finished
        ≡ before ++ t ∷ after)
      × (message ≡ update_message json t))
    × AreUpdates json finished posted

-- The messages of the timers of finished tasks: each task sends its update to one session at most.
pub data Updates {time : PosixTime} (json : JsonLibrary)
    : List (Task time) → List (SessionId × Text) → Type 0 where
  nothing : Updates json [] []
  missed :
      {ts : List (Task time)} {ms : List (SessionId × Text)} (t : Task time)
      → Updates json ts ms
      → Updates json (ts ++ t ∷ []) ms
  sent :
      {ts : List (Task time)} {ms : List (SessionId × Text)} (t : Task time) (x : SessionId)
      → Updates json ts ms
      → Updates json (ts ++ t ∷ []) (ms ++ (x, update_message json t) ∷ [])

module _ {time : PosixTime} (json : JsonLibrary) where
  AreUpdates-more :
      (finished more : List (Task time)) (posted : List (SessionId × Text))
      → AreUpdates json finished posted
      → AreUpdates json (finished ++ more) posted
  AreUpdates-more finished more [] u = tt
  AreUpdates-more finished more ((x, message) ∷ posted) ((before, t, after, e, m), u) = (
    (before, t, after ++ more, ap (λ l. l ++ more) e ∙ append_assoc before (t ∷ after) more, m),
    AreUpdates-more finished more posted u,
  )

  AreUpdates-append :
      (finished : List (Task time)) (posted others : List (SessionId × Text))
      → AreUpdates json finished posted
      → AreUpdates json finished others
      → AreUpdates json finished (posted ++ others)
  AreUpdates-append finished [] others u v = v
  AreUpdates-append finished ((x, message) ∷ posted) others (one, u) v =
      (one, AreUpdates-append finished posted others u v)

  AreUpdates-map :
      (before : List (Task time)) (t : Task time) (xs : List SessionId)
      → AreUpdates json (before ++ t ∷ []) (map (λ x. (x, update_message json t)) xs)
  AreUpdates-map before t [] = tt
  AreUpdates-map before t (x ∷ xs) = ((before, t, [], refl, refl), AreUpdates-map before t xs)

  Updates-deliver :
      (alive : SessionId → Bool) {ts : List (Task time)} {ms : List (SessionId × Text)}
      (t : Task time) (found : Option SessionId)
      → Updates json ts ms
      → Updates json
          (ts ++ t ∷ [])
          (ms ++ map (λ x. (x, update_message json t)) (deliver alive found))
  unfolding deliver
  Updates-deliver alive {ms = ms} t none u =
      subst (Updates json _) (sym (append-nil ms)) (missed t u)
  Updates-deliver alive {ms = ms} t (some x) u = elim (Bool-cases (alive x)) [
    | inl lives ↦ rw lives (sent t x u)
    | inr gone ↦ rw (gone, append-nil) (missed t u)
  ]

module _ {time : PosixTime} {queue : Queue (Task time)} {json : JsonLibrary} where
  Step-AreUpdates :
      {threads : ℕ} (s : System queue) {r : System queue}
      → Step queue json threads s r
      → AreUpdates json s.finished s.posted
      → AreUpdates json r.finished r.posted
  unfolding pushing taking firing timer_sends
  Step-AreUpdates s (push t free) u = u
  Step-AreUpdates s (joins x free) u = u
  Step-AreUpdates s (leaves x free) u = u
  Step-AreUpdates s (start t r at go e) u = u
  Step-AreUpdates s (fire alive uid t at free) u =
      AreUpdates-append json (s.finished ++ t ∷ []) s.posted _
        (AreUpdates-more json s.finished (t ∷ []) s.posted u)
        (AreUpdates-map json s.finished t (send_to queue alive uid t.assignee s.shared))
  Step-AreUpdates s (resume t r at go e) u = u

  -- In every state that the server can reach, each message that a timer has posted is the update of
  -- a task that has finished.
  pub posted-AreUpdates :
      (root : Text) (threads : ℕ) (s : System queue)
      → Reach queue json threads (boot queue root) s
      → AreUpdates json s.finished s.posted
  unfolding boot
  posted-AreUpdates root threads s here = tt
  posted-AreUpdates root threads s (next {u} path last) =
      Step-AreUpdates u last (posted-AreUpdates root threads u path)

  Step-Updates :
      {threads : ℕ} (s : System queue) {r : System queue}
      → Step queue json threads s r
      → Updates json s.finished s.posted
      → Updates json r.finished r.posted
  unfolding pushing taking firing timer_sends send_to
  Step-Updates s (push t free) u = u
  Step-Updates s (joins x free) u = u
  Step-Updates s (leaves x free) u = u
  Step-Updates s (start t r at go e) u = u
  Step-Updates s (fire alive uid t at free) u = Updates-deliver json alive t _ u
  Step-Updates s (resume t r at go e) u = u

  -- In every state that the task loop can reach, the messages that the timers have posted are, in
  -- order, the updates of the tasks that have finished, each of which sent its own to one session
  -- or to none.
  pub posted-Updates :
      (root : Text) (threads : ℕ) (s : System queue)
      → Reach queue json threads (boot queue root) s
      → Updates json s.finished s.posted
  unfolding boot
  posted-Updates root threads s here = nothing
  posted-Updates root threads s (next {u} path last) =
      Step-Updates u last (posted-Updates root threads u path)
