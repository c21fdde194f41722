-- ===== src/Server/Whole/Arrival.antt =====
-- How an update of the whole server gets from the timer of a task to a browser.
use gss.Base.{
  ℕ, zero, suc, ◌<◌, ◌≤◌, ◌≡◌, refl, ap, ◌∙◌, inl, inr, true, false, [], ◌∷◌, ◌++◌, map-append,
  none, some, subst, arith,
}
use gss.Base.Text.{Text}
use gss.Containers.Queue.{Queue}
use gss.Server.Task.{Task}
use gss.Server.SharedState.{SessionId, member, find_session, update_message}
use gss.Server.SharedState.Sessions.Members.{find_session_unique}
use gss.Server.Scheduler.{timing, on_io}
use gss.Server.HttpSession.Handler.{Environment}
use gss.Server.Hub.{session, Hub, timer, is_alive, posts, sends, wrote, tell, tell_to, uid_in}
use gss.Server.Hub.Log.{posts_to}
use gss.Server.Hub.Arrival.{texts, AllGot, Reach-AllGot, new_hub-AllGot, Step-AllGot}
use gss.Server.Hub.Draining.{
  Delivers, queues, writes, waiting, Delivers-Step, Delivers-waiting, Delivers-Same,
  delivered_or_more,
}
use gss.Server.Hub.Update.{told, posted_to, posted_to-log}
use gss.Server.Whole.{going, Server, launch, handle_timer}
use gss.Server.Whole.Steps.{Step, Reach, here, next, visits, fires}
use gss.Server.Whole.Sessions.{Reach-forget}
use gss.Server.Whole.Threads.{held-enough}

module _ (env : Environment) (queue : Queue (Task env.time)) where
  pub Reach-trans :
      {started : ℕ} {s u v : Server env queue}
      → Reach env queue started s u
      → Reach env queue started u v
      → Reach env queue started s v
  Reach-trans r here = r
  Reach-trans r (next later st) = next (Reach-trans r later) st

  Reach-GotAll :
      (root : Text) (started : ℕ) (s : Server env queue)
      → Reach env queue started (launch env queue root) s
      → AllGot queue s.hub
  Reach-GotAll root started s r y =
      let got =
        Reach-AllGot queue env.json (Reach-forget env queue root started s r)
          (new_hub-AllGot queue root) y in
      record { link = got.link; all = got.all }

  module _ (y : SessionId) (started : ℕ) (enough : 0 < started) where
    Delivers-visits :
        (s : Server env queue) {g : Hub queue}
        → s.status ≡ going
        → Delivers queue env.json y s.hub g
        → Step env queue started s (record s { hub = g })
    Delivers-visits s on (queues m rest e own) =
        visits _ (sends y m rest e own) on (held-enough env queue s.worker started enough)
    Delivers-visits s on (writes m others e own) =
        visits _ (wrote y m others e own) on (held-enough env queue s.worker started enough)

    -- The handlers of a session can write all that was posted to it.
    drains :
        (n : ℕ) (s : Server env queue)
        → waiting queue env.json y s.hub ≤ n
        → AllGot queue s.hub
        → (s.hub.links y).broken ≡ false
        → s.hub.outbox (session y) ≡ []
        → s.status ≡ going
        → (s' : Server env queue) × Reach env queue started s s'
          × ((s'.hub.links y).written ≡ texts (posts_to y s.hub.log))
    drains zero s small got sound own on =
        elim (delivered_or_more queue env.json y s.hub got sound own) [
          | inl all ↦ (s, here, all)
          | inr (g, d) ↦ absurd (omega (arith, Delivers-waiting queue env.json y s.hub got d))
        ]
    drains (suc n) s small got sound own on =
        elim (delivered_or_more queue env.json y s.hub got sound own) [
          | inl all ↦ (s, here, all)
          | inr (g, d) ↦
              let same = Delivers-Same queue env.json y s.hub d in
              let (s', r, all) =
                drains n (record s { hub = g })
                  (omega (arith, Delivers-waiting queue env.json y s.hub got d))
                  (Step-AllGot queue env.json s.hub (Delivers-Step queue env.json y s.hub d) got)
                  (same.broken ∙ sound) (same.outbox ∙ own) on in
              (
                s',
                Reach-trans (next here (Delivers-visits s on d)) r,
                all ∙ ap (λ log. texts (posts_to y log)) same.log,
              )
        ]

    -- The state when the timer has run out, and that when its message is posted.
    timed_out : Text → Task env.time → Server env queue → Server env queue
    timed_out m t s = record s {
      hub = told queue env.json y m s.hub;
      worker = on_io;
      finished = s.finished ++ t ∷ [];
    }

    posted : Text → Task env.time → Server env queue → Server env queue
    posted m t s = record (timed_out m t s) { hub = posted_to queue env.json y m s.hub }

    posted-Reach :
        (s : Server env queue) (t : Task env.time)
        → s.status ≡ going
        → s.worker ≡ timing t
        → find_session (uid_in queue s.hub) t.assignee s.hub.shared.sessions none ≡ some y
        → Reach env queue started s (posted (update_message env.json t) t s)
    unfolding posted timed_out posted_to told tell tell_to handle_timer
    posted-Reach s t on at found =
        let m = update_message env.json t in
        let tells : tell queue env.json t s.hub ≡ told queue env.json y m s.hub =
          ap (λ o. tell_to queue o m s.hub) found in
        let free = held-enough env queue s.worker started enough in
        let first : Step env queue started s (timed_out m t s) =
          subst
            (λ h.
              Step env queue started s
                (record s { hub = h; worker = on_io; finished = s.finished ++ t ∷ [] }))
            tells (fires t on at free) in
        next (next here first) (visits _ (posts timer y m [] refl) on tt)

    -- With two I/O threads or more: when the server goes on and the timer of a task is set, while
    -- one session alone in the set has the name of its assignee, has not been dropped, none of its
    -- writes has failed, and its handler has nothing left to post, then steps of the server are
    -- possible after which the session has written all that was posted to it before, and then the
    -- update of the task.
    pub update_arrives :
        (root : Text) (s : Server env queue) (t : Task env.time)
        → Reach env queue started (launch env queue root) s
        → s.status ≡ going
        → s.worker ≡ timing t
        → member y s.hub.shared.sessions ≡ true
        → uid_in queue s.hub y ≡ t.assignee
        → ((z : SessionId)
            → member z s.hub.shared.sessions ≡ true
            → uid_in queue s.hub z ≡ t.assignee
            → z ≡ y)
        → is_alive (s.hub.phase y) ≡ true
        → (s.hub.links y).broken ≡ false
        → s.hub.outbox (session y) ≡ []
        → (s' : Server env queue) × Reach env queue started s s'
          × ((s'.hub.links y).written
              ≡ texts (posts_to y s.hub.log) ++ update_message env.json t ∷ [])
    unfolding posted timed_out
    update_arrives root s t r on at inside named only alive sound own =
        let m = update_message env.json t in
        let found =
          find_session_unique (uid_in queue s.hub) t.assignee s.hub.shared.sessions none y named
            only (inl inside) in
        let path = posted-Reach s t on at found in
        let (log, links, kept) = posted_to-log queue env.json y m s.hub alive in
        let (s', later, all) =
          drains (waiting queue env.json y (posted m t s).hub) (posted m t s) (omega arith)
            (Reach-GotAll root started (posted m t s) (Reach-trans r path))
            (ap (λ ls. (ls y).broken) links ∙ sound) (kept ∙ own) on in
        (
          s',
          Reach-trans path later,
          all ∙ ap texts log ∙ map-append _ (posts_to y s.hub.log) ((timer, m) ∷ []),
        )
