-- ===== src/Server/Hub/Update.antt =====
-- The way of an update from the timer of a task to the browser of its assignee.
use gss.Base.{
  ℕ, zero, suc, ◌≤◌, ◌≡◌, refl, ap, subst, ◌∙◌, inl, inr, true, false, [], ◌∷◌, ◌++◌, map-append,
  arith, none, some, ◌==◌,
}
use gss.Base.Text.{Text}
use gss.Containers.Queue.{Queue}
use gss.Server.Libraries.{PosixTime, JsonLibrary}
use gss.Server.Task.{Task}
use gss.Server.SharedState.{SessionId, member, find_session, update_message}
use gss.Server.SharedState.Sessions.Members.{find_session_unique}
use gss.Server.Hub.{
  Hub, Step, Reach, here, next, new_hub, times_out, posts, tell, tell_to, post, session, timer,
  is_alive, uid_in,
}
use gss.Server.Hub.Log.{posts_to}
use gss.Server.Hub.Arrival.{texts, AllGot, Reach-AllGot, new_hub-AllGot, Step-AllGot}
use gss.Server.Hub.Draining.{
  waiting, Delivers-Step, Delivers-waiting, Delivers-Same, delivered_or_more,
}

module _ {time : PosixTime} (queue : Queue (Task time)) (json : JsonLibrary) (y : SessionId) where
  Reach-trans :
      {h g k : Hub queue} → Reach queue json h g → Reach queue json g k → Reach queue json h k
  Reach-trans r here = r
  Reach-trans r (next later st) = next (Reach-trans r later) st

  -- The handlers of a session can write all that was posted to it.
  drained :
      (n : ℕ) (h : Hub queue)
      → waiting queue json y h ≤ n
      → AllGot queue h
      → (h.links y).broken ≡ false
      → h.outbox (session y) ≡ []
      → (g : Hub queue) × Reach queue json h g × ((g.links y).written ≡ texts (posts_to y h.log))
  drained zero h small got sound own = elim (delivered_or_more queue json y h got sound own) [
    | inl all ↦ (h, here, all)
    | inr (g, d) ↦ absurd (omega (arith, Delivers-waiting queue json y h got d))
  ]
  drained (suc n) h small got sound own = elim (delivered_or_more queue json y h got sound own) [
    | inl all ↦ (h, here, all)
    | inr (u, d) ↦
        let st = Delivers-Step queue json y h d in
        let same = Delivers-Same queue json y h d in
        let (g, r, all) =
          drained n u (omega (arith, Delivers-waiting queue json y h got d))
            (Step-AllGot queue json h st got) (same.broken ∙ sound) (same.outbox ∙ own) in
        (g, Reach-trans (next here st) r, all ∙ ap (λ log. texts (posts_to y log)) same.log)
  ]

  unfoldable pub told : Text → Hub queue → Hub queue
  told m h = tell_to queue (some y) m h

  unfoldable pub posted_to : Text → Hub queue → Hub queue
  posted_to m h = post queue timer y m [] (told m h)

  posted_to-Step :
      (t : Task time) (h : Hub queue)
      → find_session (uid_in queue h) t.assignee h.shared.sessions none ≡ some y
      → h.outbox timer ≡ []
      → Reach queue json h (posted_to (update_message json t) h)
  unfolding posted_to told tell tell_to
  posted_to-Step t h found none_left =
      let m = update_message json t in
      let tells : tell queue json t h ≡ told m h = ap (λ o. tell_to queue o m h) found in
      let first : Step queue json h (told m h) =
        subst (Step queue json h) tells (times_out t none_left) in
      next (next here first) (posts timer y m [] refl)

  pub posted_to-log :
      (m : Text) (h : Hub queue)
      → is_alive (h.phase y) ≡ true
      → (posts_to y (posted_to m h).log ≡ posts_to y h.log ++ (timer, m) ∷ [])
        × ((posted_to m h).links ≡ h.links)
        × ((posted_to m h).outbox (session y) ≡ h.outbox (session y))
  unfolding posted_to told tell_to post
  posted_to-log m h alive =
      let at : (y == y) ≡ true = ground arith in (rw (alive, at), rw alive, rw alive)

  -- When the timer of a task runs out while one session alone in the set has the name of its
  -- assignee, it has not been dropped, none of its writes has failed, and neither the timer nor its
  -- own handler has anything left to post, the handlers can go on so that the session writes all
  -- that was posted to it before, and then the update.
  pub update_written :
      (root : Text) (h : Hub queue) (t : Task time)
      → Reach queue json (new_hub queue root) h
      → member y h.shared.sessions ≡ true
      → uid_in queue h y ≡ t.assignee
      → ((z : SessionId)
          → member z h.shared.sessions ≡ true
          → uid_in queue h z ≡ t.assignee
          → z ≡ y)
      → is_alive (h.phase y) ≡ true
      → (h.links y).broken ≡ false
      → h.outbox timer ≡ []
      → h.outbox (session y) ≡ []
      → (g : Hub queue) × Reach queue json h g
        × ((g.links y).written ≡ texts (posts_to y h.log) ++ update_message json t ∷ [])
  update_written root h t r inside named only alive sound none_left own =
      let m = update_message json t in
      let found =
        find_session_unique (uid_in queue h) t.assignee h.shared.sessions none y named only
          (inl inside) in
      let path = posted_to-Step t h found none_left in
      let (log, links, kept) = posted_to-log m h alive in
      let got =
        Reach-AllGot queue json path (Reach-AllGot queue json r (new_hub-AllGot queue root)) in
      let (g, later, all) =
        drained (waiting queue json y (posted_to m h)) (posted_to m h) (omega arith) got
          (ap (λ ls. (ls y).broken) links ∙ sound) (kept ∙ own) in
      (
        g,
        Reach-trans path later,
        all ∙ ap texts log ∙ map-append _ (posts_to y h.log) ((timer, m) ∷ []),
      )
