-- ===== src/Server/WebsocketSession/Writes/Silent.antt =====
-- A websocket session after a failed write.
use gss.Base.{◌≡◌, ◌≢◌, refl, true, List, [], subst}
use gss.Base.Text.{Text}
use gss.Server.WebsocketSession.Writes.{
  Link, Step, send, named, wrote, failed, Reach, here, next, Flight, Flight-send, on_send-queue,
  on_send-started, new_link, new_link-Inv, Reach-Inv, naming, sending, writing, failing,
}

-- A link whose last write has failed.
record Silent (written : List Text) (l : Link) : Type 0 where
  is_broken : l.broken ≡ true
  waiting : l.session.queue ≢ []
  idle : l.in_flight ≡ []
  same : l.written ≡ written

Step-Silent : {w : List Text} (l : Link) {m : Link} → Step l m → Silent w l → Silent w m
unfolding naming sending writing failing
Step-Silent l (named s e) q = record {
  is_broken = q.is_broken;
  waiting = rw e q.waiting;
  idle = q.idle;
  same = q.same;
}
Step-Silent l (send ss) q =
    let kept = Flight-send true l.session.queue l.in_flight ss (q.waiting, q.idle) in
    record {
      is_broken = q.is_broken;
      waiting = rw on_send-queue kept.0;
      idle = rw (on_send-started ss l.session l.session.queue refl) kept.1;
      same = q.same;
    }
Step-Silent l (wrote ss others e) q = cc (q.idle, e)
Step-Silent l (failed ec ss others err e) q = cc (q.idle, e)

Reach-Silent : {w : List Text} {l m : Link} → Silent w l → Reach l m → Silent w m
Reach-Silent q here = q
Reach-Silent q (next {m} r st) = Step-Silent m st (Reach-Silent q r)

-- In every state after one in which a write has failed, nothing more has been written and no write
-- is under way.
pub broken-silent :
    (l m : Link)
    → Reach new_link l
    → l.broken ≡ true
    → Reach l m
    → (m.written ≡ l.written) × (m.in_flight ≡ [])
broken-silent l m r broken later =
    let flight : Flight true l.session.queue l.in_flight =
      subst (λ b. Flight b l.session.queue l.in_flight) broken (Reach-Inv new_link-Inv r).flight in
    let silent : Silent l.written l = record {
      is_broken = broken;
      waiting = flight.0;
      idle = flight.1;
      same = refl;
    } in
    let last = Reach-Silent silent later in (last.same, last.idle)
