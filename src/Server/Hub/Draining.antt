-- ===== src/Server/Hub/Draining.antt =====
-- `on_send` and `on_write` of websocket_session.cpp, until nothing is left to be written.
use gss.Base.{
  ℕ, zero, suc, ◌+◌, ◌*◌, ◌≤◌, ◌≡◌, refl, sym, ap, ◌∙◌, ◌⊎◌, inl, inr, true, false, List, [], ◌∷◌,
  ◌++◌, length, arith, ◌==◌, append-nil, List-cases,
}
use gss.Base.Text.{Text}
use gss.Containers.Queue.{Queue}
use gss.Server.Libraries.{PosixTime, JsonLibrary}
use gss.Server.Task.{Task}
use gss.Server.SharedState.{SessionId}
use gss.Server.WebsocketSession.Writes.{sending, writing, writes-in_order}
use gss.Server.WebsocketSession.Writes.Draining.{sending-queue, writing-queue, unbroken-cases}
use gss.Server.Hub.{Hub, Step, session, sends, wrote, Reach, next, new_hub, handle_send, set_link}
use gss.Server.Hub.Log.{posts_to}
use gss.Server.Hub.Arrival.{texts, AllGot, Reach-AllGot, new_hub-AllGot}

module _ {time : PosixTime} (queue : Queue (Task time)) (json : JsonLibrary) (y : SessionId) where
  -- A message that was posted to `y` is queued, or a write of `y` ends without an error.
  pub data Delivers (h : Hub queue) : Hub queue → Type 0 where
    queues :
        (m : Text) (rest : List Text)
        → h.inbox y ≡ m ∷ rest
        → h.outbox (session y) ≡ []
        → Delivers h (handle_send queue y m rest h)
    writes :
        (m : Text) (others : List Text)
        → (h.links y).in_flight ≡ m ∷ others
        → h.outbox (session y) ≡ []
        → Delivers h (set_link queue y (writing m others (h.links y)) h)

  -- A run of `n` such steps.
  pub data Drains (h : Hub queue) : ℕ → Hub queue → Type 0 where
    begin : Drains h zero h
    further : {n : ℕ} {u v : Hub queue} → Drains h n u → Delivers u v → Drains h (suc n) v

  abbrev pub CanDeliver : Hub queue → Type 0
  CanDeliver h = (g : Hub queue) × Delivers h g

  abbrev pub waiting : Hub queue → ℕ
  waiting h = 2 * length (h.inbox y) + length (h.links y).session.queue

  pub Delivers-Step : (h : Hub queue) {g : Hub queue} → Delivers h g → Step queue json h g
  Delivers-Step h (queues m rest e own) = sends y m rest e own
  Delivers-Step h (writes m others e own) = wrote y m others e own

  pub Delivers-waiting :
      (h : Hub queue) {g : Hub queue} → AllGot queue h → Delivers h g → suc (waiting g) ≡ waiting h
  unfolding handle_send
  Delivers-waiting h got (queues m rest e own) =
      let at : (y == y) ≡ true = ground arith in rw (at, sending-queue) (omega (arith, ap length e))
  Delivers-waiting h got (writes m others e own) =
      let at : (y == y) ≡ true = ground arith in
      rw at (omega (arith, writing-queue m others (h.links y) (got y).link e))

  -- Nothing is posted, and no write fails.
  pub record Same (h g : Hub queue) : Type 0 where
    pub log : g.log ≡ h.log
    pub broken : (g.links y).broken ≡ (h.links y).broken
    pub outbox : g.outbox (session y) ≡ h.outbox (session y)

  pub Delivers-Same : (h : Hub queue) {g : Hub queue} → Delivers h g → Same h g
  unfolding handle_send sending writing
  Delivers-Same h (queues m rest e own) =
      let at : (y == y) ≡ true = ground arith in
      record { log = refl; broken = rw at refl; outbox = refl }
  Delivers-Same h (writes m others e own) =
      let at : (y == y) ≡ true = ground arith in
      record { log = refl; broken = rw at refl; outbox = refl }

  Drains-Reach :
      {k h : Hub queue} {n : ℕ} {g : Hub queue}
      → Reach queue json k h
      → Drains h n g
      → Reach queue json k g
  Drains-Reach r begin = r
  Drains-Reach r (further {u} run d) = next (Drains-Reach r run) (Delivers-Step u d)

  Drains-Same : {h : Hub queue} {n : ℕ} {g : Hub queue} → Drains h n g → Same h g
  Drains-Same begin = record { log = refl; broken = refl; outbox = refl }
  Drains-Same (further {u} run d) =
      let before = Drains-Same run in
      let last = Delivers-Same u d in
      record {
        log = last.log ∙ before.log;
        broken = last.broken ∙ before.broken;
        outbox = last.outbox ∙ before.outbox;
      }

  Drains-waiting :
      {h : Hub queue} {n : ℕ} {g : Hub queue} (root : Text)
      → Reach queue json (new_hub queue root) h
      → Drains h n g
      → n + waiting g ≡ waiting h
  Drains-waiting root r begin = omega arith
  Drains-waiting root r (further {u} run d) =
      let got = Reach-AllGot queue json (Drains-Reach r run) (new_hub-AllGot queue root) in
      omega (arith, Drains-waiting root r run, Delivers-waiting u got d)

  -- A session none of whose writes has failed: its handlers can go on, or all was written.
  pub delivered_or_more :
      (g : Hub queue)
      → AllGot queue g
      → (g.links y).broken ≡ false
      → g.outbox (session y) ≡ []
      → ((g.links y).written ≡ texts (posts_to y g.log)) ⊎ CanDeliver g
  delivered_or_more g got sound own = elim (List-cases (g.inbox y)) [
    | inr (m, rest, e) ↦ inr (handle_send queue y m rest g, queues m rest e own)
    | inl none_posted ↦ elim (unbroken-cases (g.links y) (got y).link sound) [
      | inr (m, e) ↦ inr (set_link queue y (writing m [] (g.links y)) g, writes m [] e own)
      | inl none_queued ↦
          let l = g.links y in
          inl (
            sym (append-nil l.written)
            ∙ ap (λ q. l.written ++ q) (sym none_queued)
            ∙ (writes-in_order l (got y).link).1
            ∙ sym (append-nil l.sent)
            ∙ ap (λ q. l.sent ++ q) (sym none_posted)
            ∙ (got y).all)
    ]
  ]

  -- When no write of a session has failed, its handler has nothing left to post, and nothing more
  -- is posted to it: every run of its handlers, each write ending without an error, has at most two
  -- steps for each message in its inbox and one for each in its queue; wherever such a run stands,
  -- all that was posted to the session has been written, in order, or the handlers can make a
  -- further step.
  pub Drains-delivered :
      (root : Text) (h : Hub queue) (n : ℕ) (g : Hub queue)
      → Reach queue json (new_hub queue root) h
      → (h.links y).broken ≡ false
      → h.outbox (session y) ≡ []
      → Drains h n g
      → (n ≤ 2 * length (h.inbox y) + length (h.links y).session.queue)
        × (((g.links y).written ≡ texts (posts_to y h.log)) ⊎ CanDeliver g)
  Drains-delivered root h n g r sound own run =
      let same = Drains-Same run in
      let got = Reach-AllGot queue json (Drains-Reach r run) (new_hub-AllGot queue root) in
      (
        omega (arith, Drains-waiting root r run),
        elim (delivered_or_more g got (same.broken ∙ sound) (same.outbox ∙ own)) [
          | inl all ↦ inl (all ∙ ap (λ log. texts (posts_to y log)) same.log)
          | inr more ↦ inr more
        ],
      )
