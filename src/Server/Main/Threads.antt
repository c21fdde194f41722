-- ===== src/Server/Main/Threads.antt =====
-- The number of I/O threads that main.cpp gives the server, and what follows from it.
use gss.Base.{
  ℕ, zero, suc, ◌<◌, ◌≡◌, refl, ap, sym, subst, ◌∙◌, if◌then◌else◌, Bool, true, false, Option, none,
  some, [], ◌∷◌, arith,
}
use gss.Base.Int.{ℤ, pos, negsuc}
use gss.Base.Text.{Text}
use gss.Base.Try.{Try, returned, raised, bad_optional_access, ◌>>=◌, or_raise}
use gss.Containers.Queue.{Queue}
use gss.Server.Libraries.{PosixTime, JsonLibrary}
use gss.Server.Task.{Task}
use gss.Server.SharedState.{SessionId}
use gss.Server.Scheduler.{System, boot, Reach}
use gss.Server.Scheduler.Progress.{IsStuck, one_thread-hangs}
use gss.Server.Main.{
  Options, options, Served, served, Outcome, version, outcome, main, serve, start_threads, value_or,
}

-- The threads that were asked for, one when none were.
pub AsksFor : Options → ℕ → Type 0
AsksFor o n = value_or o.threads_in (pos 1) ≡ pos n

pos_inj : {m n : ℕ} → pos m ≡ pos n → m ≡ n
pos_inj e = cc e

start_threads-returned :
    (threads : ℤ) (n : ℕ) → start_threads threads ≡ returned n → threads ≡ pos (suc n)
unfolding start_threads
start_threads-returned (pos zero) n e = cc
start_threads-returned (pos (suc m)) n e = cc e
start_threads-returned (negsuc m) n e = cc

main_served :
    (show_version : Bool) (t : Try Served) (s : Served)
    → (if◌then◌else◌ {A = Outcome × ℤ} show_version (version, pos 0) (outcome t, pos 0)).0
      ≡ served s
    → t ≡ returned s
main_served true t s e = cc
main_served false (returned u) s e = cc e
main_served false (raised x) s e = cc

io_threads_of : Try Served → ℕ
io_threads_of (returned s) = s.io_threads
io_threads_of (raised x) = 0

serve_started :
    (address : Try Text) (port : Option ℕ) (started : Try ℕ) (s : Served)
    → (address >>= λ a. or_raise bad_optional_access port >>= λ p.
        started >>= λ n. returned (record { address = a; port = p; io_threads = suc n }))
      ≡ returned s
    → (n : ℕ) × (started ≡ returned n) × (s.io_threads ≡ suc n)
unfolding io_threads_of
serve_started (raised x) port started s e = cc
serve_started (returned a) none started s e = cc
serve_started (returned a) (some p) (raised x) s e = cc
serve_started (returned a) (some p) (returned n) s e = (n, refl, sym (ap io_threads_of e))

-- When `main` serves, it does so with as many I/O threads as the options ask for, one when they
-- ask for none, and with at least one.
pub main-io_threads :
    (make_address : Text → Try Text) (o : Options) (s : Served)
    → (main make_address (options o)).0 ≡ served s
    → (0 < s.io_threads) × AsksFor o s.io_threads
unfolding main serve AsksFor
main-io_threads make_address o s e =
    let (n, started, threads) = serve_started _ _ _ s (main_served o.show_version _ s e) in
    let asked = start_threads-returned _ n started in
    (omega (arith, threads), asked ∙ ap pos (sym threads))

module _ {time : PosixTime} (queue : Queue (Task time)) (json : JsonLibrary)
    (alive : SessionId → Bool) (uid : SessionId → Text) where
  -- When `main` serves without a number of threads on the command line, then for every task the
  -- server can reach a state in which only that task was pushed and no step is possible any more.
  pub main-hangs :
      (make_address : Text → Try Text) (o : Options) (served_by : Served) (root : Text)
      (t : Task time)
      → o.threads_in ≡ none
      → (main make_address (options o)).0 ≡ served served_by
      → (s : System queue) × Reach queue json served_by.io_threads (boot queue root) s
        × (s.pushed ≡ t ∷ [])
        × IsStuck json served_by.io_threads s
  unfolding AsksFor
  main-hangs make_address o served_by root t default e =
      let asked = main-io_threads make_address o served_by e in
      let one : 1 ≡ served_by.io_threads =
        pos_inj (ap (λ x. value_or x (pos 1)) (sym default) ∙ asked.1) in
      let (s, path, pushed, _, stuck) = one_thread-hangs {queue = queue} json alive uid root t in
      subst
        (λ n.
          (s : System queue) × Reach queue json n (boot queue root) s
          × (s.pushed ≡ t ∷ [])
          × IsStuck json n s)
        one (s, path, pushed, stuck)
