-- ===== src/Server/Listener/Accepting.antt =====
-- How long the listener accepts connections.
use gss.Base.{ℕ, zero, suc, ◌+◌, ◌≡◌, refl, List, [], ◌∷◌, if◌then◌else◌, arith}
use gss.Base.Text.{codes}
use gss.Server.Listener.{
  ErrorCode, success, operation_aborted, failed, Action, async_accept, start_session, is_error,
  fail, on_accept, run,
}

-- The accepts that an action list starts, and the sessions.
pub accepts : List Action → ℕ
accepts [] = 0
accepts (async_accept ∷ actions) = suc (accepts actions)
accepts (_ ∷ actions) = accepts actions

pub sessions : List Action → ℕ
sessions [] = 0
sessions (start_session ∷ actions) = suc (sessions actions)
sessions (_ ∷ actions) = sessions actions

-- The sessions that are started while accepts complete with `results`: a result is consumed only
-- if an accept is under way.
pub serve : ℕ → List ErrorCode → ℕ
serve pending [] = 0
serve pending (ec ∷ results) =
    let rest = sessions (on_accept ec) + serve (accepts (on_accept ec)) results in
    elim pending [ zero ↦ 0 | suc _ ↦ rest ]

-- The connections before the first error.
pub before_error : List ErrorCode → ℕ
before_error [] = 0
before_error (ec ∷ results) =
    let rest = suc (before_error results) in if is_error ec then 0 else rest

fail-silent :
    (ec : ErrorCode)
    → (accepts (fail ec (codes "accept")) ≡ 0) × (sessions (fail ec (codes "accept")) ≡ 0)
unfolding fail accepts sessions
fail-silent success = (refl, refl)
fail-silent operation_aborted = (refl, refl)
fail-silent (failed message) = (refl, refl)

serve-stopped : (results : List ErrorCode) → serve 0 results ≡ 0
unfolding serve
serve-stopped [] = refl
serve-stopped (ec ∷ results) = refl

-- From `run` on, whatever the results of the accepts are, the listener starts one session for each
-- connection before the first error, and none after it.
pub serve-before_error :
    (results : List ErrorCode) → serve (accepts run) results ≡ before_error results
unfolding serve before_error accepts sessions run on_accept fail
serve-before_error [] = refl
serve-before_error (success ∷ results) = omega (arith, serve-before_error results)
serve-before_error (operation_aborted ∷ results) = omega (arith, serve-stopped results)
serve-before_error (failed message ∷ results) = omega (arith, serve-stopped results)
