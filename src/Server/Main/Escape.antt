-- ===== src/Server/Main/Escape.antt =====
-- What becomes of the program of main.cpp when a handler throws: nothing between the handler and
-- `io_context::run` catches.
pub mod Posts
pub mod Reads
use gss.Base.{ℕ, zero, suc}
use gss.Base.Int.{ℤ, pos}
use gss.Base.Try.{Try, returned, raised, Exception}

-- The thread of `main`, or one of those in `v`.
pub data IoThread : Type 0 where
  of_main of_v : IoThread

-- `std::terminate`, or a return of `main`.
pub data Ending : Type 0 where
  terminates : Ending
  exits : ℤ → Ending

-- From a thread of `v`, an exception leaves the thread's function. From `main`, it leaves the `try`
-- block: the threads that were started can still be joined when `v` is destroyed, which terminates
-- the program; when there are none, it is caught and `main` returns 0.
unfoldable pub escape : (started : ℕ) → IoThread → Exception → Ending
escape started of_v e = terminates
escape zero of_main e = exits (pos 0)
escape (suc n) of_main e = terminates

pub data Continued {ℓ} (A : Type ℓ) : Type ℓ where
  goes_on : A → Continued A
  ended : Ending → Continued A

-- A handler that `ioc.run()` calls.
unfoldable pub run_handler {ℓ} : {A : Type ℓ} → (started : ℕ) → IoThread → Try A → Continued A
unfolding escape
run_handler started thread (returned a) = goes_on a
run_handler started thread (raised e) = ended (escape started thread e)
