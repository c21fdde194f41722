-- ===== src/Server/Main.antt =====
-- src/gss-server/main.cpp. What CLI11 makes of the arguments, and the endpoint that Asio makes of
-- an address, are arguments; `main` runs until a signal stops the I/O context, then returns.
pub mod Threads
pub mod Escape
use gss.Base.{ℕ, zero, suc, ◌^◌, Bool, true, false, Option, none, some, if◌then◌else◌}
use gss.Base.Int.{ℤ, pos, negsuc}
use gss.Base.Text.{Text, codes}
use gss.Base.Try.{
  Exception, length_error, bad_optional_access, Try, returned, raised, ◌>>=◌, or_raise,
}

pub record Options : Type 0 where
  pub port : Option ℕ
  pub address_in : Option Text
  pub threads_in : Option ℤ
  pub show_version : Bool

-- What CLI11_PARSE does: it goes on, or returns its exit code.
pub data Parsed : Type 0 where
  exit : ℤ → Parsed
  options : Options → Parsed

abbrev pub value_or {ℓ} : {A : Type ℓ} → Option A → A → A
value_or none default = default
value_or (some a) default = a

-- `v.reserve(threads - 1)` and the loop: the number of threads that are started. A negative number
-- is a `size_t` above `max_size`.
unfoldable pub start_threads : ℤ → Try ℕ
start_threads (pos zero) = raised length_error
start_threads (pos (suc n)) = returned n
start_threads (negsuc n) = raised length_error

-- A server at an address and a port whose I/O context is run by `io_threads` threads.
pub record Served : Type 0 where
  pub address : Text
  pub port : ℕ
  pub io_threads : ℕ

-- The body of the `try` block after the options.
unfoldable pub serve : (make_address : Text → Try Text) → Options → Try Served
unfolding start_threads
serve make_address o = do
  address ← make_address (value_or o.address_in (codes "0.0.0.0"))
  port ← or_raise bad_optional_access o.port
  started ← start_threads (value_or o.threads_in (pos 1))
  returned (record { address = address; port = port; io_threads = suc started })

-- How `main` comes to its end, and its exit code.
pub data Outcome : Type 0 where
  usage version : Outcome
  served : Served → Outcome
  unhandled : Exception → Outcome

abbrev pub outcome : Try Served → Outcome
outcome (returned s) = served s
outcome (raised e) = unhandled e

unfoldable pub main : (make_address : Text → Try Text) → Parsed → Outcome × ℤ
unfolding serve
main make_address (exit code) = (usage, code)
main make_address (options o) =
    if o.show_version then (version, pos 0) else (outcome (serve make_address o), pos 0)
