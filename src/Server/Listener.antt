-- ===== src/Server/Listener.antt =====
-- src/gss-server/listener.hpp and listener.cpp. The results of the calls of the acceptor are
-- arguments; a handler returns the calls that it makes.
pub mod Accepting
use gss.Base.{Bool, true, false, List, [], ◌∷◌, ◌++◌, if◌then◌else◌}
use gss.Base.Text.{Text, codes}

pub data ErrorCode : Type 0 where
  success operation_aborted : ErrorCode
  failed : Text → ErrorCode

pub data Action : Type 0 where
  async_accept start_session : Action
  report : Text → Text → Action

unfoldable pub fail : ErrorCode → Text → List Action
fail success what = []
fail operation_aborted what = []
fail (failed message) what = report what message ∷ []

abbrev pub is_error : ErrorCode → Bool
is_error success = false
is_error _ = true

-- The constructor: open, set_option, bind, listen, in this order; the first error ends it. The
-- calls that are made are told by their names.
unfoldable pub construct :
    (open_ec set_option_ec bind_ec listen_ec : ErrorCode) → List Text × List Action
unfolding fail
construct open_ec set_option_ec bind_ec listen_ec =
    if is_error open_ec
    then (codes "open" ∷ [], fail open_ec (codes "open"))
    else if is_error set_option_ec
    then (codes "open" ∷ codes "set_option" ∷ [], fail set_option_ec (codes "set_option"))
    else if is_error bind_ec
    then (codes "open" ∷ codes "set_option" ∷ codes "bind" ∷ [], fail bind_ec (codes "bind"))
    else (
      codes "open" ∷ codes "set_option" ∷ codes "bind" ∷ codes "listen" ∷ [],
      if is_error listen_ec then fail listen_ec (codes "listen") else [],
    )

unfoldable pub run : List Action
run = async_accept ∷ []

unfoldable pub on_accept : ErrorCode → List Action
unfolding fail
on_accept ec = if is_error ec then fail ec (codes "accept") else start_session ∷ async_accept ∷ []
