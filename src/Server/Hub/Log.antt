-- ===== src/Server/Hub/Log.antt =====
-- What the history says that each session should get, and what was posted to it.
use gss.Base.{Bool, false, ◌&&◌, ◌||◌, not, List, [], ◌∷◌, ◌++◌, ◌==◌, if◌then◌else◌}
use gss.Base.Text.{Text}
use gss.Server.SharedState.{SessionId}
use gss.Server.Hub.{Source, session, timer, same_source, Event, joined, left, said, told, posted}

-- Whether a session has joined and has not left since.
abbrev pub is_member : SessionId → List Event → Bool
is_member y [] = false
is_member y (joined x ∷ log) = (x == y) || is_member y log
is_member y (left x ∷ log) = not (x == y) && is_member y log
is_member y (_ ∷ log) = is_member y log

abbrev pub when {ℓ} : {A : Type ℓ} → Bool → A → List A
when b m = if b then m ∷ [] else []

-- The messages of a source that are meant for a session, in order: those that were sent to all
-- while it was a member, and those that the timer sent to it.
abbrev pub said_to : Source → SessionId → List Event → List Text
said_to src y [] = []
said_to src y (said x m ∷ log) =
    said_to src y log ++ when (same_source (session x) src && is_member y log) m
said_to src y (told x m ∷ log) = said_to src y log ++ when (same_source timer src && (x == y)) m
said_to src y (_ ∷ log) = said_to src y log

-- The messages that were posted to a session, in order.
abbrev pub posts_to : SessionId → List Event → List (Source × Text)
posts_to y [] = []
posts_to y (posted src x m ∷ log) = posts_to y log ++ when (x == y) (src, m)
posts_to y (_ ∷ log) = posts_to y log

-- Those of one source among them.
abbrev pub from : Source → List (Source × Text) → List Text
from src [] = []
from src ((s, m) ∷ ms) = when (same_source s src) m ++ from src ms

-- Those for one session among what has still to be posted.
abbrev pub for : SessionId → List (SessionId × Text) → List Text
for y [] = []
for y ((x, m) ∷ ms) = when (x == y) m ++ for y ms
