-- ===== src/Server.antt =====
-- src/gss-server: the tasks, the state that all sessions share, the sessions and the listener.
pub mod Libraries
pub mod Task
pub mod SharedState
pub mod Scheduler
pub mod WebsocketSession
pub mod HttpSession
pub mod Listener
pub mod Hub
pub mod Ticker
pub mod Main
pub mod Whole
