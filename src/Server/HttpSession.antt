-- ===== src/Server/HttpSession.antt =====
-- src/gss-server/http_session.hpp and http_session.cpp. Requests and responses are recorded as what
-- the code reads from them and sets in them; Beast formats and sends them. The file system, the
-- comparison of extensions and the libraries are parameters.
pub mod Names
pub mod Handler
pub mod Paths
pub mod Requests
pub mod Connection
