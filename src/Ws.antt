-- ===== src/Ws.antt =====
-- The web sockets of internal/riverbank/ws: the hub with its clients, the JSON-RPC frames, the
-- routing of a client's requests, and the handlers of the requests.
pub mod Hub
pub mod Protocol
pub mod Client
pub mod Chat
pub mod Requests
pub mod Read
