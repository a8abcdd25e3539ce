-- ===== src/KeyManagers.antt =====
-- Pre-keys: the managers that take and hand them out on the server and make them on the client.
pub mod Server
pub mod Client
