-- ===== src/Streaming.antt =====
-- plugins/web_server_plugin.py: the state of one streamed request and what is sent to the client.
-- The main thread alone writes `Front`, the worker alone writes `Back`; the queue is between them.
pub mod Output
pub mod Machine
pub mod Tests
