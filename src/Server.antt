-- ===== src/Server.antt =====
-- The server of jelly: the requests that its handlers read and what they answer with, and its life
-- cycle.
pub mod Responses
pub mod Requests
pub mod Lifecycle
pub mod Missed
pub mod Apis
