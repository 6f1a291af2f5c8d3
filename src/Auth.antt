-- ===== src/Auth.antt =====
-- The errors of the library, its model of users, where users are kept, the login service, its tokens
-- and its API.
pub mod Errors
pub mod User
pub mod Inmem
pub mod Service
pub mod Token
pub mod Api
pub mod Tests
