-- ===== src/Auth.antt =====
-- internal/auth: principals and their capabilities, sessions, and the login flow.
pub mod Roles
pub mod Sessions
pub mod Flow
