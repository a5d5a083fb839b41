-- ===== src/Web.antt =====
-- internal/web: the handlers of the JSON interface, over the store, the registry of pools and the
-- engines of the targets.
pub mod Egress
pub mod Responses
pub mod Site
pub mod Gates
pub mod Statements
pub mod Console
pub mod Export
pub mod Reads
pub mod Explorer
pub mod Connections
pub mod Admin
pub mod Safety
pub mod Consoles
pub mod Editing
