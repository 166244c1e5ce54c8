-- ===== src/Ticket.antt =====
-- flowgency/tickets: tickets, their storage and the service that changes them.
pub mod Models
pub mod Storage
pub mod Changes
pub mod Progress
pub mod Change
pub mod Typing
pub mod Cleanup
pub mod Service
mod Examples
