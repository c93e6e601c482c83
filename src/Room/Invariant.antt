-- ===== src/Room/Invariant.antt =====
-- What packages/room-core/src/invariants.ts asks of a room, and what more the handlers rely on, field
-- by field.
pub mod Seats
pub mod Parting
pub mod Readies
pub mod Hosts
pub mod Entries
pub mod Membership
pub mod Denials
pub mod Series
pub mod Phases
pub mod Turns
pub mod Checked
pub mod Asserted
