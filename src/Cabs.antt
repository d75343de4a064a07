-- ===== src/Cabs.antt =====
-- Cabs and riders of A4/q3 (cab.c, rider.c, cab.h, common.h): the shared table of cabs, which
-- riders book and leave under the lock `checkCab`.
pub mod Types
pub mod Ride
pub mod System
pub mod Load
pub mod Crew
pub mod Board
pub mod Seats
pub mod Invariant
pub mod Moves
pub mod Runs
pub mod Promise
pub mod Search
pub mod Pay
pub mod Tests
