-- ===== src/Scenarios.antt =====
-- The events, the semaphore and what they share, at concrete objects in a concrete system.
mod Crowds
mod Events
mod Semaphores
mod Shared
