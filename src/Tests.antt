-- ===== src/Tests.antt =====
-- A small pool, an environment that answers as a healthy cluster would, and the theorems at them.
mod World
mod Allocation
mod Pool
mod Provider
