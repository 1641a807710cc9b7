-- ===== src/Tests.antt =====
-- The theorems at concrete inputs, and runs of the definitions as in tests/test_common.c.
mod Config
mod Toy
mod Windows
mod Routes
mod Packets
mod Tunnel
mod Start
mod Loop
mod Talk
mod Relay
mod Written
mod Redial
