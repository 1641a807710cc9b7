-- ===== src/Loop.antt =====
-- `event_loop` of src/peer.c and what it calls. `Report` has what signals and `print_sessions` do,
-- `Send` the functions that send to a peer, `Periodic` the checks at the loop's head, `Response` and
-- `Inbound` the two ways to a session, `Data` the packets of a session and of the TUN device, `Step`
-- a turn and a run of the loop. The other children have what holds of them.
pub mod Report
pub mod Send
pub mod Periodic
pub mod Response
pub mod Inbound
pub mod Data
pub mod Step
pub mod Stop
pub mod Table
pub mod Still
pub mod Checks
pub mod Invariant
pub mod Expiry
pub mod Timeout
pub mod Within
pub mod Delivery
pub mod Once
pub mod Forward
pub mod Grace
pub mod Size
pub mod Collision
