-- ===== src/Tunnel.antt =====
-- Two peers (src/peer.c) and the network between them.
pub mod Lookup
pub mod Send
pub mod Receive
pub mod Delivery
pub mod Stream
pub mod Steps
pub mod Arrival
pub mod Begin
pub mod Ask
pub mod Answer
pub mod Able
pub mod Meet
pub mod Connect
pub mod Talk
pub mod Slots
pub mod Due
pub mod Redial
