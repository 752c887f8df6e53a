-- ===== src/Examples.antt =====
-- The theorems at concrete inputs: packets, contexts and pools as the host model meets them.
pub mod Data
mod Packets
mod Pools
mod Transfers
mod Lines
mod Echo
mod Sequences
mod Service
mod Hosts
