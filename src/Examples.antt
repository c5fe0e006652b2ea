-- ===== src/Examples.antt =====
-- The theorems at concrete inputs.
mod Wire
mod Disk
mod Storage
mod Gossip
mod Router
mod Validator
mod Api
mod Supervisor
mod Messages
mod Quorum
mod Clock
mod Machine
mod Pbft
mod Simulator
mod Server
mod HttpApi
