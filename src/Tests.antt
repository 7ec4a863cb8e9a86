-- ===== src/Tests.antt =====
-- Concrete servers, stores and requests, and each property at one of them.
pub mod Samples
mod Serving
mod Batching
mod Windows
mod Layouts
mod Relaying
mod Fetching
mod Queueing
mod Gateways
mod Stages
mod Workers
mod Wires
mod Islands
mod Replicas
mod Checkpoints
