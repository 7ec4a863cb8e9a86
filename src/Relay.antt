-- ===== src/Relay.antt =====
-- panoengine/decentralized/relay.py: checkpoint shards, the relay's store and the relay client.
pub mod Sharding
pub mod Store
pub mod Client
