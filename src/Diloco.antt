-- ===== src/Diloco.antt =====
-- panoengine/decentralized/async_diloco.py: the parameter server, one child module for each part.
pub mod Fragments
pub mod Server
pub mod Dylu
pub mod Sync
pub mod Rounds
pub mod Optim
pub mod Heloco
pub mod Build
pub mod Registry
pub mod Wire
pub mod Checkpoint
pub mod Mla
