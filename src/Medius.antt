-- ===== src/Medius.antt =====
-- cmd/medius: what the commands push, promote and docs do with an entry, and the pool of workers.
pub mod Env
pub mod Tags
pub mod Push
pub mod Workers
pub mod Results
pub mod Promote
pub mod Docs
pub mod Verify
