-- ===== src/Tests.antt =====
-- Concrete runs: the theorems at inputs where their conditions hold.
mod Params
mod Store
mod Server
mod Files
mod Whole
mod Names
mod Config
mod Trees
mod Progress
mod Devices
mod Locking
mod Serving
