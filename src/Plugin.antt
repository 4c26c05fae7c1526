-- ===== src/Plugin.antt =====
-- src/plugin: the header that a plugin registers (src/plugin/plugin_header.h), as far as the registry
-- and the scheduler read it. A script id stands as its bit pattern.
pub mod Register
pub mod Registry
pub mod Scheduler
pub mod FdTracker
mod Tests
use cytadel_scan.Base.{ℕ, Option, List, Bytes, codes}

-- `wildcard_index` is `none` where the source has `(size_t)-1`.
pub record Header : Type 0 where
  pub script_id : ℕ
  pub dependencies : List ℕ
  pub required_keys : List Bytes
  pub wildcard_index : Option ℕ

-- The prefix `Services/`.
abbrev pub services : Bytes
services = codes "Services/"
