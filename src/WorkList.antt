-- ===== src/WorkList.antt =====
-- include/txl/work_list.h: units of work, the workers that execute them, and their distributor.
pub mod Defs
pub mod Chain
pub mod Distributor
mod Tests
