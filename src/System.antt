-- ===== src/System.antt =====
-- The running broker: requests to Router and ticks of the store's worker, in any order, over one
-- store. Each runs from its start to its end.
pub mod Changes
pub mod Runs
pub mod Origins
pub mod Ceiling
