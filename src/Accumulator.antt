-- ===== src/Accumulator.antt =====
-- polymetis_franka_teleop/common/timestamp_accumulator.py: samples and actions put on a grid of
-- equal time windows.
pub mod Idxs
pub mod Samples
pub mod Windows
