-- ===== src/SharedMemory.antt =====
-- polymetis_franka_teleop/shared_memory: the containers through which the processes talk.
pub mod Counter
pub mod Arrays
pub mod Queue
pub mod Ring
