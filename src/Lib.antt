-- ===== src/Lib.antt =====
-- A model of polymetis_franka_teleop, a Python stack that teleoperates a Franka arm with a gripper
-- and records what happens, and what holds of it.
--
-- The processes of the stack talk through shared memory. A client puts commands into a
-- `SharedMemoryQueue`, and a controller process gets from it in each iteration of its loop: the
-- gripper controllers all commands, the arm's controller one. The controller puts its state into a
-- `SharedMemoryRingBuffer`, whose last k items any process may read. In teleoperation the Vive
-- process puts targets for the arm and the gripper into such buffers; with a policy its environment
-- puts waypoints into the queues. Camera processes give frames to a video recorder through such a
-- queue. Samples and frames are put on a grid of equal time windows by the functions of the
-- timestamp accumulator, and the arm's waypoints become a trajectory that is interpolated.
--
-- The files and the code that they model, below polymetis_franka_teleop/ where nothing else is said:
--   Prelude: Python's exceptions, dictionaries, integers and lists.
--   SharedMemory/Counter: `SharedAtomicCounter` of shared_memory/shared_memory_util.py.
--   SharedMemory/Arrays: the write and read loops over the fields, for both buffers; the children
--     show what a slot holds and what a window of slots reads.
--   SharedMemory/Queue: shared_memory/shared_memory_queue.py; every method with out=None.
--   SharedMemory/Ring: shared_memory/shared_memory_ring_buffer.py; every method with out=None.
--   Accumulator/Idxs: `get_accumulate_timestamp_idxs` and `align_timestamps` of
--     common/timestamp_accumulator.py.
--   Accumulator/Samples: `ObsAccumulator` of the same file.
--   Accumulator/Windows: `TimestampActionAccumulator` of the same file.
--   Trajectory: `PoseTrajectoryInterpolator` of common/pose_trajectory_interpolator.py.
--   Gripper: the loops of real_world/franka_gripper_controller.py (Gripper/Franka) and
--     real_world/art_gripper_controller.py (Gripper/Art), what both share, the messages of their
--     methods (Gripper/Commands), and common/gripper_specs.py (Gripper/Specs).
--   Arm: the control loop of real_world/franka_interpolation_controller.py and what its
--     `FrankaInterface` keeps between the calls.
--   Vive: the loop of real_world/vive_teleop_process.py: HOME (Vive/Home), the rotation by the
--     trackpad and the clutch (Vive/Steer), the gripper and the puts (Vive/Loop).
--   Video: real_world/video_recorder.py.
--   Camera: the capture loop of real_world/single_realsense.py.
--   Policy: `exec_actions` of real_world/franka_policy_env.py, and its episodes (Policy/Episodes).
--   ViveEnv: `start_episode`, `end_episode` and `drop_episode` of real_world/franka_vive_env.py and
--     what they write: the six lists and language.json (ViveEnv/Meta), the streams at their native
--     rate (ViveEnv/Native). What a try block of theirs achieves is an argument.
--   Demo: the main loop of scripts_real/demo_franka_vive.py, at the root of the
--     repository, and with Demo/Homing the loop together with the Vive process.
--   Latency: common/latency_config.py.
-- A child module is named for what it shows; Tests holds runs and the theorems at concrete values.
--
-- State and operations. An object is a record of its attributes, with the attributes' names; a
-- method is a function of the same name to the new record, and to a `Result` beside it where it may
-- raise, since an exception leaves the changes made before it. The loops of the controllers are
-- one function for an iteration, of what the iteration reads: clocks, the state of the device, the
-- outcome of each call and the messages of the queue. The state that the Vive loop puts for the arm
-- is the one that the arm's loop reads. The two processes around a video recorder are a list of
-- events, in any order.
--
-- Numbers. The counters of the buffers are the 64-bit words of the code and wrap; the theorems on
-- the contents ask that the counter does not wrap in the call, which takes 2^64 calls. Other
-- numbers are unbounded, as Python's. Clocks, widths and speeds, floats in the code, are integers
-- or naturals that count a small enough unit. No fuel is needed: each loop is over a list.
--
-- Parameters. What numpy and scipy compute is an argument: the cast of a number to an array's type,
-- the window of a timestamp, np.unique, the interpolation and the distance of poses, the deltas of
-- the Vive controller. So are the inverse kinematics of the robot and the replay buffer. Where a
-- theorem needs laws of these, they are a hypothesis of the theorem (`IsUnique`, `IsReplay`,
-- `IsArrays`). An array in a message for a shared buffer is taken to have the type and the shape of
-- its field.
--
-- Not modelled: raw shared memory and its layout, the `out` buffers, the start and the pacing of
-- processes, the client libraries of the robot, grippers and cameras, image and rotation
-- computations, `TimestampObsAccumulator`, the cameras other than the RealSense, the driver of the
-- Vive, the other scripts, the copied library quant/ and the third-party examples.
pub mod Accumulator
pub mod Arm
pub mod Camera
pub mod Demo
pub mod Gripper
pub mod Latency
pub mod Policy
pub mod Prelude
pub mod SharedMemory
pub mod Trajectory
pub mod Video
pub mod Vive
pub mod ViveEnv
