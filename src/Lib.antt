-- ===== src/Lib.antt =====
-- uperf-linux-rev: a daemon that adjusts CPU and device frequencies to what the machine is used
-- for, and gives every changed setting back.
--
-- The program. The policy crate (crates/uperf-core) decides: active hints give a scene, a load
-- detector and thermal guards give states, the energy governor spends a power budget over the
-- clusters, and `constrain_frequency_limits` turns a wish into limits that the hardware, the
-- administrator and the temperature allow. The actuator crate (crates/uperf-actuator) carries
-- limits out: it snaps a request to what a target can take, claims the target in a journal on
-- disk, writes the two sysfs files, reads back until the kernel shows the range, and on any
-- failure restores what it wrote and the journal. The daemon (crates/uperf-daemon) connects the two
-- with the observers of the Linux adapters (crates/uperf-linux).
--
-- What models what:
--   Core/Units, Core/Domain, Core/Scene, Core/Errors: crates/uperf-core/src/domain.rs and the
--     vocabulary of crates/uperf-core/src/policy.rs.
--   Core/Frequency: `FrequencyPolicy::validate`, `constrain_frequency_limits` and the quantizing and
--     snapping functions of crates/uperf-core/src/policy.rs; Core/Sorting has the slice operations.
--   Core/Hints: `Hint` and `HintSet`. A set is a map by scene, kept as an association list.
--   Core/Thermal: `ThermalGuard`; `update` returns the guard after the reading.
--   Core/Load, Core/Float: `HeavyLoadDetector` over an interface of `f64`, since nothing proved here
--     depends on rounding.
--   Core/Energy: crates/uperf-core/src/energy.rs, over the same interface. Model has the energy
--     models and their expansion; Demand the demand and the sampler; Bucket the energy bucket;
--     Governor the states of `transition_governor` and its first pass over the targets; Budget the
--     budget path and its cursor; Select the ramp, the dwell and the limits; Transition the whole
--     function, pass by pass. Prepared, Caps, Coverage, Cursor, Burst, Nearest and Expansion are
--     about them.
--   Core/Policy: `PolicyEngine` and `AppRuleEngine` of crates/uperf-core/src/policy.rs and the data
--     of crates/uperf-core/src/config.rs. Config has that data; Rules the matchers and the application
--     rules; Scheduler `evaluate_scheduler`; Parameters `effective_parameters` and the load views;
--     Engine `evaluate_base`; Stateful `evaluate_stateful`. Safety, Plans, Precedence, Tasks,
--     Priority and Apps are about them.
--   Actuator/Target: `FrequencyTarget` of crates/uperf-actuator/src/lib.rs.
--   Actuator/Writes: `ordered_write_states`, `transaction_legal_pairs`.
--   Actuator/Journal: the journal's data and `encode_journal`.
--   Actuator/Machine: `RuntimeState`, the ports, and the actions over them. Machine/Rules and
--     Machine/Ends have one rule for each way to build an action.
--   Actuator/Io: `read_limits`, `write_ordered`, `reset_frequency_request`, `wait_for_limits`,
--     `apply_requested_limits`, `restore_frequency_request`, `rollback_frequency_requests`.
--     Io/Steps has the step relation between machines, and what it means that a range was shown;
--     Ordered, Settle, Applied and Rollback say what the writes, the waiting and the rollback do.
--   Actuator/Batch: `apply_batch`, phase by phase, with `persist_or_remove_locked`. Claim, Files,
--     Told, Writing, Undoing and Whole follow the files through it; Works, Stores, Undo, Outcome
--     and Commit follow the journal and the disk.
--   Actuator/Batch/Registry: `TargetRegistry::new`.
--   Actuator/Fast: `apply_owned_batch_fast`.
--   Actuator/Restore: `restore_targets`.
--   Actuator/TaskMask, Actuator/UnitMask: `TaskFieldMask` and `UnitFieldMask`.
--   Daemon/Fence, Daemon/Reconcile: the safety envelope and `reconcile_frequencies` of
--     crates/uperf-daemon/src/reconcile.rs, which calls the three transactions of the actuator. A
--     `Worker` is the actuator's machine and the applied limits that the code changes in place.
--     Reconcile/Rules has one rule for each way to build its work; Steps, Envelope and Safety are
--     about it.
--   Linux/Input: the touch contacts and `TouchStateMachine` of crates/uperf-linux/src/input.rs, whose
--     events feed the hints. Touch is the machine and the body of the read loop, whose kernel
--     snapshot is an argument. Slots, Counts, Ends, Frames, Quiet, Rebuild and Balance are about
--     it.
--   Core/Examples, Actuator/Examples, Daemon/Examples, Linux/Examples: concrete runs.
--   Base: lists, maps, results, words, strings, and the names that all files share.
--
-- How the code is modelled. Numbers are natural numbers with the saturation, the checked operations
-- and the wrap of Rust written out. Strings and paths are lists of code points. A `BTreeMap` is an
-- association list. Error messages are reduced to what they are about. The mutex is held for a
-- whole call, so that a call is one action from a machine to a result and a machine; a poisoned
-- lock is not modelled. An action that fails leaves the state that it had reached.
--
-- What stands outside. `Platform` has the calls of the ports `SysfsIo` and `StateStore`, of
-- `Instant::now` and of `thread::sleep`, over a state of its own: each answer may depend on all
-- that went before. serde_json and the checksum are the fields of `Codec`, the regex crate those of
-- `Regexes`. Only the timeout asks for laws, those of a monotonic clock in `IsClock`. The trace of
-- writes and stores in a `Machine` is the model's own and no code reads it.
--
-- Fuel. The loop of `wait_for_limits` has a deadline of 50 ms and sleeps 2 ms at a time. It runs on
-- fuel for 26 polls: those that fit in the deadline, and one more. Actuator/Io/Timeout is about it.
--
-- Not modelled: the transactions on scalars, tasks and systemd units, recovery at startup, the
-- validation of configurations, the rest of the daemon and of the Linux adapters, and the front
-- ends.
pub mod Base
pub mod Core
pub mod Actuator
pub mod Daemon
pub mod Linux
