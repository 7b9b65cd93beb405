-- ===== src/Lib.antt =====
-- StateFork (controller/, decider/): managers that snapshot, restore and fork a running environment.
--
-- An environment manager drives one environment, a process or a container. It records its snapshots
-- in a graph: a physical snapshot is an image that a backend stored, a virtual one is the list of the
-- commands that were executed since its parent. A restore walks up to a physical ancestor, has the
-- backend reload it and replays the commands. A forkable manager has several environments alive at
-- once, its branches, one of which is current.
--
-- Parts, and the files that model them:
--   Exec, Dict       Python methods that mutate an object and may raise, and Python dicts with text
--                    keys. What was written before a raise stays written. Exec.Recover has the
--                    handlers of exceptions, Exec.Keeps and Exec.Ensures the rules for invariants and
--                    for results.
--   Decider          decider/decider.py: the policies that choose a physical or a virtual snapshot.
--   Benchmark        controller/benchmark.py: the log of timed operations, and its statistics.
--   Manager          controller/base_env_manager.py. State has the data of EnvironmentManager and the
--                    record Hooks of the _core_* methods, Branches the registries, Snapshot
--                    _snapshot_branch, Ancestry and Restore _restore_current_branch, Exec _exec_branch,
--                    Copy _copy_branch, cleanup and __del__, Attach the first snapshot that the constructors of
--                    controller/criu_env_manager.py and controller/hybrid_env_manager.py take.
--   Manager.Tree     print_snapshot_tree of controller/base_env_manager.py, and the order of graphs.
--   Manager.Stable   Invariants of the operations, from those of the bookkeeping helpers and the hooks;
--                    Calls has sequences of calls, Attach the first snapshot.
--   Manager.Replay   Sequential backends seen from the outside: states, images and commands.
--   Forkable         controller/forkable_env_manager.py. Branches has fork and discard_branch, Restore
--                    _core_restore, Park park_branch and the operations on a named branch, Listing
--                    list_branches and the constructor.
--   Forkable.Sound   The invariant of a forkable manager, and the contract of its backends.
--   Waypoint         controller/waypoint_env_manager.py. State has WaypointFork and the tools outside,
--                    Process _run_waypoint, Parse _parse_fork_line, Snapshots and Hooks the _core_*
--                    methods, Hydrate sync_snapshot_tree, Attach the constructor of
--                    WaypointAttachManager, Build that of WaypointBuildManager. Contract has the
--                    contract of a forkable backend, Sessions the managers from their construction on.
--   Backends         The sequential backends. Platform and Host have what they call outside, Container
--                    controller/container_env_manager.py, Criu controller/criu_env_manager.py, Hybrid
--                    controller/hybrid_env_manager.py, Gvisor controller/gvisor_env_manager.py and
--                    Firecracker controller/firecracker_env_manager.py. The files below Container are
--                    about an engine of docker or podman and its images, those below Registry about the
--                    resources of snapshots, Firecracker.Running and Firecracker.Paused about the running
--                    of a machine.
--   Factory          controller/__init__.py: create_env_manager. Factory.Launch is build_manager of
--                    interface/shell.py.
--   Shell            interface/shell.py. Api is what the shell calls of a manager, Commands and Loop have
--                    interactive_shell: its input is a list of lines, and what it prints a list of texts
--                    and reports. Main has main with its exit codes. Exits is about how the shell ends.
--   Search           scripts/search_workflow_demo.py: the moves and the choice of run_generation.
--   Text             The methods of Python's str that the parser and the shell use.
--   Tests            Backends in memory, and the theorems applied to them.
--
-- How the source is read. A method is a function of the manager's state into a result, a value or a
-- Python exception, and the new state. A subclass's hooks are the record Hooks, so the templates are
-- written once for all backends; E stands for the fields that the subclass adds and the world outside. The
-- record ForkHooks has the primitives of a forkable backend, and Forkable.Restore.hooks the hooks that
-- the forkable class makes of them. Branch objects that the source holds across a hook are looked up
-- again by their id, and a write through an object that was removed meanwhile is lost in both.
--
-- Bounds and fuel. Elapsed times are whole microseconds, and a clock that runs backwards yields 0.
-- The number of forks requested is a natural number. The walk of a restore is recursion on fuel, one
-- more than the number of nodes of the graph, and so is the traversal of print_snapshot_tree; the
-- wait for the end of a CRIU process has the timeout and two as its fuel, which is enough for a
-- clock that goes on with every reading. Waypoint forks that the source starts in a thread pool run
-- one after another, and quotients of the statistics are kept as numerator and denominator.
--
-- Not modelled: locks (an operation is one step), logging, printed tables, when __del__ runs, the
-- measuring of the size calculators, sleeps, FireBuildManager, the dummy docker backend, the command
-- line of the shell, a Ctrl-C while a command of the shell runs, the other scripts and the example
-- applications. The programs outside (docker, podman, criu, waypoint, firecracker, ssh) and psutil
-- are parameters.
mod Prelude
pub mod Exec
pub mod Dict
mod Text
pub mod Decider
pub mod Benchmark
pub mod Manager
pub mod Forkable
pub mod Backends
pub mod Waypoint
pub mod Search
pub mod Shell
pub mod Factory
mod Tests
