-- ===== src/Tests/Unfold.antt =====
-- The whole of the managers, for tests that run it.
use state_fork.Dict.{get, put, pop, update}
use state_fork.Decider.{decide}
use state_fork.Benchmark.{add_entry, attach_size_calculator}
use state_fork.Manager.State.{new_manager}
use state_fork.Manager.Branches.{
  position, get_branch_state, register_branch, update_branch, remove_branch, set_current_branch,
  set_branch_position, register_snapshot_resource, snapshot_resource, remove_snapshot_resource,
  list_snapshots, add_child, link, record_snapshot_node,
}
use state_fork.Manager.Snapshot.{
  ask, note, after_capture, physical_node, virtual_node, consult, take_physical, commit_snapshot,
  snapshot_captured, snapshot_physical, snapshot_virtual, snapshot_active, snapshot_branch,
  snapshot,
}
use state_fork.Manager.Ancestry.{walk, resolve}
use state_fork.Manager.Exec.{
  log_command, log_timed_command, snapshot_label, target_snapshot, exec_finished, exec_active,
  exec_branch, exec_command,
}
use state_fork.Manager.Copy.{
  is_not_false, copy_finished, copy_active, copy_branch, copy_in, copy_out, cleanup,
}
use state_fork.Manager.Restore.{
  replay, restore_entered, restore_from, restore_walked, restore_found, restore,
}
use state_fork.Manager.Attach.{stand_at, attach_captured, attach}
use state_fork.Forkable.Branches.{
  distinct, is_taken, conflicting, set_active, register_live, register_all, forget_branch,
  materialize_branches, fork_requested, fork_ids, is_active, known_virtual, fork, discard_active,
  discard_finished, discard_branch,
}
use state_fork.Forkable.Restore.{after_snapshot, retire, switch_to, core_restore, hooks}
use state_fork.Forkable.Park.{
  handled, or_key_error, leave_branch, park_captured, park_active, park_branch,
  snapshot_branch as snapshot_branch_park_forkable, exec_on_branch, copy_in_branch, copy_out_branch,
}
use state_fork.Forkable.Listing.{
  base_or_none, stands_at, index_from, refresh_branch, refresh_all, drop_stale, drop_all, adopt,
  list_refreshed, list_branches, validate_decider, new_forkable,
}
use state_fork.Prelude.{contains}
use state_fork.Backends.Host.{
  exec_args, exec_result, reach, read, on_world, set_config, copy_not_implemented, init_tree, call,
  check_returncode, check_call,
}
use state_fork.Backends.Container.{
  image_name, commit_args, remove_args, run_args, remove_image_args, commit,
  core_snapshot as core_snapshot_container, relaunch, restore_image,
  core_restore as core_restore_container, exec_in, core_exec, container,
}

unfoldable pub managers : Unit {0}
unfolding contains get put pop update decide add_entry attach_size_calculator new_manager position
    get_branch_state register_branch update_branch remove_branch set_current_branch
    set_branch_position register_snapshot_resource snapshot_resource remove_snapshot_resource
    list_snapshots add_child link record_snapshot_node ask note after_capture physical_node
    virtual_node consult take_physical commit_snapshot snapshot_captured snapshot_physical
    snapshot_virtual snapshot_active snapshot_branch snapshot walk resolve log_command
    log_timed_command snapshot_label target_snapshot exec_finished exec_active exec_branch
    exec_command is_not_false copy_finished copy_active copy_branch copy_in copy_out cleanup replay
    restore_entered restore_from restore_walked restore_found restore stand_at attach_captured
    attach distinct is_taken conflicting set_active register_live register_all forget_branch
    materialize_branches fork_requested fork_ids is_active known_virtual fork discard_active
    discard_branch discard_finished after_snapshot retire switch_to core_restore hooks handled
    or_key_error leave_branch park_captured park_active park_branch snapshot_branch_park_forkable
    exec_on_branch copy_in_branch copy_out_branch base_or_none stands_at index_from refresh_branch
    refresh_all drop_stale drop_all adopt list_refreshed list_branches validate_decider new_forkable
managers = tt

-- The container backend.
unfoldable pub backends : Unit {0}
unfolding exec_args exec_result reach read on_world set_config copy_not_implemented init_tree call
    check_returncode check_call image_name commit_args remove_args run_args remove_image_args commit
    core_snapshot_container relaunch restore_image core_restore_container exec_in core_exec
    container
backends = tt
