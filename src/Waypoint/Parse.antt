-- ===== src/Waypoint/Parse.antt =====
-- controller/waypoint_env_manager.py: `_parse_fork_line`.
use state_fork.Prelude.{ℤ, pos, String, Option, none, some, List, [], ◌∷◌, or_else, if◌then◌else◌}
use state_fork.Dict.{Dict, get, put, has}
use state_fork.Text.{strip, written_lines, split, partition, parse_int}
use state_fork.Waypoint.State.{WaypointFork}

-- lines[-1], or nothing where there are none
unfoldable pub last : List String → Option String
last [] = none
last (line ∷ []) = some line
last (line ∷ next ∷ lines) = last (next ∷ lines)

-- The first occurrence of a key wins.
unfoldable pub add_field : Dict String → Option (String × String) → Dict String
add_field kv none = kv
add_field kv (some (key, value)) = if has kv key then kv else put kv key value

-- The loop over `fields[1:]`.
unfoldable pub read_fields : Dict String → List String → Dict String
read_fields kv [] = kv
read_fields kv (field ∷ fields) = read_fields (add_field kv (partition b'=' field)) fields

-- int(kv.get("pid", "0")), and 0 where that is a `ValueError`
unfoldable pub read_pid : Option String → ℤ
read_pid none = pos 0
read_pid (some text) = or_else (parse_int text) (pos 0)

unfoldable pub fork_of : String → String → Dict String → WaypointFork
fork_of base_checkpoint id kv = record {
  id = id;
  base_snapshot_id = base_checkpoint;
  status = "running";
  details = record {
    pid = read_pid (get kv "pid");
    socket = or_else (get kv "socket") "";
    restore_duration = get kv "duration";
  };
}

-- A line that is not blank has a first field.
unfoldable pub read_line : String → List String → Option WaypointFork
read_line base_checkpoint [] = none
read_line base_checkpoint (id ∷ fields) = some (fork_of base_checkpoint id (read_fields [] fields))

unfoldable pub parse_fork_line : String → String → Option WaypointFork
parse_fork_line output base_checkpoint = elim (last (written_lines (strip output))) [
  | none ↦ none
  | some line ↦ read_line base_checkpoint (split line)
]
