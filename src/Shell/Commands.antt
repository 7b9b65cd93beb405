-- ===== src/Shell/Commands.antt =====
-- interface/shell.py: `interactive_shell`, which reads commands, one line each.
use state_fork.Prelude.{
  zero, ℕ, ℤ, pos, negsuc, String, Bool, true, false, Option, none, some, List, [], ◌∷◌, ◌++◌, ◌<>◌,
  ◌&&◌, not, ◌==◌, if◌then◌else◌, nonempty, truthy, or_else, contains, map, is_some,
}
use state_fork.Exec.{Exec, pure, gets, ◌>>=◌}
use state_fork.Text.{strip, split, only, parse_int}
use state_fork.Manager.State.{line, ExecResult}
use state_fork.Shell.Api.{Api, ForkApi, Shown}

-- What is printed: a text, or one of the reports of the manager.
pub data Printed : Type 0 where
  text : String → Printed
  exit_code : ℤ → Printed
  stats_report history_report storage_report tree_report : Printed

-- What a round of the loop leaves: what it printed, `need_cmd_heading`, and whether the loop goes on.
pub record Round : Type 0 where
  pub printed : List Printed
  pub heading : Bool
  pub goes_on : Bool

unfoldable pub say : List String → List Printed
say = map text

unfoldable pub show_output : ExecResult → List Printed
show_output result =
    say (if nonempty (strip result.stdout) then "--- stdout ---" ∷ strip result.stdout ∷ [] else [])
    ++ say
        (if nonempty (strip result.stderr) then "--- stderr ---" ∷ strip result.stderr ∷ [] else [])

unfoldable pub tail : List String → List String
tail [] = []
tail (t ∷ ts) = ts

unfoldable pub forks_lines : String → List Shown → List String
forks_lines current [] = []
forks_lines current (f ∷ forks) =
    ("- "
      <> f.id
      <> (if f.id == current then " (current)" else "")
      <> ": base="
      <> f.base
      <> " status="
      <> f.status)
    ∷ forks_lines current forks

unfoldable pub forked_lines : List Shown → List String
forked_lines [] = "Fork failed." ∷ []
forked_lines (f ∷ []) = ("Forked " <> f.id <> " from " <> f.base) ∷ []
forked_lines (f ∷ g ∷ forks) = ("Forked " <> f.id <> " from " <> f.base) ∷ forked_lines (g ∷ forks)

-- A number below zero requests nothing, as zero does.
unfoldable pub requested : ℤ → ℕ
requested (pos n) = n
requested (negsuc n) = 0

-- if rc != 0: print(f"(exit code {rc})")
unfoldable pub exit_code_report : ℤ → List Printed
exit_code_report (pos zero) = []
exit_code_report code = exit_code code ∷ []

module _ {S : Type 0} (api : Api S) where
  -- A command of the forkable capability; other managers are told that it is missing.
  unfoldable pub with_fork_api : (ForkApi S → Exec S (List Printed)) → Exec S (List Printed)
  with_fork_api command s = elim api.fork_api [
    | none ↦
        pure
          (say
            (("This command requires a forkable backend (current: " <> api.backend s <> ").") ∷ []))
          s
    | some forks ↦ command forks s
  ]

  -- `execute_command`
  unfoldable pub execute_command : String → Exec S (List Printed)
  execute_command command = do result ← api.exec_command (line command); pure (show_output result)

  unfoldable pub current_line : Exec S (List Printed)
  current_line = gets (λ s. say (("Current branch: " <> api.current_branch_id s) ∷ []))

  unfoldable pub snapshot_report : Option String → Exec S (List Printed)
  snapshot_report sid = pure (
      say
        ((if truthy sid then "Snapshot created: " <> or_else sid "" else "Snapshot failed.") ∷ []))

  -- `target` was the current branch where no fork was named, so parking it moved the pointer.
  unfoldable pub park_report : Bool → String → Option String → Exec S (List Printed)
  park_report named target sid s =
      let told = say (("Fork " <> target <> " parked as snapshot " <> or_else sid "") ∷ []) in
      if truthy sid
      then if named then pure told s else (current_line >>= λ now. pure (told ++ now)) s
      else pure (say ("Park failed." ∷ [])) s

  unfoldable pub report : Bool → Bool → String → Option String → Exec S (List Printed)
  report true named target sid = park_report named target sid
  report false named target sid = snapshot_report sid

  unfoldable pub snapshot_of : Option String → Bool → Exec S (List Printed)
  snapshot_of fid park = with_fork_api λ forks. do
    current ← gets api.current_branch_id
    sid ← forks.snapshot_branch (or_else fid current) park
    report park (is_some fid) (or_else fid current) sid

  unfoldable pub snapshot_tokens : Bool → List String → Exec S (List Printed)
  snapshot_tokens true [] = snapshot_of none true
  snapshot_tokens false [] = do sid ← api.snapshot; snapshot_report sid
  snapshot_tokens park (fid ∷ []) = snapshot_of (some fid) park
  snapshot_tokens park (fid ∷ other ∷ more) = pure (say ("Usage: snapshot [fork_id] [--park]" ∷ []))

  unfoldable pub snapshot_command : String → Exec S (List Printed)
  snapshot_command cmd =
      let tokens = tail (split cmd) in
      snapshot_tokens (contains "--park" tokens) (only (λ t. not (t == "--park")) tokens)

  unfoldable pub restore_report : String → Bool → Exec S (List Printed)
  restore_report sid false s = pure (say (("Restore failed for " <> sid <> ".") ∷ [])) s
  restore_report sid true s =
      let told = say (("Restored to snapshot " <> sid) ∷ []) in
      if is_some api.fork_api then (current_line >>= λ now. pure (told ++ now)) s else pure told s

  unfoldable pub restore_command : String → Exec S (List Printed)
  restore_command sid s =
      if nonempty sid
      then (do restored ← api.restore sid; restore_report sid restored) s
      else pure (say ("Usage: restore <snapshot_id>" ∷ [])) s

  unfoldable pub cmd_command : String → Exec S (List Printed)
  cmd_command command s =
      if nonempty command
      then execute_command command s
      else pure (say ("Usage: cmd <command>" ∷ [])) s

  unfoldable pub forks_command : Exec S (List Printed)
  forks_command = with_fork_api λ forks. do
    branches ← forks.list_branches
    current ← gets api.current_branch_id
    pure
        (say (elim branches [ [] ↦ "No live forks." ∷ [] | b ∷ bs ↦ forks_lines current (b ∷ bs) ]))

  unfoldable pub fork_number : Option ℤ → String → ForkApi S → Exec S (List Printed)
  fork_number none sid forks = pure (say ("Usage: fork <snapshot_id> [n]" ∷ []))
  fork_number (some n) sid forks = do
    branches ← forks.fork sid (requested n)
    pure (say (forked_lines branches))

  unfoldable pub fork_parts : List String → ForkApi S → Exec S (List Printed)
  fork_parts [] forks = pure (say ("Usage: fork <snapshot_id> [n]" ∷ []))
  fork_parts (sid ∷ []) forks = fork_number (some (pos 1)) sid forks
  fork_parts (sid ∷ n ∷ more) forks = fork_number (parse_int n) sid forks

  unfoldable pub fexec_command : String → String → ForkApi S → Exec S (List Printed)
  fexec_command fork_id command forks s =
      if nonempty fork_id && nonempty command
      then (do
        result ← forks.exec_on_branch fork_id (line command)
        pure (show_output result ++ exit_code_report result.returncode))
          s
      else pure (say ("Usage: fexec <fork_id> <command>" ∷ [])) s

  unfoldable pub destroy_command : String → ForkApi S → Exec S (List Printed)
  destroy_command fork_id forks s =
      if nonempty fork_id
      then (do
        gone ← forks.discard_branch fork_id
        pure (
            say (
              (if gone
                then "Fork " <> fork_id <> " destroyed."
                else "Failed to destroy fork " <> fork_id <> ".")
              ∷ [])))
          s
      else pure (say ("Usage: destroy <fork_id>" ∷ [])) s
