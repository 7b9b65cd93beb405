-- ===== src/Manager/Ancestry/Resolution.antt =====
-- An independent description of the walk's result: the nearest physical ancestor, and the commands
-- on the way down to the snapshot, in the order in which they were executed.
use state_fork.Prelude.{
  append-nil, ◌∙◌, sym, length, ◌↔◌, eq_iff, none, contains, ◌≤◌, Option-cases, ap, subst, ℕ, zero,
  suc, ◌<◌, ◌≡◌, ◌≢◌, refl, inl, inr, String, true, false, some, List, [], ◌∷◌, ◌++◌, arith,
  Bool-cases, append_assoc, All,
}
use state_fork.Dict.{Dict, get}
use state_fork.Manager.State.{SnapshotNode, Command}
use state_fork.Manager.Ancestry.Fuel.{resolve-ne-none}
use state_fork.Manager.Ancestry.{
  resolve, resolve, cycle, no_physical_ancestor, missing_parent, Walk, arrived, gave_up, walk,
}

-- `Resolves graph n node ancestor commands`: in `n` steps up from `node` stands the physical
-- `ancestor`, and `commands` lead from it to `node`.
pub data Resolves (graph : Dict SnapshotNode)
    : ℕ → SnapshotNode → SnapshotNode → List Command → Type 0 where
  physical : (node : SnapshotNode) → node.is_virtual ≡ false → Resolves graph zero node node []
  replayed :
      {n : ℕ} {parent ancestor : SnapshotNode} {commands : List Command} (node : SnapshotNode)
      (parent_id : String)
      → node.is_virtual ≡ true
      → node.parent_id ≡ some parent_id
      → get graph parent_id ≡ some parent
      → Resolves graph n parent ancestor commands
      → Resolves graph (suc n) node ancestor (commands ++ node.replay_commands)

-- The graph files each node under its own id.
abbrev pub KeysMatch : Dict SnapshotNode → Type 0
KeysMatch graph =
    (key : String) (node : SnapshotNode) → get graph key ≡ some node → node.snapshot_id ≡ key

module _ (graph : Dict SnapshotNode) where
  -- A round of the walk that goes on.
  pub walk_climbs :
      (fuel : ℕ) (node : SnapshotNode) (commands : List Command) (visited : List String) {w : Walk}
      → node.is_virtual ≡ true
      → walk (suc fuel) graph node commands visited ≡ some w
      → w ≢ gave_up cycle
      → w ≢ gave_up no_physical_ancestor
      → w ≢ gave_up missing_parent
      → (p : String) × (parent : SnapshotNode) × (node.parent_id ≡ some p)
        × (get graph p ≡ some parent)
        × (walk fuel graph parent (node.replay_commands ++ commands) (node.snapshot_id ∷ visited)
            ≡ some w)
  unfolding walk
  walk_climbs fuel node commands visited v h n1 n2 n3 = elim (Option-cases node.parent_id) [
    | inl e ↦ absurd (ground arith)
    | inr (p, e) ↦ elim (Option-cases (get graph p)) [
      | inl e' ↦ absurd (ground arith)
      | inr (parent, e') ↦ (p, parent, e, e', ground arith)
    ]
  ]

  walk_sound :
      (fuel : ℕ) (node : SnapshotNode) (commands : List Command) (visited : List String)
      {ancestor : SnapshotNode} {found : List Command}
      → walk fuel graph node commands visited ≡ some (arrived ancestor found)
      → (n : ℕ) × (path : List Command) × Resolves graph n node ancestor path
        × (found ≡ path ++ commands)
  unfolding walk
  walk_sound zero node commands visited h = absurd (ground arith)
  walk_sound (suc fuel) node commands visited {ancestor} {found} h =
      elim (Bool-cases node.is_virtual) [
        | inr e ↦ (
          0,
          [],
          subst (λ a. Resolves graph 0 node a []) (ground arith) (physical node e),
          ground arith,
        )
        | inl e ↦
            let (p, parent, hp, hg, hw) =
              walk_climbs fuel node commands visited e h (cc) (cc) (cc) in
            let (n, path, r, eq) = walk_sound fuel parent _ _ hw in
            (suc n, path ++ node.replay_commands, replayed node p e hp hg r, rw append_assoc eq)
      ]

  -- The way up from a node is unique.
  Resolves-unique :
      {n k : ℕ} {node node' a b : SnapshotNode} {c d : List Command}
      → Resolves graph n node a c
      → Resolves graph k node' b d
      → node ≡ node'
      → n ≡ k
  Resolves-unique (physical node v) (physical node' v') q = refl
  Resolves-unique (physical node v) (replayed node' p v' e g r) q = absurd (ground arith)
  Resolves-unique (replayed node p v e g r) (physical node' v') q = absurd (ground arith)
  Resolves-unique (replayed node p v e g r) (replayed node' p' v' e' g' r') q =
      ap suc (Resolves-unique r r' (ground arith))

  -- The visited nodes lie further from the ancestor than `n`.
  abbrev Above : ℕ → List String → Type 0
  Above n = All (λ id.
      (k : ℕ) × (node a : SnapshotNode) × (c : List Command) × (get graph id ≡ some node)
      × Resolves graph k node a c
      × (n < k))

  Above-weaken : (n k : ℕ) (visited : List String) → n ≤ k → Above k visited → Above n visited
  Above-weaken n k [] h a = tt
  Above-weaken n k (id ∷ visited) h ((j, node, b, c, g, r, lt), a) =
      ((j, node, b, c, g, r, omega arith), Above-weaken n k visited h a)

  -- So the walk meets none of them again.
  Above-not-contains :
      (key : String) (node : SnapshotNode) {n : ℕ} {a : SnapshotNode} {c : List Command}
      (visited : List String)
      → get graph key ≡ some node
      → Resolves graph n node a c
      → Above n visited
      → contains key visited ≡ false
  unfolding contains
  Above-not-contains key node [] g r above = refl
  Above-not-contains key node (id ∷ visited) g r ((k, other, b, d, g', r', lt), above) =
      ground
        (arith, eq_iff key id, Resolves-unique r r', Above-not-contains key node visited g r above)

  walk_complete :
      (fuel : ℕ) (key : String) {node ancestor : SnapshotNode} {n : ℕ} {path : List Command}
      (commands : List Command) (visited : List String)
      → KeysMatch graph
      → get graph key ≡ some node
      → Above n visited
      → Resolves graph n node ancestor path
      → walk fuel graph node commands visited ≢ none
      → walk fuel graph node commands visited ≡ some (arrived ancestor (path ++ commands))
  unfolding walk
  walk_complete zero key commands visited km g above r ends = absurd (ends refl)
  walk_complete (suc fuel) key commands visited km g above (physical node v) ends = ground arith
  walk_complete (suc fuel) key {ancestor = ancestor} commands visited km g above
        (replayed {n = k} {parent = parent} {commands = path} node p v e g' r) ends =
      let here : Resolves graph (suc k) node ancestor (path ++ node.replay_commands) =
        replayed node p v e g' r in
      let own : get graph node.snapshot_id ≡ some node = simp (km key node g) g in
      let new : contains node.snapshot_id visited ≡ false =
        Above-not-contains node.snapshot_id node visited own here above in
      let above' : Above k (node.snapshot_id ∷ visited) = (
        (suc k, node, ancestor, _, own, here, omega arith),
        Above-weaken k (suc k) visited (omega arith) above,
      ) in
      let rest =
        walk_complete fuel p (node.replay_commands ++ commands) (node.snapshot_id ∷ visited) km g'
          above' r in
      ground (
        arith,
        new,
        rest (λ q. ends (ground arith)),
        append_assoc path node.replay_commands commands,
      )

-- In a graph that files its nodes under their ids, `resolve` finds the physical ancestor and the
-- commands exactly when the graph has such a way up.
pub resolve-iff-Resolves :
    (graph : Dict SnapshotNode) (key : String) (node ancestor : SnapshotNode) (path : List Command)
    → KeysMatch graph
    → get graph key ≡ some node
    → (resolve graph node ≡ some (arrived ancestor path))
      ↔ ((n : ℕ) × Resolves graph n node ancestor path)
unfolding resolve
resolve-iff-Resolves graph key node ancestor path km g = (
  λ h.
      let (n, found, r, e) = walk_sound graph (suc (length graph)) node [] [] h in
      (n, subst (λ c. Resolves graph n node ancestor c) (sym (e ∙ append-nil found)) r),
  λ (n, r).
      walk_complete graph (suc (length graph)) key [] [] km g tt r
        (resolve-ne-none graph key node g)
      ∙ ap (λ c. some (arrived ancestor c)) (append-nil path),
)
