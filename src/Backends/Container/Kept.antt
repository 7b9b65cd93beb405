-- ===== src/Backends/Container/Kept.antt =====
-- What the hooks of the container backend leave of a snapshot.
use state_fork.Manager.Snapshot.{physical_node, virtual_node}
use state_fork.Prelude.{◌<>◌}
use state_fork.Exec.{modify}
use state_fork.Exec.Keeps.{Keeps-if, Keeps-modify}
use state_fork.Manager.Branches.{register_snapshot_resource}
use state_fork.Manager.Snapshot.{ask}
use state_fork.Manager.Stable.{HooksKeep}
use state_fork.Backends.Host.{copy_not_implemented}
use state_fork.Backends.Container.{commit, exec_in}
use state_fork.Prelude.{
  List, Option, String, arith, eq_iff, false, inl, inr, none, pos, refl, some, subst, sym, true,
  zero, ℕ, ℤ, ◌-◌, ◌∙◌, ◌≡◌, ◌≢◌,
}
use state_fork.Exec.{Result, ◌>>=◌}
use state_fork.Exec.Keeps.{Keeps, Keeps-bind, Keeps-pure, Keeps-then, keeps_rules}
use state_fork.Dict.Laws.{get-put}
use state_fork.Manager.State.{Command}
use text.Mathlib.TextLemmas.{append_cancel_left}
use state_fork.Backends.Platform.{Platform, Completed}
use state_fork.Backends.Host.{
  HostOp, reach, read, on_world, config, call, check_call, check_returncode,
}
use state_fork.Backends.Container.{
  Container, image_name, commit_args, remove_args, run_args, core_snapshot, core_restore, relaunch,
  restore_image, core_exec, container,
}
use state_fork.Backends.Container.Engine.{Engine, Kept, IsEngine}
use state_fork.Backends.Container.Stored.{Stored, Fit, Stored-world}

module _ {W S : Type 0} (g : Engine W S) (p : Platform W) (c : Container) (l : IsEngine g p c)
    (id : String) (kept : Option S) where
  Keeps-reach :
      {A : Type 0} (f : W → Result A × W)
      → ((w : W) → Kept g w (f w).1)
      → Keeps (Stored g c id kept) (reach f)
  unfolding reach
  Keeps-reach f k = record { at = λ m s. Stored-world g c id kept m _ (k m.extra.world) s }

  Keeps-read :
      {A : Type 0} (f : W → A × W)
      → ((w : W) → Kept g w (f w).1)
      → Keeps (Stored g c id kept) (read f)
  unfolding read
  Keeps-read f k = record { at = λ m s. Stored-world g c id kept m _ (k m.extra.world) s }

  -- The fields of the backend are those that the manager started with.
  Keeps-config :
      {A : Type 0} (next : Container → HostOp Container W A)
      → Keeps (Stored g c id kept) (next c)
      → Keeps (Stored g c id kept) (config >>= next)
  Keeps-config next k = record {
    at = λ m s. subst (λ d. Stored g c id kept (next d m).1) (sym s.config) (k.at m s);
  }

  Keeps-check_returncode :
      (words : List String) (done : Completed) (code : ℤ)
      → Keeps (Stored g c id kept) (check_returncode p words done code)
  unfolding check_returncode
  Keeps-check_returncode words done (pos zero) = search keeps_rules
  Keeps-check_returncode words done _ = search keeps_rules

  Keeps-check_call :
      (words : List String)
      → Keeps (Stored g c id kept) (call p words)
      → Keeps (Stored g c id kept) (check_call p words)
  unfolding check_call
  Keeps-check_call words k = Keeps-bind _ _ k λ done. Keeps-check_returncode words done _

  Keeps-call :
      (words : List String)
      → ((w : W) → Kept g w (p.subprocess_run words none w).1)
      → Keeps (Stored g c id kept) (call p words)
  unfolding call
  Keeps-call words k = Keeps-reach (p.subprocess_run words none) k

  relaunch-Keeps : (image : String) → Keeps (Stored g c id kept) (relaunch p image c)
  unfolding relaunch
  relaunch-Keeps image = Keeps-then _ _ (Keeps-call (remove_args c) l.remove_keeps) (
      Keeps-bind _ _ (Keeps-read p.time l.time_keeps) λ start.
        Keeps-then _ _
          (Keeps-check_call (run_args c image) (Keeps-call (run_args c image) (l.run_keeps image)))
          (Keeps-bind _ _ (Keeps-read p.time l.time_keeps) λ stop. Keeps-pure (true, stop - start)))

  restore_image-Keeps : (image : Option String) → Keeps (Stored g c id kept) (restore_image p image)
  unfolding restore_image
  restore_image-Keeps none = search keeps_rules
  restore_image-Keeps (some image) =
      Keeps-if _ _ _ (λ e. Keeps-config (relaunch p image) (relaunch-Keeps image))
        (λ e. Keeps-pure (false, 0))

  core_restore-Keeps :
      (sid branch : String) → Keeps (Stored g c id kept) (core_restore p sid branch)
  unfolding core_restore
  core_restore-Keeps sid branch = search (keeps_rules, restore_image-Keeps)

  exec_in-Keeps :
      (command : Command) (timeout : Option ℕ)
      → Keeps (Stored g c id kept) (exec_in p command timeout c)
  unfolding exec_in
  exec_in-Keeps command timeout =
      Keeps-bind _ _ (Keeps-reach _ (l.exec_keeps command timeout)) λ done. Keeps-pure _

  core_exec-Keeps :
      (command : Command) (timeout : Option ℕ) (branch : String)
      → Keeps (Stored g c id kept) (core_exec p command timeout branch)
  unfolding core_exec
  core_exec-Keeps command timeout branch =
      Keeps-config (exec_in p command timeout) (exec_in-Keeps command timeout)

  image_name-inj : (a b : String) → image_name c a ≡ image_name c b → a ≡ b
  unfolding image_name
  image_name-inj a b e = append_cancel_left ":" a b (append_cancel_left c.image_prefix _ _ e)

  -- A new id is not the one of the snapshot.
  Keeps-uuid8 :
      {A : Type 0} (next : String → HostOp Container W A)
      → ((sid : String) → id ≢ sid → Keeps (Stored g c id kept) (next sid))
      → Keeps (Stored g c id kept) (read p.uuid8 >>= next)
  unfolding read
  Keeps-uuid8 next k = record {
    at = λ m s.
        (k (p.uuid8 m.extra.world).0
            (λ e. ground (arith, l.uuid8_new m.extra.world, s.issued, e))).at
          _ (Stored-world g c id kept m _ (l.uuid8_keeps m.extra.world) s);
  }

  commit_call-Keeps :
      (sid : String)
      → id ≢ sid
      → Keeps (Stored g c id kept) (call p (commit_args c (image_name c sid)))
  unfolding call reach
  commit_call-Keeps sid other = record {
    at = λ m s. record {
      config = s.config;
      registered = s.registered;
      recorded = s.recorded;
      held =
          l.commit_others (image_name c sid) (image_name c id) m.extra.world
            (λ e. other (image_name-inj id sid e))
          ∙ s.held;
      issued = l.commit_issued (image_name c sid) id m.extra.world s.issued;
    };
  }

  register-Keeps :
      (sid image : String)
      → id ≢ sid
      → Keeps (Stored g c id kept) (modify (register_snapshot_resource sid image))
  unfolding register_snapshot_resource
  register-Keeps sid image other = Keeps-modify _ λ m s. record {
    config = s.config;
    registered = ground (
      arith,
      get-put m.snapshots sid id image,
      eq_iff sid id,
      s.registered,
      λ (e : id ≡ sid). other e,
    );
    recorded = s.recorded;
    held = s.held;
    issued = s.issued;
  }

  commit-Keeps : Keeps (Stored g c id kept) (commit p c)
  unfolding commit
  commit-Keeps = Keeps-uuid8 _ λ sid other. Keeps-bind _ _ (Keeps-read p.time l.time_keeps) λ start.
      Keeps-then _ _ (Keeps-check_call _ (commit_call-Keeps sid other)) (
        Keeps-bind _ _ (Keeps-read p.time l.time_keeps) λ stop.
          Keeps-then _ _ (register-Keeps sid (image_name c sid) other)
            (Keeps-pure (some sid, stop - start)))

  core_snapshot-Keeps : (branch : String) → Keeps (Stored g c id kept) (core_snapshot p branch)
  unfolding core_snapshot
  core_snapshot-Keeps branch = Keeps-config (commit p) commit-Keeps

  Keeps-ask :
      {A : Type 0} (f : W → A × W)
      → ((w : W) → Kept g w (f w).1)
      → Keeps (Stored g c id kept) (ask (on_world f))
  unfolding ask on_world
  Keeps-ask f k = record { at = λ m s. Stored-world g c id kept m _ (k m.extra.world) s }

  -- Every hook but the cleanup leaves the snapshot as it is.
  pub container-HooksKeep :
      ((w : W) → "v" <> (p.uuid_hex w).0 ≢ id)
      → HooksKeep (Stored g c id kept) (Fit id) (container p)
  unfolding container copy_not_implemented on_world physical_node virtual_node
  container-HooksKeep hex = record {
    core_snapshot = core_snapshot-Keeps;
    core_restore = core_restore-Keeps;
    core_exec = core_exec-Keeps;
    core_copy = λ branch host env into. Keeps-pure (false, "Not implemented.");
    after_snapshot = λ branch sid m s. s;
    coin = Keeps-ask p.coin l.coin_keeps;
    uuid_hex = Keeps-ask p.uuid_hex l.uuid_hex_keeps;
    time = Keeps-ask p.time l.time_keeps;
    fit_captured = λ branch m s sid elapsed e parent. inl refl;
    fit_drawn = λ m s parent commands. inr (hex m.extra.world);
  }
