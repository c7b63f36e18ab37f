-- ===== src/Binding/Resolver/Costs.antt =====
-- How many calls the resolver makes (src/workspace-binding.ts).
use dsh_podman.Prelude.{
  ℕ, ◌+◌, ◌*◌, ◌≤◌, refl, Bool, true, false, [], Option, none, some, if◌then◌else◌, arith, Outcome,
  ok, throw,
}
use dsh_podman.Text.{Text, text, ◌===◌, is_empty}
use dsh_podman.Binding.{
  Failure, no_working_directory, no_owner, Refresh, of_container, of_workspace, WorkspaceBinding,
  ContainerEntry, RegisteredWorkspace, BindingConfig,
}
use dsh_podman.Binding.Paths.{workspace_slug, project_name_for_path}
use dsh_podman.Binding.Cache.{cached, container_key, ptc_container, ptc_binding_key}
use dsh_podman.Binding.Task.{Request, Plane, Session, ◌>>=◌, ◌>>◌, return, fail_with, change}
use dsh_podman.Binding.Resolver
use dsh_podman.Binding.Resolver.{
  call, wait_for_ready, ping_agent, control, invalidate, request, missing, is_not_found,
  is_unauthenticated, ensure_container, build_container_binding, or_make, kept_promise,
  keep_container, keep_binding, drop_container, drop_binding, resolve_container_binding, create,
  resolve_binding, refresh, ensure_agent_ready, recover_container, ready_entry, ready_container,
  ptc_binding, ready, workspace_for_cwd, owner_of, with_cwd, exposed, resolve, container_binding,
}
use dsh_podman.Binding.Resolver.Weights.{
  Weights, weight, weigh, Spends, Spends-bind, Spends-catching, weaken, return-Spends,
  fail_with-Spends, settle-Spends, change-Spends, or_make-Spends, call-Spends,
  wait_for_ready-Spends, ping_agent-Spends, control-Spends,
}

module _ {W : Type 0} (w : Weights) (plane : Plane W) (config : BindingConfig) where
  ensure_container-Spends :
      (slug container : Text) → Spends w w.ensure (ensure_container plane config slug container)
  unfolding ensure_container weight ◌===◌ text
  ensure_container-Spends slug container =
      weaken w.ensure
        (Spends-catching (control-Spends w plane (text "ensureContainer") _)
          (λ e. fail_with-Spends (missing slug container e)))
        (omega arith)

  build_container_binding-Spends :
      (slug container key : Text)
      → Spends w w.ensure (build_container_binding plane config slug container key)
  unfolding build_container_binding
  build_container_binding-Spends slug container key =
      weaken w.ensure
        (Spends-bind (ensure_container-Spends slug container) (λ row. return-Spends _))
        (omega arith)

  resolve_container_binding-Spends :
      (slug container key : Text)
      → Spends w w.ensure (resolve_container_binding plane config slug container key)
  unfolding resolve_container_binding
  resolve_container_binding-Spends slug container key = record {
    spent = λ s. (or_make-Spends (cached key s.container_bindings) built).spent s;
  }
    where
      built : Spends w w.ensure (
          build_container_binding plane config slug container key >>= λ entry.
          change (keep_container key entry) >> return entry)
      built =
          weaken w.ensure
            (Spends-bind (build_container_binding-Spends slug container key) (λ entry.
              Spends-bind (change-Spends (keep_container key entry) (λ s. refl))
                (λ u. return-Spends entry)))
            (omega arith)

  create-Spends :
      (slug project_name : Text)
      → Spends w (w.describe + w.create + w.ensure) (Resolver.create plane config slug project_name)
  unfolding create weight ◌===◌ text
  create-Spends slug project_name =
      weaken (w.describe + w.create + w.ensure)
        (Spends-bind
          (Spends-catching (call-Spends w plane (text "describeWorkspace") _)
            (λ e. described (is_not_found e) e _))
          (λ row.
            Spends-bind (ensure_container-Spends slug (text "default")) (λ row. return-Spends _)))
        (omega arith)
    where
      described :
          (b : Bool) (e : Failure) (given : Request)
          → Spends w w.create (if b then call plane (text "createWorkspace") given else fail_with e)
      described true e given =
          weaken w.create (call-Spends w plane (text "createWorkspace") given)
            (unfold weight text ◌===◌ in omega arith)
      described false e given = weaken w.create (fail_with-Spends e) (omega arith)

  resolve_binding-Spends :
      (key project_name : Text)
      → Spends w (w.describe + w.create + w.ensure) (resolve_binding plane config key project_name)
  unfolding resolve_binding
  resolve_binding-Spends key project_name = record {
    spent = λ s. (or_make-Spends (cached key s.bindings) created).spent s;
  }
    where
      created : Spends w (w.describe + w.create + w.ensure) (
          Resolver.create plane config key project_name >>= λ b.
          change (keep_binding key b) >> return b)
      created =
          weaken (w.describe + w.create + w.ensure)
            (Spends-bind (create-Spends key project_name) (λ b.
              Spends-bind (change-Spends (keep_binding key b) (λ s. refl)) (λ u. return-Spends b)))
            (omega arith)

  recover_container-Spends :
      (slug container : Text) → Spends w w.recreate (recover_container plane config slug container)
  unfolding recover_container weight ◌===◌ text
  recover_container-Spends slug container =
      weaken w.recreate
        (Spends-catching
          (Spends-bind (control-Spends w plane (text "recreateContainer") _)
            (λ row. return-Spends tt))
          (λ e. return-Spends tt))
        (omega arith)

  refresh-Spends :
      (r : Refresh) → Spends w (w.describe + w.create + w.ensure) (refresh plane config r)
  unfolding refresh
  refresh-Spends (of_container slug container key) = record {
    spent = λ s.
        by_answer s (build_container_binding plane config slug container key s)
          ((build_container_binding-Spends slug container key).spent s);
  }
    where
      by_answer :
          (s : Session W) (r : Outcome Failure ContainerEntry × Session W)
          → weigh w r.1.calls ≤ weigh w s.calls + w.ensure
          → weigh w (kept_promise plane config key r).1.calls
            ≤ weigh w s.calls + (w.describe + w.create + w.ensure)
      by_answer s (ok entry, t) le = omega (arith, le)
      by_answer s (throw e, t) le = omega (arith, le)
  refresh-Spends (of_workspace slug project_name) = record {
    spent = λ s. (resolve_binding-Spends slug project_name).spent (drop_binding slug s);
  }

  -- Readiness takes two waits, two pings and one refresh at most.
  abbrev readiness : ℕ
  readiness = w.describe + w.create + w.ensure + 2 * w.wait + 2 * w.ping

  ensure_agent_ready-Spends :
      (b : WorkspaceBinding) → Spends w readiness (ensure_agent_ready plane config b)
  unfolding ensure_agent_ready
  ensure_agent_ready-Spends b =
      weaken readiness
        (Spends-bind (wait_for_ready-Spends w plane b) (λ u.
          Spends-catching (Spends-bind (ping_agent-Spends w plane b) (λ u. return-Spends b))
            (λ e. refreshed (is_unauthenticated e) e)))
        (omega arith)
    where
      again : Spends w (w.describe + w.create + w.ensure + w.wait + w.ping) (
          refresh plane config b.refresh >>= λ fresh.
          wait_for_ready plane fresh >> (ping_agent plane fresh >> return fresh))
      again =
          weaken (w.describe + w.create + w.ensure + w.wait + w.ping)
            (Spends-bind (refresh-Spends b.refresh) (λ fresh.
              Spends-bind (wait_for_ready-Spends w plane fresh)
                (λ u. Spends-bind (ping_agent-Spends w plane fresh) (λ u. return-Spends fresh))))
            (omega arith)

      refreshed :
          (unauthorised : Bool) (e : Failure)
          → Spends w (w.describe + w.create + w.ensure + w.wait + w.ping) (
              if unauthorised
              then (refresh plane config b.refresh >>= λ fresh.
                  wait_for_ready plane fresh >> (ping_agent plane fresh >> return fresh))
              else fail_with e)
      refreshed true e = again
      refreshed false e =
          weaken (w.describe + w.create + w.ensure + w.wait + w.ping) (fail_with-Spends e)
            (omega arith)

  ready_entry-Spends :
      (entry : ContainerEntry) → Spends w readiness (ready_entry plane config entry)
  ready_entry-Spends entry =
      weaken readiness
        (Spends-bind (ensure_agent_ready-Spends entry.binding) (λ b. return-Spends _)) (omega arith)

  ready_container-Spends :
      (slug container : Text)
      → Spends w
          (2 * w.ensure + w.recreate + 2 * readiness)
          (ready_container plane config slug container)
  unfolding ready_container
  ready_container-Spends slug container =
      let key = container_key slug container in
      weaken (2 * w.ensure + w.recreate + 2 * readiness)
        (Spends-bind (resolve_container_binding-Spends slug container key) (λ entry.
          Spends-catching (ready_entry-Spends entry) (λ e.
            Spends-bind (change-Spends (drop_container key) (λ s. refl)) (λ u.
              Spends-bind (recover_container-Spends slug container) (λ u.
                Spends-bind (resolve_container_binding-Spends slug container key)
                  ready_entry-Spends)))))
        (omega arith)

  -- Whatever the answers and the caches, one resolution of the shared PTC container asks for no
  -- recreation: it makes at most 4 ensureContainer calls, 4 waits, 4 pings, and 2 calls each of
  -- describeWorkspace and createWorkspace, and no other control call.
  pub ptc_binding-Spends : Spends w (2 * w.ensure + 2 * readiness) (ptc_binding plane config)
  unfolding ptc_binding
  ptc_binding-Spends =
      weaken (2 * w.ensure + 2 * readiness)
        (Spends-bind (resolve_container_binding-Spends [] ptc_container ptc_binding_key) (λ entry.
          Spends-catching (ensure_agent_ready-Spends entry.binding) (λ e.
            Spends-bind (change-Spends (drop_container ptc_binding_key) (λ s. refl)) (λ u.
              Spends-bind (resolve_container_binding-Spends [] ptc_container ptc_binding_key)
                (λ entry. ensure_agent_ready-Spends entry.binding)))))
        (omega arith)

  ready-Spends :
      (key project_name : Text)
      → Spends w
          (w.recreate + 3 * (w.describe + w.create + w.ensure) + 3 * readiness)
          (ready plane config key project_name)
  unfolding ready
  ready-Spends key project_name =
      weaken (w.recreate + 3 * (w.describe + w.create + w.ensure) + 3 * readiness)
        (Spends-bind (resolve_binding-Spends key project_name) (λ first.
          Spends-catching (ensure_agent_ready-Spends first) (λ e.
            Spends-bind (change-Spends (drop_binding key) (λ s. refl)) (λ u.
              Spends-bind (resolve_binding-Spends key project_name) (λ second.
                Spends-catching (ensure_agent_ready-Spends second) (λ f.
                  Spends-bind (recover_container-Spends key (text "default")) (λ u.
                    Spends-bind (change-Spends (drop_binding key) (λ s. refl)) (λ u.
                      Spends-bind (resolve_binding-Spends key project_name)
                        ensure_agent_ready-Spends))))))))
        (omega arith)

  module _ (resolve_by_path : Text → Option RegisteredWorkspace) where
    workspace_for_cwd-Spends :
        (cwd : Text) → Spends w 0 (workspace_for_cwd plane config resolve_by_path cwd)
    unfolding workspace_for_cwd
    workspace_for_cwd-Spends cwd = by_cwd (is_empty cwd) (resolve_by_path cwd)
      where
        by_cwd :
            (b : Bool) (o : Option RegisteredWorkspace)
            → Spends w 0 (if b then fail_with {W = W} no_working_directory else owner_of cwd o)
        by_cwd true o = fail_with-Spends no_working_directory
        by_cwd false none = fail_with-Spends (no_owner cwd)
        by_cwd false (some workspace) = return-Spends workspace

    -- Whatever the answers and the caches, one resolution of a named container makes at most one
    -- recreateContainer call, 4 of ensureContainer, 2 each of describeWorkspace and
    -- createWorkspace, 4 waits and 4 pings, and no other control call.
    pub container_binding-Spends :
        (cwd container : Text)
        → Spends w
            (w.recreate + 2 * w.ensure + 2 * readiness)
            (container_binding plane config resolve_by_path cwd container)
    unfolding container_binding
    container_binding-Spends cwd container =
        weaken (w.recreate + 2 * w.ensure + 2 * readiness)
          (Spends-bind (workspace_for_cwd-Spends cwd) (λ workspace.
            Spends-bind (settle-Spends (workspace_slug workspace.id)) (λ slug.
              Spends-bind (ready_container-Spends slug container) (λ entry. return-Spends _))))
          (omega arith)

    -- Whatever the answers and the caches, one resolution of a session's workspace makes at most
    -- one recreateContainer call, 6 each of describeWorkspace, createWorkspace and
    -- ensureContainer, 6 waits and 6 pings, and no other control call.
    pub resolve-Spends :
        (cwd : Text)
        → Spends w
            (w.recreate + 3 * (w.describe + w.create + w.ensure) + 3 * readiness)
            (resolve plane config resolve_by_path cwd)
    unfolding resolve
    resolve-Spends cwd =
        weaken (w.recreate + 3 * (w.describe + w.create + w.ensure) + 3 * readiness)
          (Spends-bind (workspace_for_cwd-Spends cwd) (λ workspace.
            Spends-bind (settle-Spends (workspace_slug workspace.id)) (λ slug.
              Spends-bind
                (settle-Spends (project_name_for_path config.projects_root workspace.path))
                (λ project_name.
                  Spends-bind (ready-Spends slug project_name) (λ b. return-Spends _)))))
          (omega arith)
