-- ===== src/Binding/Resolver/Rejected.antt =====
-- A promise that a refresh leaves in the cache (src/workspace-binding.ts).
use dsh_podman.Prelude.{◌≡◌, refl, ap, false, List, [], ◌∷◌, All, Option, some, Outcome, ok, throw}
use dsh_podman.Text.{Text, is_empty}
use dsh_podman.Text.Laws.{===_refl}
use dsh_podman.Binding.{
  Failure, of_container, ContainerEntry, RegisteredWorkspace, BindingConfig, WorkspaceBinding,
}
use dsh_podman.Binding.Paths.{workspace_slug}
use dsh_podman.Binding.Cache.{cached, container_key}
use dsh_podman.Binding.Task.{Plane, Session}
use dsh_podman.Binding.Resolver.{
  kept_promise, build_container_binding, resolve_container_binding, refresh, ready_container,
  container_binding, workspace_for_cwd,
}

module _ {W : Type 0} (plane : Plane W) (config : BindingConfig) where
  cached-refresh :
      (slug container key : Text) (s : Session W) (e : Failure)
      → (refresh plane config (of_container slug container key) s).0 ≡ throw e
      → cached key (refresh plane config (of_container slug container key) s).1.container_bindings
        ≡ some (throw e)
  unfolding refresh
  cached-refresh slug container key s e h =
      by_answer (build_container_binding plane config slug container key s) h
    where
      by_answer :
          (r : Outcome Failure ContainerEntry × Session W)
          → (kept_promise plane config key r).0 ≡ throw e
          → cached key (kept_promise plane config key r).1.container_bindings ≡ some (throw e)
      by_answer (ok entry, t) k = cc
      by_answer (throw f, t) k =
          let same : f ≡ e = cc in rw (===_refl key) (ap (λ x. some (throw x)) same)

  ready_container-cached :
      (slug container : Text) (s : Session W) (e : Failure)
      → cached (container_key slug container) s.container_bindings ≡ some (throw e)
      → ready_container plane config slug container s ≡ (throw e, s)
  unfolding ready_container resolve_container_binding
  ready_container-cached slug container s e h = rw h refl

module _ {W : Type 0} (config : BindingConfig) (resolve_by_path : Text → Option RegisteredWorkspace)
    (cwd container : Text) where
  -- Resolutions of one container, one after another, each under what the orchestrator and the agents
  -- answer by then, and in what world.
  unfoldable pub resolutions :
      List (Plane W × W) → Session W → List (Outcome Failure WorkspaceBinding) × Session W
  resolutions [] s = ([], s)
  resolutions ((plane, world) ∷ later) s =
      let (answer, t) =
        container_binding plane config resolve_by_path cwd container (record s { world = world }) in
      let (answers, u) = resolutions later t in (answer ∷ answers, u)

  -- The resolutions fail, and leave the caches and the list of calls as they are.
  pub record Fails (e : Failure) (s : Session W)
      (result : List (Outcome Failure WorkspaceBinding) × Session W) : Type 0 where
    pub answers : All (λ answer. answer ≡ throw e) result.0
    pub containers : result.1.container_bindings ≡ s.container_bindings
    pub workspaces : result.1.bindings ≡ s.bindings
    pub calls : result.1.calls ≡ s.calls

  module _ (slug : Text) (workspace : RegisteredWorkspace) (e : Failure)
      (some_cwd : is_empty cwd ≡ false) (owned : resolve_by_path cwd ≡ some workspace)
      (named : workspace_slug workspace.id ≡ ok slug) where
    container_binding-cached :
        (plane : Plane W) (s : Session W)
        → cached (container_key slug container) s.container_bindings ≡ some (throw e)
        → container_binding plane config resolve_by_path cwd container s ≡ (throw e, s)
    unfolding container_binding workspace_for_cwd
    container_binding-cached plane s h =
        rw (some_cwd, owned, named, ready_container-cached plane config slug container s e h) refl

    resolutions-Fails :
        (laters : List (Plane W × W)) (s : Session W)
        → cached (container_key slug container) s.container_bindings ≡ some (throw e)
        → Fails e s (resolutions laters s)
    unfolding resolutions
    resolutions-Fails [] s h = record {
      answers = tt;
      containers = refl;
      workspaces = refl;
      calls = refl;
    }
    resolutions-Fails ((plane, world) ∷ laters) s h =
        let again = container_binding-cached plane (record s { world = world }) h in
        let later = resolutions-Fails laters (record s { world = world }) h in
        rw again (record {
          answers = (refl, later.answers);
          containers = later.containers;
          workspaces = later.workspaces;
          calls = later.calls;
        })

    -- When the refresh of a named container's binding fails with an error, all resolutions of that
    -- container that follow one another after it, however many, fail with the same error, make no
    -- call and leave the caches as they are, whatever the orchestrator and the agents would answer by
    -- then. No other call of the resolver, such as a mutation, comes between them.
    pub container_binding-refresh :
        (plane : Plane W) (s : Session W) (laters : List (Plane W × W))
        → (refresh plane config (of_container slug container (container_key slug container)) s).0
          ≡ throw e
        → let t =
            (refresh plane config
              (of_container slug container (container_key slug container))
              s).1 in
          Fails e t (resolutions laters t)
    container_binding-refresh plane s laters h =
        resolutions-Fails laters _
          (cached-refresh plane config slug container (container_key slug container) s e h)
