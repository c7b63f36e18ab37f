-- ===== src/Binding/Resolver.antt =====
-- src/workspace-binding.ts: the operations of WorkspaceResolver, run one after another.
pub mod Weights
pub mod Costs
pub mod Answered
pub mod Rejected
use dsh_podman.Prelude.{
  ℕ, Bool, true, false, List, [], ◌∷◌, Option, none, some, if◌then◌else◌, not, Outcome, ok, throw,
}
use dsh_podman.Text.{Text, text, ◌===◌, is_empty, starts_with}
use dsh_podman.Dict.{Dict, Entries}
use dsh_podman.Env.Defaults.{merge_default_env}
use dsh_podman.Binding.{
  Failure, not_found, unauthenticated, failed, container_not_found, no_working_directory, no_owner,
  no_workspace_contains, unresolved_path, BoundMount, Row, Refresh, of_container, of_workspace,
  WorkspaceBinding, ContainerEntry, RegisteredWorkspace, BindingConfig,
}
use dsh_podman.Binding.Paths.{
  workspace_slug, project_name_for_path, containing_workspace, project_mount_covers, default_cwd_of,
}
use dsh_podman.Binding.Cache.{
  Cache, cached, drop_key, set_key, container_key, invalidate_after, ptc_container, ptc_binding_key,
}
use dsh_podman.Binding.Task.{
  Request, Call, controlled, waited, pinged, Plane, Session, Task, ◌>>=◌, ◌>>◌, return, fail_with,
  settle, catching, change,
}

abbrev pub is_ok : {A : Type 0} → Outcome Failure A → Bool
is_ok (ok a) = true
is_ok (throw e) = false

abbrev pub request : Text → Text → Request
request slug container = record {
  workspace_slug = slug;
  container = container;
  creation = none;
  dsh_version = none;
}

module _ {W : Type 0} (plane : Plane W) where
  unfoldable pub call : Text → Request → Task W Row
  call method given s =
      let (answer, world) = plane.unary method given s.world in
      (answer, record s { world = world; calls = controlled method given ∷ s.calls })

  unfoldable pub wait_for_ready : WorkspaceBinding → Task W (Unit {0})
  wait_for_ready b s =
      let (answer, world) = plane.wait_for_ready b.socket s.world in
      (answer, record s { world = world; calls = waited b.socket ∷ s.calls })

  unfoldable pub ping_agent : WorkspaceBinding → Task W (Unit {0})
  ping_agent b s =
      let (answer, world) = plane.ping b.socket b.token s.world in
      (answer, record s { world = world; calls = pinged b.socket b.token (is_ok answer) ∷ s.calls })

abbrev pub invalidate : {W : Type 0} → Text → Request → Session W → Session W
invalidate method given s = record s {
  container_bindings =
      invalidate_after method given.workspace_slug given.container s.container_bindings;
}

unfoldable pub control : {W : Type 0} → Plane W → Text → Request → Task W Row
control plane method given =
    call plane method given >>= λ row. change (invalidate method given) >> return row

abbrev pub missing : Text → Text → Failure → Failure
missing slug container not_found =
    container_not_found container (if is_empty slug then none else some slug)
missing slug container e = e

abbrev pub binding_for : Row → Refresh → WorkspaceBinding
binding_for row refresh = record {
  socket = row.agent_socket_path;
  token = row.agent_token;
  default_cwd = none;
  refresh = refresh;
}

abbrev pub is_not_found : Failure → Bool
is_not_found not_found = true
is_not_found e = false

abbrev pub is_unauthenticated : Failure → Bool
is_unauthenticated unauthenticated = true
is_unauthenticated e = false

abbrev pub owner_of : {W : Type 0} → Text → Option RegisteredWorkspace → Task W RegisteredWorkspace
owner_of cwd none = fail_with (no_owner cwd)
owner_of cwd (some workspace) = return workspace

abbrev pub with_cwd : Option Text → WorkspaceBinding → WorkspaceBinding
with_cwd none b = b
with_cwd (some cwd) b = record b { default_cwd = some cwd }

-- The session's directory, where a project mount makes it reachable.
abbrev pub exposed : BindingConfig → List BoundMount → Text → Option Text
exposed config mounts cwd =
    if project_mount_covers config.projects_root mounts cwd then default_cwd_of cwd else none

-- A cached promise, or the task that makes it.
abbrev pub or_make : {W A : Type 0} → Option (Outcome Failure A) → Task W A → Task W A
or_make (some promise) task = settle promise
or_make none task = task

module _ {W : Type 0} where
  abbrev pub keep_container : Text → ContainerEntry → Session W → Session W
  keep_container key entry s = record s {
    container_bindings = set_key key (ok entry) s.container_bindings;
  }

  abbrev pub keep_binding : Text → WorkspaceBinding → Session W → Session W
  keep_binding key binding s = record s { bindings = set_key key (ok binding) s.bindings }

  abbrev pub drop_container : Text → Session W → Session W
  drop_container key s = record s { container_bindings = drop_key key s.container_bindings }

  abbrev pub drop_binding : Text → Session W → Session W
  drop_binding key s = record s { bindings = drop_key key s.bindings }

  -- `dispose`: the channels that it closes are not modelled.
  unfoldable pub dispose : Session W → Session W
  dispose s = record s { bindings = []; container_bindings = [] }

module _ {W : Type 0} (plane : Plane W) (config : BindingConfig) where
  unfoldable pub ensure_container : Text → Text → Task W Row
  ensure_container slug container =
      catching
        (control plane (text "ensureContainer") (record (request slug container) {
          dsh_version = if container === ptc_container then some config.dsh_version else none;
        }))
        (λ e. fail_with (missing slug container e))

  unfoldable pub build_container_binding : Text → Text → Text → Task W ContainerEntry
  build_container_binding slug container key = ensure_container slug container >>= λ row.
      return (record {
        binding = binding_for row (of_container slug container key);
        mounts = row.mounts;
      })

  -- A failed build is not kept.
  unfoldable pub resolve_container_binding : Text → Text → Text → Task W ContainerEntry
  resolve_container_binding slug container key s =
      or_make (cached key s.container_bindings)
        (build_container_binding slug container key >>= λ entry.
          change (keep_container key entry) >> return entry)
        s

  -- The environment of a new workspace's default container.
  creation : Text → Text × Text × Dict
  creation project_name =
      (project_name, config.default_image, merge_default_env config.container_env none)

  unfoldable pub create : Text → Text → Task W WorkspaceBinding
  unfolding creation
  create slug project_name =
      catching (call plane (text "describeWorkspace") (request slug [])) (λ e.
        if is_not_found e
        then call plane (text "createWorkspace")
            (record (request slug []) { creation = some (creation project_name) })
        else fail_with e)
      >> (ensure_container slug (text "default") >>= λ row.
          return (binding_for row (of_workspace slug project_name)))

  unfoldable pub resolve_binding : Text → Text → Task W WorkspaceBinding
  resolve_binding key project_name s =
      or_make (cached key s.bindings)
        (create key project_name >>= λ binding. change (keep_binding key binding) >> return binding)
        s

  abbrev pub kept_promise :
      Text
      → Outcome Failure ContainerEntry × Session W
      → Outcome Failure WorkspaceBinding × Session W
  kept_promise key (ok entry, s) = (
    ok entry.binding,
    record s { container_bindings = set_key key (ok entry) s.container_bindings },
  )
  kept_promise key (throw e, s) =
      (throw e, record s { container_bindings = set_key key (throw e) s.container_bindings })

  -- The closures `refresh`: that of a container keeps the promise, whatever becomes of it.
  unfoldable pub refresh : Refresh → Task W WorkspaceBinding
  refresh (of_container slug container key) s =
      kept_promise key (build_container_binding slug container key s)
  refresh (of_workspace slug project_name) s =
      resolve_binding slug project_name (record s { bindings = drop_key slug s.bindings })

  unfoldable pub ensure_agent_ready : WorkspaceBinding → Task W WorkspaceBinding
  ensure_agent_ready b =
      wait_for_ready plane b
      >> catching (ping_agent plane b >> return b) (λ e.
        if is_unauthenticated e
        then (refresh b.refresh >>= λ fresh.
            wait_for_ready plane fresh >> (ping_agent plane fresh >> return fresh))
        else fail_with e)

  -- A failure to recreate is not fatal.
  unfoldable pub recover_container : Text → Text → Task W (Unit {0})
  recover_container slug container =
      catching (control plane (text "recreateContainer") (request slug container) >> return tt)
        (λ e. return tt)

  abbrev pub ready_entry : ContainerEntry → Task W ContainerEntry
  ready_entry entry = ensure_agent_ready entry.binding >>= λ b.
      return (record { binding = b; mounts = entry.mounts })

  -- `containerBinding` once the workspace is known.
  unfoldable pub ready_container : Text → Text → Task W ContainerEntry
  ready_container slug container =
      resolve_container_binding slug container (container_key slug container) >>= λ entry.
      catching (ready_entry entry) (λ e.
        change (drop_container (container_key slug container))
        >> (recover_container slug container
            >> (resolve_container_binding slug container (container_key slug container)
                >>= ready_entry)))

  unfoldable pub ptc_binding : Task W WorkspaceBinding
  ptc_binding = resolve_container_binding [] ptc_container ptc_binding_key >>= λ entry.
      catching (ensure_agent_ready entry.binding) (λ e.
        change (drop_container ptc_binding_key)
        >> (resolve_container_binding [] ptc_container ptc_binding_key >>= λ again.
            ensure_agent_ready again.binding))

  -- The default container of a workspace.
  unfoldable pub ready : Text → Text → Task W WorkspaceBinding
  ready key project_name = resolve_binding key project_name >>= λ first.
      catching (ensure_agent_ready first) (λ e.
        change (drop_binding key)
        >> (resolve_binding key project_name >>= λ second.
            catching (ensure_agent_ready second) (λ f.
              recover_container key (text "default")
              >> (change (drop_binding key)
                  >> (resolve_binding key project_name >>= ensure_agent_ready)))))

  unfoldable pub resolve_slug : Text → Task W WorkspaceBinding
  resolve_slug key = ready key key

  module _ (resolve_by_path : Text → Option RegisteredWorkspace) where
    unfoldable pub workspace_for_cwd : Text → Task W RegisteredWorkspace
    workspace_for_cwd cwd =
        if is_empty cwd then fail_with no_working_directory else owner_of cwd (resolve_by_path cwd)

    unfoldable pub resolve : Text → Task W WorkspaceBinding
    resolve cwd = workspace_for_cwd cwd >>= λ workspace.
        (settle (workspace_slug workspace.id) >>= λ slug.
        (settle (project_name_for_path config.projects_root workspace.path) >>= λ project_name.
        (ready slug project_name >>= λ b. return (with_cwd (default_cwd_of cwd) b))))

    unfoldable pub resolve_for_path :
        List RegisteredWorkspace → Text → Text → Task W WorkspaceBinding
    resolve_for_path registered path cwd =
        if not (is_empty cwd)
        then resolve cwd
        else if starts_with path (text "/")
        then elim (containing_workspace path registered) [
          | none ↦ fail_with (no_workspace_contains path)
          | some workspace ↦ resolve workspace.path
        ]
        else fail_with (unresolved_path path)

    unfoldable pub container_binding : Text → Text → Task W WorkspaceBinding
    container_binding cwd container = workspace_for_cwd cwd >>= λ workspace.
        (settle (workspace_slug workspace.id) >>= λ slug.
        (ready_container slug container >>= λ entry.
        return (with_cwd (exposed config entry.mounts cwd) entry.binding)))
