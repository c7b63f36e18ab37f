-- ===== src/Tests/Bindings.antt =====
-- Bindings of containers to their agents.
use dsh_podman.Prelude.{
  ℕ, ◌+◌, ◌*◌, ◌≡◌, refl, List, [], ◌∷◌, Option, none, some, if◌then◌else◌, ok, throw,
}
use dsh_podman.Text.{Text, text, ◌===◌, split, starts_with, to_lower_case}
use dsh_podman.Text.Laws.{Without}
use dsh_podman.Binding.{failed, of_container, RegisteredWorkspace, BindingConfig}
use dsh_podman.Binding.Paths.{workspace_slug, matches_uuid, containing_workspace, containing_from}
use dsh_podman.Binding.Paths.Slugs.{workspace_slug-Without}
use dsh_podman.Binding.Cache.{Cache, cached, container_key, container_mutation, invalidate_after}
use dsh_podman.Binding.Cache.Laws.{drops, invalidate_after-cached}
use dsh_podman.Binding.Task.{Plane, Session}
use dsh_podman.Binding.Resolver.{
  call, control, ensure_container, build_container_binding, refresh, container_binding, resolve,
  ptc_binding,
}
use dsh_podman.Binding.Resolver.Weights.{Weights, Spends}
use dsh_podman.Binding.Resolver.Costs.{container_binding-Spends}
use dsh_podman.Binding.Resolver.Answered.{BindingsPing, binding-LastPing}
use dsh_podman.Binding.Resolver.Rejected.{Fails, resolutions, container_binding-refresh}

abbrev slug : Text
slug = text "0123abcd-0123-0123-0123-0123456789ab"

abbrev dev : Text
dev = text "dev"

abbrev workspace : RegisteredWorkspace
workspace = record { id = slug; path = text "/srv/app" }

abbrev config : BindingConfig
config = record {
  projects_root = text "/srv";
  default_image = text "ubuntu";
  container_env = none;
  dsh_version = text "1";
}

abbrev registry : Text → Option RegisteredWorkspace
registry cwd = some workspace

-- An orchestrator and agents that answer, and ones that do not; the world counts the calls.
abbrev up : Plane ℕ
up = record {
  unary = λ method given w.
      (ok (record { agent_socket_path = dev; agent_token = dev; mounts = [] }), w + 1);
  wait_for_ready = λ socket w. (ok tt, w + 1);
  ping = λ socket token w. (ok tt, w + 1);
}

abbrev down : Plane ℕ
down = record {
  unary = λ method given w. (throw (failed (text "unavailable")), w + 1);
  wait_for_ready = λ socket w. (throw (failed (text "unavailable")), w + 1);
  ping = λ socket token w. (throw (failed (text "unavailable")), w + 1);
}

abbrev fresh : Session ℕ
fresh = record { world = 0; bindings = []; container_bindings = []; calls = [] }

abbrev ones : Weights
ones = record { ensure = 1; recreate = 1; describe = 1; create = 1; other = 1; wait = 1; ping = 1 }

container_binding-Spends_example :
    Spends ones (1 + 2 * 1 + 2 * 7) (container_binding down config registry (text "/srv/app") dev)
container_binding-Spends_example =
    container_binding-Spends ones down config registry (text "/srv/app") dev

binding-LastPing_example :
    BindingsPing (container_binding up config registry (text "/srv/app") dev) fresh
    × BindingsPing (resolve up config registry (text "/srv/app")) fresh
    × BindingsPing (ptc_binding up config) fresh
binding-LastPing_example = binding-LastPing up config registry (text "/srv/app") dev fresh

slug_accepted : workspace_slug slug ≡ ok slug
unfolding workspace_slug matches_uuid split to_lower_case text
slug_accepted = refl

refresh_fails :
    (refresh down config (of_container slug dev (container_key slug dev)) fresh).0
    ≡ throw (failed (text "unavailable"))
unfolding refresh build_container_binding ensure_container control call
refresh_fails = refl

container_binding-refresh_example :
    let t = (refresh down config (of_container slug dev (container_key slug dev)) fresh).1 in
    Fails config registry
      (text "/srv/app")
      dev
      (failed (text "unavailable"))
      t
      (resolutions config registry (text "/srv/app") dev ((up, 9) ∷ (up, 10) ∷ []) t)
container_binding-refresh_example =
    container_binding-refresh config registry (text "/srv/app") dev slug workspace
      (failed (text "unavailable")) (unfold text in refl) refl slug_accepted down fresh
      ((up, 9) ∷ (up, 10) ∷ []) refresh_fails

no_colon : Without 58 slug
no_colon = (workspace_slug-Without slug slug slug_accepted).0

abbrev entries : Cache ℕ
entries = (container_key slug dev, 1) ∷ (container_key slug (text "web"), 2) ∷ []

invalidate_after-cached_example :
    cached (container_key slug dev) (invalidate_after (text "removeWorkspace") slug [] entries) ≡ (
      if drops (container_mutation (text "removeWorkspace")) slug [] slug dev
      then none
      else cached (container_key slug dev) entries)
invalidate_after-cached_example =
    invalidate_after-cached entries (text "removeWorkspace") slug [] slug dev no_colon no_colon
      (unfold text in refl)

abbrev nested : List RegisteredWorkspace
nested = workspace ∷ record { id = slug; path = text "/srv/app/web" } ∷ []

innermost :
    containing_workspace (text "/srv/app/web/a") nested
    ≡ some (record { id = slug; path = text "/srv/app/web" })
unfolding containing_workspace containing_from text starts_with ◌===◌
innermost = refl
