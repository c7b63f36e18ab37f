-- ===== src/Binding/Task.antt =====
-- src/workspace-binding.ts: a call of the resolver, as a function of its caches and of the world.
use dsh_podman.Prelude.{Bool, List, Option, Outcome, ok, throw}
use dsh_podman.Text.{Text}
use dsh_podman.Dict.{Dict}
use dsh_podman.Binding.{Failure, WorkspaceBinding, ContainerEntry, Row}
use dsh_podman.Binding.Cache.{Cache}

-- The fields of a control request that the resolver sends.
pub record Request : Type 0 where
  pub workspace_slug : Text
  pub container : Text
  pub creation : Option (Text × Text × Dict)
  pub dsh_version : Option Text

-- A call that the resolver made, and of the pings whether they were answered.
pub data Call : Type 0 where
  controlled : Text → Request → Call
  waited : Text → Call
  pinged : Text → Text → Bool → Call

-- The orchestrator and the agents: the answer to each call, and the world that it leaves.
pub record Plane (W : Type 0) : Type 0 where
  pub unary : Text → Request → W → Outcome Failure Row × W
  pub wait_for_ready : Text → W → Outcome Failure (Unit {0}) × W
  pub ping : Text → Text → W → Outcome Failure (Unit {0}) × W

-- The caches hold settled promises; `calls` lists the calls, the newest first.
pub record Session (W : Type 0) : Type 0 where
  pub world : W
  pub bindings : Cache (Outcome Failure WorkspaceBinding)
  pub container_bindings : Cache (Outcome Failure ContainerEntry)
  pub calls : List Call

abbrev pub Task : Type 0 → Type 0 → Type 0
Task W A = Session W → Outcome Failure A × Session W

module _ {W A B : Type 0} where
  abbrev continue : (A → Task W B) → Outcome Failure A × Session W → Outcome Failure B × Session W
  continue next (ok a, s) = next a s
  continue next (throw e, s) = (throw e, s)

  infixl 5 ◌>>=◌
  abbrev pub ◌>>=◌ : Task W A → (A → Task W B) → Task W B
  (task >>= next) s = continue next (task s)

  infixl 5 ◌>>◌
  abbrev pub ◌>>◌ : Task W A → Task W B → Task W B
  task >> next = task >>= λ _. next

module _ {W A : Type 0} where
  abbrev pub return : A → Task W A
  return a s = (ok a, s)

  abbrev pub fail_with : Failure → Task W A
  fail_with e s = (throw e, s)

  abbrev pub settle : Outcome Failure A → Task W A
  settle o s = (o, s)

  abbrev handle :
      (Failure → Task W A) → Outcome Failure A × Session W → Outcome Failure A × Session W
  handle handler (ok a, s) = (ok a, s)
  handle handler (throw e, s) = handler e s

  -- `try { task } catch (e) { handler(e) }`
  abbrev pub catching : Task W A → (Failure → Task W A) → Task W A
  catching task handler s = handle handler (task s)

-- A change of the session.
abbrev pub change : {W : Type 0} → (Session W → Session W) → Task W (Unit {0})
change f s = (ok tt, f s)
