-- ===== src/Binding/Resolver/Weights.antt =====
-- The weight of the calls that a task makes (src/workspace-binding.ts).
use dsh_podman.Prelude.{
  ℕ, ◌+◌, ◌≤◌, ◌≡◌, refl, ap, List, [], ◌∷◌, Option, none, some, if◌then◌else◌, arith, Outcome, ok,
  throw,
}
use dsh_podman.Text.{Text, text, ◌===◌}
use dsh_podman.Binding.{Failure, WorkspaceBinding}
use dsh_podman.Binding.Task.{
  Request, Call, controlled, waited, pinged, Plane, Session, Task, ◌>>=◌, return, fail_with, settle,
  catching, change,
}
use dsh_podman.Binding.Resolver.{call, wait_for_ready, ping_agent, control, invalidate, or_make}

-- What a call of each kind weighs; a control method that is not named here weighs `other`.
pub record Weights : Type 0 where
  pub ensure : ℕ
  pub recreate : ℕ
  pub describe : ℕ
  pub create : ℕ
  pub other : ℕ
  pub wait : ℕ
  pub ping : ℕ

unfoldable pub weight : Weights → Call → ℕ
weight w (controlled method given) =
    if method === text "ensureContainer"
    then w.ensure
    else if method === text "recreateContainer"
    then w.recreate
    else if method === text "describeWorkspace"
    then w.describe
    else if method === text "createWorkspace"
    then w.create
    else w.other
weight w (waited socket) = w.wait
weight w (pinged socket token answered) = w.ping

unfoldable pub weigh : Weights → List Call → ℕ
weigh w [] = 0
weigh w (c ∷ calls) = weight w c + weigh w calls

-- A task that adds calls of at most a given weight.
pub record Spends {W A : Type 0} (w : Weights) (n : ℕ) (task : Task W A) : Type 0 where
  pub spent : (s : Session W) → weigh w (task s).1.calls ≤ weigh w s.calls + n

module _ {W A B : Type 0} {w : Weights} {m n : ℕ} where
  pub Spends-bind :
      {task : Task W A} {next : A → Task W B}
      → Spends w m task
      → ((a : A) → Spends w n (next a))
      → Spends w (m + n) (task >>= next)
  Spends-bind {task} {next} h k = record { spent = λ s. by_answer s (task s) (h.spent s) }
    where
      by_answer :
          (s : Session W) (r : Outcome Failure A × Session W)
          → weigh w r.1.calls ≤ weigh w s.calls + m
          → weigh w (((λ t. r) >>= next) s).1.calls ≤ weigh w s.calls + (m + n)
      by_answer s (ok a, t) le = omega (arith, le, (k a).spent t)
      by_answer s (throw e, t) le = omega (arith, le)

module _ {W A : Type 0} {w : Weights} where
  pub Spends-catching :
      {m n : ℕ} {task : Task W A} {handler : Failure → Task W A}
      → Spends w m task
      → ((e : Failure) → Spends w n (handler e))
      → Spends w (m + n) (catching task handler)
  Spends-catching {m} {n} {task} {handler} h k = record {
    spent = λ s. by_answer s (task s) (h.spent s);
  }
    where
      by_answer :
          (s : Session W) (r : Outcome Failure A × Session W)
          → weigh w r.1.calls ≤ weigh w s.calls + m
          → weigh w (catching (λ t. r) handler s).1.calls ≤ weigh w s.calls + (m + n)
      by_answer s (ok a, t) le = omega (arith, le)
      by_answer s (throw e, t) le = omega (arith, le, (k e).spent t)

  pub weaken : {m : ℕ} (n : ℕ) {task : Task W A} → Spends w m task → m ≤ n → Spends w n task
  weaken n h le = record { spent = λ s. omega (arith, le, h.spent s) }

  pub return-Spends : (a : A) → Spends w 0 (return {W = W} a)
  return-Spends a = record { spent = λ s. omega arith }

  pub fail_with-Spends : (e : Failure) → Spends w 0 (fail_with {W = W} {A = A} e)
  fail_with-Spends e = record { spent = λ s. omega arith }

  pub settle-Spends : (o : Outcome Failure A) → Spends w 0 (settle {W = W} o)
  settle-Spends o = record { spent = λ s. omega arith }

pub change-Spends :
    {W : Type 0} {w : Weights} (f : Session W → Session W)
    → ((s : Session W) → (f s).calls ≡ s.calls)
    → Spends w 0 (change f)
change-Spends {w} f same = record { spent = λ s. omega (arith, ap (weigh w) (same s)) }

pub or_make-Spends :
    {W A : Type 0} {w : Weights} {n : ℕ} {task : Task W A} (o : Option (Outcome Failure A))
    → Spends w n task
    → Spends w n (or_make o task)
or_make-Spends {n} (some promise) h = weaken n (settle-Spends promise) (omega arith)
or_make-Spends none h = h

module _ {W : Type 0} (w : Weights) (plane : Plane W) where
  pub call-Spends :
      (method : Text) (given : Request)
      → Spends w (weight w (controlled method given)) (call plane method given)
  unfolding call weigh
  call-Spends method given = record { spent = λ s. omega arith }

  pub wait_for_ready-Spends : (b : WorkspaceBinding) → Spends w w.wait (wait_for_ready plane b)
  unfolding wait_for_ready weigh weight
  wait_for_ready-Spends b = record { spent = λ s. omega arith }

  pub ping_agent-Spends : (b : WorkspaceBinding) → Spends w w.ping (ping_agent plane b)
  unfolding ping_agent weigh weight
  ping_agent-Spends b = record { spent = λ s. omega arith }

  pub control-Spends :
      (method : Text) (given : Request)
      → Spends w (weight w (controlled method given)) (control plane method given)
  unfolding control
  control-Spends method given =
      weaken (weight w (controlled method given))
        (Spends-bind (call-Spends method given) (λ row.
          Spends-bind (change-Spends (invalidate method given) (λ s. refl))
            (λ u. return-Spends row)))
        (omega arith)
