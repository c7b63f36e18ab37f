-- ===== src/Binding/Resolver/Answered.antt =====
-- A binding that the resolver returns has answered (src/workspace-binding.ts).
use dsh_podman.Prelude.{
  ◌≡◌, refl, sym, ap, ◌∙◌, Bool, true, false, List, [], ◌∷◌, Option, none, some, if◌then◌else◌,
  Outcome, ok, throw,
}
use dsh_podman.Text.{Text, text}
use dsh_podman.Binding.{
  Failure, WorkspaceBinding, ContainerEntry, RegisteredWorkspace, BindingConfig,
}
use dsh_podman.Binding.Paths.{default_cwd_of, workspace_slug, project_name_for_path}
use dsh_podman.Binding.Cache.{container_key, ptc_container, ptc_binding_key}
use dsh_podman.Binding.Task.{
  Call, pinged, Plane, Session, Task, ◌>>=◌, ◌>>◌, return, fail_with, settle, catching, change,
}
use dsh_podman.Binding.Resolver.{
  wait_for_ready, ping_agent, is_ok, is_unauthenticated, refresh, ensure_agent_ready, ready_entry,
  ready_container, resolve_container_binding, resolve_binding, recover_container, drop_container,
  drop_binding, ptc_binding, ready, container_binding, workspace_for_cwd, with_cwd, exposed,
  resolve,
}

-- The last call is a ping of a socket with a token, and it was answered.
abbrev pub LastPing : WorkspaceBinding → List Call → Type 0
LastPing b calls = (earlier : List Call) × (calls ≡ pinged b.socket b.token true ∷ earlier)

-- What holds of a result: nothing of an error, and of a binding that it has just answered.
abbrev pub ResultPing : {W : Type 0} → Outcome Failure WorkspaceBinding × Session W → Type 0
ResultPing (ok b, s) = LastPing b s.calls
ResultPing (throw e, s) = Unit {0}

abbrev pub BindingsPing : {W : Type 0} → Task W WorkspaceBinding → Session W → Type 0
BindingsPing task s = ResultPing (task s)

-- A task whose result, where it has one, is a binding that has just answered.
record Answers {W A : Type 0} (binding_of : A → WorkspaceBinding) (task : Task W A) : Type 0 where
  answered : (s : Session W) (a : A) → (task s).0 ≡ ok a → LastPing (binding_of a) (task s).1.calls

module _ {W A B : Type 0} {binding_of : B → WorkspaceBinding} where
  Answers-bind :
      (task : Task W A) {next : A → Task W B}
      → ((a : A) → Answers binding_of (next a))
      → Answers binding_of (task >>= next)
  Answers-bind task {next} h = record { answered = λ s. by_answer (task s) }
    where
      by_answer :
          (r : Outcome Failure A × Session W) (b : B)
          → (((λ t. r) >>= next) r.1).0 ≡ ok b
          → LastPing (binding_of b) (((λ t. r) >>= next) r.1).1.calls
      by_answer (ok a, t) b e = (h a).answered t b e
      by_answer (throw f, t) b e = cc

module _ {W A : Type 0} {binding_of : A → WorkspaceBinding} where
  Answers-catching :
      {task : Task W A} {handler : Failure → Task W A}
      → Answers binding_of task
      → ((e : Failure) → Answers binding_of (handler e))
      → Answers binding_of (catching task handler)
  Answers-catching {task} {handler} h k = record {
    answered = λ s a. by_answer (task s) a (h.answered s a);
  }
    where
      by_answer :
          (r : Outcome Failure A × Session W) (a : A)
          → (r.0 ≡ ok a → LastPing (binding_of a) r.1.calls)
          → (catching (λ t. r) handler r.1).0 ≡ ok a
          → LastPing (binding_of a) (catching (λ t. r) handler r.1).1.calls
      by_answer (ok b, t) a g e = g e
      by_answer (throw f, t) a g e = (k f).answered t a e

  Answers-fail : (e : Failure) → Answers binding_of (fail_with {W = W} {A = A} e)
  Answers-fail e = record { answered = λ s a f. cc }

with_cwd-same :
    (cwd : Option Text) (b : WorkspaceBinding)
    → ((with_cwd cwd b).socket ≡ b.socket) × ((with_cwd cwd b).token ≡ b.token)
with_cwd-same none b = (refl, refl)
with_cwd-same (some cwd) b = (refl, refl)

-- A result that keeps the binding's socket and token.
module _ {W A B : Type 0} {before : A → WorkspaceBinding} {after : B → WorkspaceBinding} where
  Answers-map :
      {task : Task W A} (f : A → B)
      → ((a : A)
          → ((after (f a)).socket ≡ (before a).socket) × ((after (f a)).token ≡ (before a).token))
      → Answers before task
      → Answers after (task >>= λ a. return (f a))
  Answers-map {task} f same h = record {
    answered = λ s b. by_answer (task s) b (λ a. h.answered s a);
  }
    where
      by_answer :
          (r : Outcome Failure A × Session W) (b : B)
          → ((a : A) → r.0 ≡ ok a → LastPing (before a) r.1.calls)
          → (((λ t. r) >>= λ a. return (f a)) r.1).0 ≡ ok b
          → LastPing (after b) (((λ t. r) >>= λ a. return (f a)) r.1).1.calls
      by_answer (ok a, t) b g e =
          let (earlier, last) = g a refl in
          let made : f a ≡ b = cc in
          let (s, k) = same a in
          (
            earlier,
            last
                ∙ ap (λ socket. pinged socket (before a).token true ∷ earlier)
                    (sym s ∙ ap (λ c. (after c).socket) made)
                ∙ ap (λ token. pinged (after b).socket token true ∷ earlier)
                    (sym k ∙ ap (λ c. (after c).token) made),
          )
      by_answer (throw e, t) b g k = cc

module _ {W : Type 0} (plane : Plane W) (config : BindingConfig) where
  ping-Answers : (b : WorkspaceBinding) → Answers (λ c. c) (ping_agent plane b >> return b)
  unfolding ping_agent
  ping-Answers b = record { answered = λ s. by_answer s (plane.ping b.socket b.token s.world) }
    where
      by_answer :
          (s : Session W) (r : Outcome Failure (Unit {0}) × W) (c : WorkspaceBinding)
          → (((λ t. (
            r.0,
            record s { world = r.1; calls = pinged b.socket b.token (is_ok r.0) ∷ s.calls },
          ))
                >> return b)
              s).0
            ≡ ok c
          → LastPing c
              (((λ t. (
                r.0,
                record s { world = r.1; calls = pinged b.socket b.token (is_ok r.0) ∷ s.calls },
              ))
                  >> return b)
                s).1.calls
      by_answer s (ok u, w) c e =
          let same : b ≡ c = cc in (s.calls, ap (λ d. pinged d.socket d.token true ∷ s.calls) same)
      by_answer s (throw f, w) c e = cc

  ensure_agent_ready-Answers :
      (b : WorkspaceBinding) → Answers (λ c. c) (ensure_agent_ready plane config b)
  unfolding ensure_agent_ready
  ensure_agent_ready-Answers b =
      Answers-bind (wait_for_ready plane b)
        (λ u. Answers-catching (ping-Answers b) (λ e. refreshed (is_unauthenticated e) e))
    where
      refreshed :
          (unauthorised : Bool) (e : Failure)
          → Answers
              (λ c. c)
              (if unauthorised
                then (refresh plane config b.refresh >>= λ fresh.
                    wait_for_ready plane fresh >> (ping_agent plane fresh >> return fresh))
                else fail_with e)
      refreshed true e =
          Answers-bind (refresh plane config b.refresh)
            (λ fresh. Answers-bind (wait_for_ready plane fresh) (λ u. ping-Answers fresh))
      refreshed false e = Answers-fail e

  ready_entry-Answers :
      (entry : ContainerEntry) → Answers ContainerEntry.binding (ready_entry plane config entry)
  ready_entry-Answers entry =
      Answers-map (λ b. record { binding = b; mounts = entry.mounts }) (λ b. (refl, refl))
        (ensure_agent_ready-Answers entry.binding)

  ready_container-Answers :
      (slug container : Text)
      → Answers ContainerEntry.binding (ready_container plane config slug container)
  unfolding ready_container
  ready_container-Answers slug container =
      let key = container_key slug container in
      Answers-bind (resolve_container_binding plane config slug container key) (λ entry.
        Answers-catching (ready_entry-Answers entry) (λ e.
          Answers-bind (change (drop_container key)) (λ u.
            Answers-bind (recover_container plane config slug container) (λ u.
              Answers-bind (resolve_container_binding plane config slug container key)
                ready_entry-Answers))))

  ready-Answers : (key project_name : Text) → Answers (λ b. b) (ready plane config key project_name)
  unfolding ready
  ready-Answers key project_name =
      Answers-bind (resolve_binding plane config key project_name) (λ first.
        Answers-catching (ensure_agent_ready-Answers first) (λ e.
          Answers-bind (change (drop_binding key)) (λ u.
            Answers-bind (resolve_binding plane config key project_name) (λ second.
              Answers-catching (ensure_agent_ready-Answers second) (λ f.
                Answers-bind (recover_container plane config key (text "default")) (λ u.
                  Answers-bind (change (drop_binding key)) (λ u.
                    Answers-bind (resolve_binding plane config key project_name)
                      ensure_agent_ready-Answers)))))))

  ptc_binding-Answers : Answers (λ b. b) (ptc_binding plane config)
  unfolding ptc_binding
  ptc_binding-Answers =
      Answers-bind (resolve_container_binding plane config [] ptc_container ptc_binding_key)
        (λ entry. Answers-catching (ensure_agent_ready-Answers entry.binding) (λ e.
          Answers-bind (change (drop_container ptc_binding_key)) (λ u.
            Answers-bind (resolve_container_binding plane config [] ptc_container ptc_binding_key)
              (λ again. ensure_agent_ready-Answers again.binding))))

  module _ (resolve_by_path : Text → Option RegisteredWorkspace) where
    resolve-Answers : (cwd : Text) → Answers (λ b. b) (resolve plane config resolve_by_path cwd)
    unfolding resolve
    resolve-Answers cwd =
        Answers-bind (workspace_for_cwd plane config resolve_by_path cwd) (λ workspace.
          Answers-bind (settle (workspace_slug workspace.id)) (λ slug.
            Answers-bind (settle (project_name_for_path config.projects_root workspace.path))
              (λ project_name.
                Answers-map (with_cwd (default_cwd_of cwd)) (with_cwd-same (default_cwd_of cwd))
                  (ready-Answers slug project_name))))

    container_binding-Answers :
        (cwd container : Text)
        → Answers (λ b. b) (container_binding plane config resolve_by_path cwd container)
    unfolding container_binding
    container_binding-Answers cwd container =
        Answers-bind (workspace_for_cwd plane config resolve_by_path cwd) (λ workspace.
          Answers-bind (settle (workspace_slug workspace.id)) (λ slug.
            Answers-map (λ entry. with_cwd (exposed config entry.mounts cwd) entry.binding)
              (λ entry. with_cwd-same (exposed config entry.mounts cwd) entry.binding)
              (ready_container-Answers slug container)))

    -- Whatever the caches held and the orchestrator and agents answer: when a container, a
    -- session's workspace or the PTC container resolves to a binding, the last call made was a
    -- ping of that binding's socket with its token, and it was answered.
    pub binding-LastPing :
        (cwd container : Text) (s : Session W)
        → (BindingsPing (container_binding plane config resolve_by_path cwd container) s)
          × (BindingsPing (resolve plane config resolve_by_path cwd) s)
          × (BindingsPing (ptc_binding plane config) s)
    binding-LastPing cwd container s = (
      after (container_binding-Answers cwd container),
      after (resolve-Answers cwd),
      after ptc_binding-Answers,
    )
      where
        by_result :
            (r : Outcome Failure WorkspaceBinding × Session W)
            → ((b : WorkspaceBinding) → r.0 ≡ ok b → LastPing b r.1.calls)
            → ResultPing r
        by_result (ok b, t) g = g b refl
        by_result (throw e, t) g = tt

        after : {task : Task W WorkspaceBinding} → Answers (λ b. b) task → BindingsPing task s
        after {task} h = by_result (task s) (λ b. h.answered s b)
