-- ===== src/Approval/Facts/Laws.antt =====
-- A prompt is about the tool that is called (src/approval.ts).
use dsh_podman.Prelude.{
  ◌≡◌, refl, ap, sym, ◌∙◌, inl, inr, Bool, List, [], ◌∷◌, Option, none, some, All, Bool-cases,
}
use mathlib.Core.Option.{some-injective}
use dsh_podman.Text.{Text, text, ◌===◌}
use dsh_podman.Text.Laws.{===_iff}
use dsh_podman.Value.{Value, Fields}
use dsh_podman.Approval.Reasons.{
  ReasonFact, MountFact, ContainerFact, image_build, image_rebuild, image_remove, container_remove,
  volume_remove, secret_remove, image_rebuild_all, container_start, container_recreate,
  container_template_load, container_template_save, container_mount_add, container_mount_remove,
  container_mount_update, container_publish_port, container_unpublish_port, container_path_set,
  container_path_add, container_path_remove, container_write, container_edit, container_secret_add,
  container_secret_remove, container_bash, container_exec, daemon_start,
}
use dsh_podman.Approval.Mounts.{◌>>=◌}
use dsh_podman.Approval.Facts.{
  one, two, three, replaced, changed_mount, port_fact, saved_template, run_fact, switch,
  reason_cases, reason_fact, Builtins,
}

-- The field `kind` of a fact.
unfoldable pub fact_kind : ReasonFact → Text
fact_kind (image_build _ _ _) = text "image_build"
fact_kind (image_rebuild _) = text "image_rebuild"
fact_kind (image_remove _) = text "image_remove"
fact_kind (container_remove _) = text "container_remove"
fact_kind (volume_remove _) = text "volume_remove"
fact_kind (secret_remove _) = text "secret_remove"
fact_kind image_rebuild_all = text "image_rebuild_all"
fact_kind (container_start _) = text "container_start"
fact_kind (container_recreate _) = text "container_recreate"
fact_kind (container_template_load _ _ _) = text "container_template_load"
fact_kind (container_template_save _ _ _) = text "container_template_save"
fact_kind (container_mount_add _ _) = text "container_mount_add"
fact_kind (container_mount_remove _ _) = text "container_mount_remove"
fact_kind (container_mount_update _ _) = text "container_mount_update"
fact_kind (container_publish_port _ _ _ _) = text "container_publish_port"
fact_kind (container_unpublish_port _ _ _) = text "container_unpublish_port"
fact_kind (container_path_set _ _) = text "container_path_set"
fact_kind (container_path_add _ _) = text "container_path_add"
fact_kind (container_path_remove _ _) = text "container_path_remove"
fact_kind (container_write _ _) = text "container_write"
fact_kind (container_edit _ _) = text "container_edit"
fact_kind (container_secret_add _ _ _) = text "container_secret_add"
fact_kind (container_secret_remove _ _) = text "container_secret_remove"
fact_kind (container_bash _ _ _ _) = text "container_bash"
fact_kind (container_exec _ _ _ _) = text "container_exec"
fact_kind (daemon_start _ _ _ _) = text "daemon_start"

-- A case of the switch gives facts of its own kind only.
record Kinds (c : Text × Option ReasonFact) : Type 0 where
  kinds : {fact : ReasonFact} → c.1 ≡ some fact → fact_kind fact ≡ c.0

bind-eq-some {ℓ} :
    {A : Type ℓ} (o : Option A) (f : A → Option ReasonFact) {fact : ReasonFact}
    → (o >>= f) ≡ some fact
    → (a : A) × (f a ≡ some fact)
unfolding ◌>>=◌
bind-eq-some none f e = cc
bind-eq-some (some a) f e = (a, e)

some-Kinds : {label : Text} {made : ReasonFact} → fact_kind made ≡ label → Kinds (label, some made)
some-Kinds k = record { kinds = λ e. ap fact_kind (sym (some-injective _ _ e)) ∙ k }

bind-Kinds {ℓ} :
    {A : Type ℓ} {label : Text} (o : Option A) (f : A → Option ReasonFact)
    → ((a : A) → Kinds (label, f a))
    → Kinds (label, (o >>= f))
bind-Kinds o f h = record { kinds = λ e. let (a, k) = bind-eq-some o f e in (h a).kinds k }

switch-Kinds :
    (name : Text) (cases : List (Text × Option ReasonFact)) {fact : ReasonFact}
    → All Kinds cases
    → switch name cases ≡ some fact
    → fact_kind fact ≡ name
unfolding switch
switch-Kinds name [] h e = cc
switch-Kinds name ((label, result) ∷ cases) (k, h) e = elim (Bool-cases (name === label)) [
  | inl same ↦ k.kinds (rw same at e) ∙ sym ((===_iff name label).0 same)
  | inr other ↦ switch-Kinds name cases h (rw other at e)
]

module _ (js : Builtins) (args : Fields) {label : Text} where
  one-Kinds :
      (key : Text) (fact : Text → ReasonFact)
      → ((a : Text) → fact_kind (fact a) ≡ label)
      → Kinds (label, one js args key fact)
  unfolding one
  one-Kinds key fact k = bind-Kinds _ (λ a. some (fact a)) (λ a. some-Kinds (k a))

  two-Kinds :
      (key other : Text) (fact : Text → Text → ReasonFact)
      → ((a b : Text) → fact_kind (fact a b) ≡ label)
      → Kinds (label, two js args key other fact)
  unfolding two
  two-Kinds key other fact k =
      bind-Kinds _ _ (λ a. bind-Kinds _ (λ b. some (fact a b)) (λ b. some-Kinds (k a b)))

  three-Kinds :
      (key other last : Text) (fact : Text → Text → Text → ReasonFact)
      → ((a b c : Text) → fact_kind (fact a b c) ≡ label)
      → Kinds (label, three js args key other last fact)
  unfolding three
  three-Kinds key other last fact k =
      bind-Kinds _ _ (λ a.
        bind-Kinds _ _ (λ b. bind-Kinds _ (λ c. some (fact a b c)) (λ c. some-Kinds (k a b c))))

  replaced-Kinds :
      (fact : ContainerFact → ReasonFact)
      → ((a : ContainerFact) → fact_kind (fact a) ≡ label)
      → Kinds (label, replaced js args fact)
  unfolding replaced
  replaced-Kinds fact k = bind-Kinds _ _ (λ a. some-Kinds (k _))

  changed_mount-Kinds :
      (read_only : Option Bool) (fact : Text → MountFact → ReasonFact)
      → ((a : Text) (b : MountFact) → fact_kind (fact a b) ≡ label)
      → Kinds (label, changed_mount js args read_only fact)
  unfolding changed_mount
  changed_mount-Kinds read_only fact k =
      bind-Kinds _ _ (λ a. bind-Kinds _ (λ b. some (fact a b)) (λ b. some-Kinds (k a b)))

  port_fact-Kinds :
      (fact : Text → Value → Text → ReasonFact)
      → ((a : Text) (b : Value) (c : Text) → fact_kind (fact a b c) ≡ label)
      → Kinds (label, port_fact js args fact)
  unfolding port_fact
  port_fact-Kinds fact k = bind-Kinds _ _ (λ a. bind-Kinds _ _ (λ b. some-Kinds (k a b _)))

  run_fact-Kinds :
      (fact : Text → List Text → ReasonFact)
      → ((a : Text) (b : List Text) → fact_kind (fact a b) ≡ label)
      → Kinds (label, run_fact js args fact)
  unfolding run_fact
  run_fact-Kinds fact k =
      bind-Kinds _ _ (λ a. bind-Kinds _ (λ b. some (fact a b)) (λ b. some-Kinds (k a b)))

module _ (js : Builtins) (args : Fields) (session_cwd : Value) where
  saved-Kinds : Kinds (text "container_template_save", saved_template js args session_cwd)
  unfolding saved_template fact_kind
  saved-Kinds = bind-Kinds _ _ (λ a. bind-Kinds _ _ (λ b. some-Kinds refl))

  reason_cases-Kinds : All Kinds (reason_cases js args session_cwd)
  unfolding reason_cases fact_kind
  reason_cases-Kinds = (
    one-Kinds _ _ _ _ (λ a. refl),
    (
      one-Kinds _ _ _ _ (λ a. refl),
      (
        some-Kinds refl,
        (
          one-Kinds _ _ _ _ (λ a. refl),
          (
            replaced-Kinds _ _ _ (λ a. refl),
            (
              replaced-Kinds _ _ _ (λ a. refl),
              (
                one-Kinds _ _ _ _ (λ a. refl),
                (
                  port_fact-Kinds _ _ _ (λ a b c. refl),
                  (
                    port_fact-Kinds _ _ _ (λ a b c. refl),
                    (
                      one-Kinds _ _ _ _ (λ a. refl),
                      (
                        one-Kinds _ _ _ _ (λ a. refl),
                        (
                          three-Kinds _ _ _ _ _ _ (λ a b c. refl),
                          (
                            two-Kinds _ _ _ _ _ (λ a b. refl),
                            (
                              changed_mount-Kinds _ _ _ _ (λ a b. refl),
                              (
                                changed_mount-Kinds _ _ _ _ (λ a b. refl),
                                (
                                  changed_mount-Kinds _ _ _ _ (λ a b. refl),
                                  (
                                    one-Kinds _ _ _ _ (λ a. refl),
                                    (
                                      two-Kinds _ _ _ _ _ (λ a b. refl),
                                      (
                                        two-Kinds _ _ _ _ _ (λ a b. refl),
                                        (
                                          one-Kinds _ _ _ _ (λ a. refl),
                                          (
                                            saved-Kinds,
                                            (
                                              two-Kinds _ _ _ _ _ (λ a b. refl),
                                              (
                                                run_fact-Kinds _ _ _ (λ a b. refl),
                                                (
                                                  two-Kinds _ _ _ _ _ (λ a b. refl),
                                                  (
                                                    two-Kinds _ _ _ _ _ (λ a b. refl),
                                                    (run_fact-Kinds _ _ _ (λ a b. refl), tt),
                                                  ),
                                                ),
                                              ),
                                            ),
                                          ),
                                        ),
                                      ),
                                    ),
                                  ),
                                ),
                              ),
                            ),
                          ),
                        ),
                      ),
                    ),
                  ),
                ),
              ),
            ),
          ),
        ),
      ),
    ),
  )

  -- The fact that a prompt is made from is of the kind that the called tool names.
  pub reason_fact-fact_kind :
      (name : Text) {fact : ReasonFact}
      → reason_fact js name args session_cwd ≡ some fact
      → fact_kind fact ≡ name
  unfolding reason_fact
  reason_fact-fact_kind name e =
      switch-Kinds name (reason_cases js args session_cwd) reason_cases-Kinds e
