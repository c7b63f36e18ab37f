-- ===== src/Template/MountInputs/Laws.antt =====
-- The workspace's own project mount comes first, once (src/container-template.ts).
use dsh_podman.Prelude.{
  ℕ, ◌≡◌, ◌⊎◌, refl, sym, ap, ◌∙◌, inl, inr, Bool, true, false, List, [], ◌∷◌, Option, none, some,
  arith, All, Option-cases, Bool-cases, ◌++◌, ok, throw, subst, not, find?, filter, map,
  All-filter_self, All-imp, ok-injective, filter_of_All, All-map, All-of_forall, find?-All,
}
use dsh_podman.Text.{Text, text, ◌===◌, starts_with, to_lower_case}
use dsh_podman.Text.Laws.{===_refl, ===_iff}
use dsh_podman.Value.{str}
use dsh_podman.Mount.Enums.{normalize_mount_mode}
use dsh_podman.Template.{
  template_error, invalid_workspace_project, TemplateMount, project, volume, secret, tmpfs,
  read_only, read_write, ContainerTemplate,
}
use dsh_podman.Template.Paths.{normalize_project_text}
use dsh_podman.Template.MountInputs.{
  TemplateMountInput, mount_input, template_mount_input, mounts_project, forced_mode,
  with_forced_project_mount, template_mount_inputs,
}

not-true : (b : Bool) → not b ≡ true → b ≡ false
not-true true h = cc
not-true false h = refl

mounts_project-mount_input :
    (path mode : Text) → mounts_project path (mount_input (text "project") path [] mode) ≡ true
unfolding mount_input
mounts_project-mount_input path mode = ground (arith, ===_refl (text "project"), ===_refl path)

-- The project mount of a path.
abbrev pub IsProjectMount : Text → TemplateMountInput → Type 0
IsProjectMount path m = (m.kind ≡ text "project") × (m.project ≡ path)

-- A list without the project mounts of a path, in the same order.
pub data Others (path : Text) : List TemplateMountInput → List TemplateMountInput → Type 0 where
  no_mounts : Others path [] []
  left_out :
      {m : TemplateMountInput} {mounts rest : List TemplateMountInput}
      → IsProjectMount path m
      → Others path mounts rest
      → Others path (m ∷ mounts) rest
  kept :
      {m : TemplateMountInput} {mounts rest : List TemplateMountInput}
      → ¬ IsProjectMount path m
      → Others path mounts rest
      → Others path (m ∷ mounts) (m ∷ rest)

is_project_mount :
    (path : Text) (m : TemplateMountInput) → mounts_project path m ≡ true → IsProjectMount path m
is_project_mount path m e =
    ((===_iff m.kind (text "project")).0 (ground arith), (===_iff m.project path).0 (ground arith))

not_project_mount :
    (path : Text) (m : TemplateMountInput) → mounts_project path m ≡ false → ¬ IsProjectMount path m
not_project_mount path m e (k, p) =
    let same_kind = (===_iff m.kind (text "project")).1 k in
    let same_project = (===_iff m.project path).1 p in ground arith

filter-Others :
    (path : Text) (mounts : List TemplateMountInput)
    → Others path mounts (filter (λ m. not (mounts_project path m)) mounts)
filter-Others path [] = no_mounts
filter-Others path (m ∷ mounts) = elim (Bool-cases (mounts_project path m)) [
  | inl e ↦ rw e (left_out (is_project_mount path m e) (filter-Others path mounts))
  | inr e ↦ rw e (kept (not_project_mount path m e) (filter-Others path mounts))
]

module _ (number : Text → Option ℕ) where
  -- The mode that the forced mount has: that of the first declared mount of the project, read as any
  -- spelling of a mode, and read-write where there is none.
  declared_mode : Text → List TemplateMountInput → Text
  declared_mode path mounts = forced_mode number (find? (mounts_project path) mounts)

  with_forced_project_mount-cases :
      (mounts : List TemplateMountInput) (workspace_project : Text)
      → ((path : Text) × (normalize_project_text workspace_project ≡ some path)
          × (with_forced_project_mount number mounts workspace_project
              ≡ ok (
                  mount_input (text "project") path [] (declared_mode path mounts)
                  ∷ filter (λ m. not (mounts_project path m)) mounts))
          × All
              (λ m. mounts_project path m ≡ false)
              (filter (λ m. not (mounts_project path m)) mounts))
        ⊎ ((normalize_project_text workspace_project ≡ none)
            × (with_forced_project_mount number mounts workspace_project
                ≡ throw (template_error (invalid_workspace_project workspace_project) [])))
  unfolding with_forced_project_mount declared_mode
  with_forced_project_mount-cases mounts workspace_project =
      elim (Option-cases (normalize_project_text workspace_project)) [
        | inl e ↦ inr (e, rw e)
        | inr (path, e) ↦
            inl (path, e, rw e, All-imp (λ m. not-true _) _ (All-filter_self _ mounts))
      ]

  -- The mode for the project mount of a path: read-write where no mount is that one, and else the mode
  -- of the first that is, read as any spelling of a mode.
  pub data ModeOf (path : Text) (mounts : List TemplateMountInput) (mode : Text) : Type 0 where
    undeclared :
        All (λ m. ¬ IsProjectMount path m) mounts
        → mode ≡ text "read_write"
        → ModeOf path mounts mode
    declared :
        (before after : List TemplateMountInput) (m : TemplateMountInput)
        → mounts ≡ before ++ m ∷ after
        → All (λ o. ¬ IsProjectMount path o) before
        → IsProjectMount path m
        → mode ≡ normalize_mount_mode number (str m.mode)
        → ModeOf path mounts mode

  later-ModeOf :
      (path : Text) (m : TemplateMountInput) (mounts : List TemplateMountInput) (mode : Text)
      → ¬ IsProjectMount path m
      → ModeOf path mounts mode
      → ModeOf path (m ∷ mounts) mode
  later-ModeOf path m mounts mode n (undeclared all e) = undeclared (n, all) e
  later-ModeOf path m mounts mode n (declared before after d split all is e) =
      declared (m ∷ before) after d (ap (λ ms. m ∷ ms) split) (n, all) is e

  declared_mode-ModeOf :
      (path : Text) (mounts : List TemplateMountInput)
      → ModeOf path mounts (declared_mode path mounts)
  unfolding declared_mode forced_mode
  declared_mode-ModeOf path [] = undeclared tt refl
  declared_mode-ModeOf path (m ∷ mounts) = elim (Bool-cases (mounts_project path m)) [
    | inl e ↦ rw e (declared [] mounts m refl tt (is_project_mount path m e) refl)
    | inr e ↦ rw e (
        later-ModeOf path m mounts _ (not_project_mount path m e)
          (declared_mode-ModeOf path mounts))
  ]

  -- For a project path that names a directory below the projects root, the project mount of that
  -- path comes first, without a destination, a volume or a secret; its mode is that of the first
  -- mount of the list that is this project mount, and read-write where there is none; and all other
  -- mounts follow as they were, in their order, without any project mount of that path. Any other
  -- workspace project is refused.
  pub with_forced_project_mount-IsForced :
      (mounts : List TemplateMountInput) (workspace_project : Text)
      → ((path : Text) × (mode : Text) × (rest : List TemplateMountInput) × (normalize_project_text
              workspace_project
            ≡ some path)
          × (with_forced_project_mount number mounts workspace_project
              ≡ ok (
                  record {
                    kind = text "project";
                    project = path;
                    destination = [];
                    mode = mode;
                    volume = [];
                    secret = [];
                  }
                  ∷ rest))
          × ModeOf path mounts mode
          × Others path mounts rest)
        ⊎ ((normalize_project_text workspace_project ≡ none)
            × (with_forced_project_mount number mounts workspace_project
                ≡ throw (template_error (invalid_workspace_project workspace_project) [])))
  unfolding mount_input
  with_forced_project_mount-IsForced mounts workspace_project =
      elim (with_forced_project_mount-cases mounts workspace_project) [
        | inr refusal ↦ inr refusal
        | inl (path, valid, made, once) ↦ inl (
          path,
          declared_mode path mounts,
          filter (λ m. not (mounts_project path m)) mounts,
          valid,
          made,
          declared_mode-ModeOf path mounts,
          filter-Others path mounts,
        )
      ]

  -- The mount of a project is declared in one of the two spellings that templates use.
  abbrev pub HasPlainMode : TemplateMountInput → Type 0
  HasPlainMode m = (m.mode ≡ text "read_only") ⊎ (m.mode ≡ text "read_write")

  plain_mode :
      (m : TemplateMountInput) → HasPlainMode m → normalize_mount_mode number (str m.mode) ≡ m.mode
  plain_mode m (inl e) =
      rw e (unfold normalize_mount_mode starts_with to_lower_case text ◌===◌ in refl)
  plain_mode m (inr e) =
      rw e (unfold normalize_mount_mode starts_with to_lower_case text ◌===◌ in refl)

  declared_mode-plain :
      (path : Text) (mounts : List TemplateMountInput)
      → All HasPlainMode mounts
      → (declared_mode path mounts ≡ text "read_only")
        ⊎ (declared_mode path mounts ≡ text "read_write")
  unfolding declared_mode forced_mode
  declared_mode-plain path mounts plain = elim (Option-cases (find? (mounts_project path) mounts)) [
    | inl e ↦ inr (rw (e, forced_mode))
    | inr (m, e) ↦
        let p : HasPlainMode m = find?-All HasPlainMode (mounts_project path) mounts plain e in
        elim p [
          | inl k ↦ inl (rw (e, forced_mode) (plain_mode m (inl k) ∙ k))
          | inr k ↦ inr (rw (e, forced_mode) (plain_mode m (inr k) ∙ k))
        ]
  ]

  plain_input : (m : TemplateMount) → HasPlainMode (template_mount_input m)
  unfolding template_mount_input mount_input
  plain_input (project path read_only) = inl refl
  plain_input (project path read_write) = inr refl
  plain_input (volume name destination read_only) = inl refl
  plain_input (volume name destination read_write) = inr refl
  plain_input (secret name destination) = inl refl
  plain_input (tmpfs destination) = inr refl

  -- A list with the forced mount already first is left as it is.
  with_forced_project_mount_of_first :
      (workspace_project path mode : Text) (rest : List TemplateMountInput)
      → normalize_project_text workspace_project ≡ some path
      → All (λ m. mounts_project path m ≡ false) rest
      → (mode ≡ text "read_only") ⊎ (mode ≡ text "read_write")
      → with_forced_project_mount number
          (mount_input (text "project") path [] mode ∷ rest)
          workspace_project
        ≡ ok (mount_input (text "project") path [] mode ∷ rest)
  unfolding with_forced_project_mount
  with_forced_project_mount_of_first workspace_project path mode rest e once plain =
      let head = mount_input (text "project") path [] mode in
      rw e (
        rw (mounts_project-mount_input path mode) (
          rw (plain_mode head plain) (
            rw (
              filter_of_All (λ m. not (mounts_project path m)) rest
                (All-imp (λ m h. rw h) rest once)))))

  -- Forcing the workspace's project mount on a template's mounts is done once for all: doing it again
  -- changes nothing, so the list that an approval shows is the list that the apply sends.
  pub template_mount_inputs_forced :
      (template : ContainerTemplate) (workspace_project : Text) (out : List TemplateMountInput)
      → template_mount_inputs number template (some workspace_project) ≡ ok out
      → with_forced_project_mount number out workspace_project ≡ ok out
  unfolding template_mount_inputs
  template_mount_inputs_forced template workspace_project out e =
      let mounts = map template_mount_input template.spec.mounts in
      elim (with_forced_project_mount-cases mounts workspace_project) [
        | inr (refused, thrown) ↦ absurd (cc)
        | inl (path, valid, made, once) ↦
            let mode = declared_mode path mounts in
            let rest = filter (λ m. not (mounts_project path m)) mounts in
            let shape : mount_input (text "project") path [] mode ∷ rest ≡ out =
              ok-injective (sym made ∙ e) in
            subst (λ o. with_forced_project_mount number o workspace_project ≡ ok o) shape
              (with_forced_project_mount_of_first workspace_project path mode rest valid once
                (declared_mode-plain path mounts (inputs-plain template.spec.mounts)))
      ]
    where
      inputs-plain : (ms : List TemplateMount) → All HasPlainMode (map template_mount_input ms)
      inputs-plain ms =
          All-map HasPlainMode template_mount_input ms (All-of_forall _ plain_input ms)
