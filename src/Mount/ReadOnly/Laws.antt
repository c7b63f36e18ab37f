-- ===== src/Mount/ReadOnly/Laws.antt =====
-- A tool runs only over read-only mounts (src/read-only-shell.ts).
use dsh_podman.Prelude.{
  ◌≡◌, refl, ap, subst, Outcome, throw, inl, inr, Bool, true, false, List, [], ◌∷◌, Option, none,
  some, All, Bool-cases, Option-cases, ok, ok-injective, >>=-eq-ok, not, filter,
}
use dsh_podman.Text.{Text, text, includes}
use dsh_podman.Value.{Value}
use dsh_podman.Mount.Enums.{mount_kind_from_proto, mount_kind_to_proto}
use dsh_podman.Mount.Enums.Laws.{mount_kind_to_proto-mount_kind_from_proto}
use dsh_podman.Mount.ReadOnly.{
  read_only_gated_tools, StoredMount, ContainerRow, MountRequest, GateResult, GateFailure,
  call_failed, undecided, allow, deny, as_string, carries_mode, container_of, read_container_mounts,
  requested_mode, read_only_mount_request, read_only_mount_requests, is_writable, decided,
  recreated_by, remounted, answered, asked, gated, read_only_shell_gate,
}

-- The request that remounts a list: one for each mount, and each that carries a mode is read-only.
pub data Remounts : List StoredMount → List MountRequest → Type 0 where
  no_mounts : Remounts [] []
  remount :
      {mount : StoredMount} {mounts : List StoredMount} {request : MountRequest}
      {requests : List MountRequest}
      → (carries_mode mount.kind ≡ true → request.mode ≡ some (text "MOUNT_MODE_READ_ONLY"))
      → Remounts mounts requests
      → Remounts (mount ∷ mounts) (request ∷ requests)

-- The name of a kind that was read from the wire can be written again.
kind_of_wire :
    (o : Option Text) → (kind : Text) × (mount_kind_to_proto (mount_kind_from_proto o) ≡ ok kind)
kind_of_wire none =
    unfold mount_kind_from_proto mount_kind_to_proto in (text "MOUNT_KIND_PROJECT", refl)
kind_of_wire (some proto) = elim (Option-cases (mount_kind_from_proto (some proto))) [
  | inl e ↦ rw e (unfold mount_kind_to_proto in (text "MOUNT_KIND_PROJECT", refl))
  | inr (kind, e) ↦ rw e (proto, (mount_kind_to_proto-mount_kind_from_proto kind proto).1 e)
]

request_mode :
    (mount : StoredMount) (request : MountRequest)
    → read_only_mount_request mount ≡ ok request
    → carries_mode mount.kind ≡ true
    → request.mode ≡ some (text "MOUNT_MODE_READ_ONLY")
unfolding read_only_mount_request
request_mode mount request e h =
    let (kind, a, e₁) =
      >>=-eq-ok (mount_kind_to_proto (mount_kind_from_proto (as_string mount.kind))) _ e in
    subst (λ (r : MountRequest). r.mode ≡ some (text "MOUNT_MODE_READ_ONLY")) (ok-injective e₁)
      (unfold requested_mode in (rw h refl))

request_total :
    (mount : StoredMount) → (request : MountRequest) × (read_only_mount_request mount ≡ ok request)
unfolding read_only_mount_request
request_total mount = let (kind, e) = kind_of_wire (as_string mount.kind) in rw e (_, refl)

requests_total :
    (mounts : List StoredMount)
    → (requests : List MountRequest) × (read_only_mount_requests mounts ≡ ok requests)
      × Remounts mounts requests
unfolding read_only_mount_requests
requests_total [] = ([], refl, no_mounts)
requests_total (mount ∷ mounts) =
    let (request, e) = request_total mount in
    let (requests, f, more) = requests_total mounts in
    (request ∷ requests, rw e (rw f refl), remount (request_mode mount request e) more)

none_writable :
    (mounts : List StoredMount)
    → filter is_writable mounts ≡ []
    → All (λ mount. is_writable mount ≡ false) mounts
none_writable [] e = tt
none_writable (mount ∷ mounts) e = elim (Bool-cases (is_writable mount)) [
  | inl w ↦ absurd (cc (rw w at e))
  | inr w ↦ (w, none_writable mounts (rw w at e))
]

module _ {E : Type 0} (approve : Text → List StoredMount → List StoredMount → Outcome E Bool)
    (slug_later : Outcome E Text)
    (recreate_container : Text → Text → List MountRequest → Outcome E (Unit {0})) where
  -- The user's answer on the writable mounts of a container, with the others to keep.
  abbrev pub answer : Text → List StoredMount → Outcome E Bool
  answer name mounts =
      approve name (filter is_writable mounts) (filter (λ mount. not (is_writable mount)) mounts)

  -- What the gate may come to for a tool over the mounts that were read of a container.
  pub data Gates (name container : Text) (found : Option (List StoredMount))
      : Outcome (GateFailure E) GateResult → Type 0 where
    not_covered :
        includes name read_only_gated_tools ≡ false
        → Gates name container found (ok (decided undecided))
    unreadable : found ≡ none → Gates name container found (ok (decided undecided))
    all_read_only :
        (mounts : List StoredMount)
        → found ≡ some mounts
        → All (λ mount. is_writable mount ≡ false) mounts
        → Gates name container found (ok (decided allow))
    approved :
        (mounts : List StoredMount) (requests : List MountRequest) (slug : Text)
        → found ≡ some mounts
        → answer name mounts ≡ ok true
        → slug_later ≡ ok slug
        → Remounts mounts requests
        → recreate_container slug container requests ≡ ok tt
        → Gates name container found (ok (record { decision = allow; recreated = some requests }))
    declined :
        (mounts : List StoredMount)
        → found ≡ some mounts
        → answer name mounts ≡ ok false
        → Gates name container found (ok (decided deny))
    not_answered :
        (mounts : List StoredMount) (e : E)
        → found ≡ some mounts
        → answer name mounts ≡ throw e
        → Gates name container found (throw (call_failed e))
    not_resolved :
        (mounts : List StoredMount) (e : E)
        → found ≡ some mounts
        → answer name mounts ≡ ok true
        → slug_later ≡ throw e
        → Gates name container found (throw (call_failed e))
    not_recreated :
        (mounts : List StoredMount) (requests : List MountRequest) (slug : Text) (e : E)
        → found ≡ some mounts
        → answer name mounts ≡ ok true
        → slug_later ≡ ok slug
        → Remounts mounts requests
        → recreate_container slug container requests ≡ throw e
        → Gates name container found (throw (call_failed e))

  remounted-Gates :
      (name container : Text) (mounts : List StoredMount) (o : Outcome E Text)
      → slug_later ≡ o
      → answer name mounts ≡ ok true
      → Gates name container
          (some mounts)
          (remounted approve slug_later recreate_container container mounts o)
  unfolding remounted
  remounted-Gates name container mounts (throw e) s a = not_resolved mounts e refl a s
  remounted-Gates name container mounts (ok slug) s a =
      let (requests, e, all) = requests_total mounts in
      rw e (by_call requests all (recreate_container slug container requests) refl)
    where
      by_call :
          (requests : List MountRequest)
          → Remounts mounts requests
          → (r : Outcome E (Unit {0})) → recreate_container slug container requests ≡ r
          → Gates name container
              (some mounts)
              (recreated_by approve slug_later recreate_container requests r)
      by_call requests all (ok tt) k = approved mounts requests slug refl a s all k
      by_call requests all (throw e) k = not_recreated mounts requests slug e refl a s all k

  asked-Gates :
      (name container : Text) (mounts ws : List StoredMount)
      → filter is_writable mounts ≡ ws
      → Gates name container
          (some mounts)
          (asked approve slug_later recreate_container name container mounts ws)
  unfolding asked
  asked-Gates name container mounts [] w = all_read_only mounts refl (none_writable mounts w)
  asked-Gates name container mounts (writable ∷ others) w =
      by_answer (approve name (writable ∷ others) keep) (ap (λ ws. approve name ws keep) w)
    where
      keep : List StoredMount
      keep = filter (λ mount. not (is_writable mount)) mounts

      by_answer :
          (o : Outcome E Bool)
          → answer name mounts ≡ o
          → Gates name container
              (some mounts)
              (answered approve slug_later recreate_container container mounts o)
      by_answer (ok true) a = remounted-Gates name container mounts slug_later refl a
      by_answer (ok false) a = declined mounts refl a
      by_answer (throw e) a = not_answered mounts e refl a

  pub read_only_shell_gate-Gates :
      (name slug : Text) (container : Value) (rows : Option (List ContainerRow))
      → Gates name
          (container_of container)
          (read_container_mounts rows slug (container_of container))
          (read_only_shell_gate approve slug_later recreate_container name container slug rows)
  unfolding read_only_shell_gate gated
  read_only_shell_gate-Gates name slug container rows =
      elim (Bool-cases (includes name read_only_gated_tools)) [
        | inr other ↦ rw other (not_covered other)
        | inl covered ↦
            elim (Option-cases (read_container_mounts rows slug (container_of container))) [
              | inl e ↦ rw covered (rw e (unreadable refl))
              | inr (mounts, e) ↦ rw covered (
                  rw e (
                    asked-Gates name (container_of container) mounts (filter is_writable mounts)
                      refl))
            ]
      ]
