-- ===== src/Process/Uids.antt =====
-- src/subprocess.ts: the numeric identities of the control spawns, as a list of the ids in use.
pub mod Laws
pub mod Children
use dsh_podman.Prelude.{
  ℕ, zero, suc, ◌+◌, ◌-◌, ◌≡◌, Bool, true, false, List, [], ◌∷◌, Option, none, some, if◌then◌else◌,
  not, ◌==◌, any, filter,
}

abbrev pub ptc_uid_min : ℕ
ptc_uid_min = 1001

abbrev pub ptc_uid_max : ℕ
ptc_uid_max = 10000

abbrev pub PtcUidPool : Type 0
PtcUidPool = List ℕ

abbrev pub has_uid : ℕ → PtcUidPool → Bool
has_uid id in_use = any (λ other. other == id) in_use

-- The loop of `allocate` from an id on, for as many ids as are left.
unfoldable pub first_free : ℕ → ℕ → PtcUidPool → Option ℕ
first_free zero id in_use = none
first_free (suc left) id in_use = elim (has_uid id in_use) [
  | true ↦ first_free left (id + 1) in_use
  | false ↦ some id
]

claim : Option ℕ → PtcUidPool → Option (ℕ × PtcUidPool)
claim none in_use = none
claim (some id) in_use = some (id, id ∷ in_use)

-- The id and the pool that holds it, or nothing where `allocate` throws.
unfoldable pub allocate : PtcUidPool → Option (ℕ × PtcUidPool)
unfolding claim
allocate in_use = claim (first_free (ptc_uid_max + 1 - ptc_uid_min) ptc_uid_min in_use) in_use

unfoldable pub release : PtcUidPool → ℕ → PtcUidPool
release in_use id = filter (λ other. not (other == id)) in_use
