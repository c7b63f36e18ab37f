-- ===== src/Process/Uids/Children.antt =====
-- The control spawns that run, and the identities that they hold (src/subprocess.ts).
use mathlib.Core.Option.{some-injective, none-ne-some}
use dsh_podman.Prelude.{
  ℕ, ◌≤◌, ◌<◌, ◌≡◌, refl, sym, ap, ◌∙◌, subst, inl, inr, Option-cases, Bool, true, false, not, ◌&&◌,
  ◌==◌, List, [], ◌∷◌, ◌++◌, Option, none, some, arith, length, All, All-append, All-append_left,
  All-append_right, &&_parts,
}
use dsh_podman.Process.Uids.{
  ptc_uid_min, ptc_uid_max, PtcUidPool, has_uid, first_free, claim, allocate, release,
}
use dsh_podman.Process.Uids.Laws.{IsLowest, first_free-some, first_free-none, pigeonhole}

-- The pool, and the ids of the children that have not settled, the newest first.
pub record Children : Type 0 where
  pub pool : PtcUidPool
  pub running : List ℕ

-- A control spawn that gets an id, and a child whose exec settles, however it ends.
pub data Move : Children → Children → Type 0 where
  spawned :
      {c : Children} {id : ℕ} {pool : PtcUidPool}
      → allocate c.pool ≡ some (id, pool)
      → Move c (record { pool = pool; running = id ∷ c.running })
  settled :
      {pool : PtcUidPool} (newer older : List ℕ) (id : ℕ)
      → Move
          (record { pool = pool; running = newer ++ id ∷ older })
          (record { pool = release pool id; running = newer ++ older })

pub data Reach : Children → Type 0 where
  at_first : Reach (record { pool = []; running = [] })
  moved : {c d : Children} → Reach c → Move c d → Reach d

pub distinct : List ℕ → Bool
distinct [] = true
distinct (id ∷ ids) = not (has_uid id ids) && distinct ids

abbrev pub InRange : ℕ → Type 0
InRange id = (ptc_uid_min ≤ id) × (id ≤ ptc_uid_max)

pub record IsPrivate (c : Children) : Type 0 where
  pub same : c.pool ≡ c.running
  pub apart : distinct c.running ≡ true
  pub within : All InRange c.running

has_uid-append :
    (id : ℕ) (xs : List ℕ) (y : ℕ) (ys : List ℕ)
    → has_uid id (xs ++ y ∷ ys) ≡ false
    → (has_uid id (xs ++ ys) ≡ false) × ((y == id) ≡ false)
has_uid-append id [] y ys h = ground arith
has_uid-append id (x ∷ xs) y ys h = ground (arith, has_uid-append id xs y ys)

release_absent : (ids : List ℕ) (id : ℕ) → has_uid id ids ≡ false → release ids id ≡ ids
unfolding release
release_absent [] id h = refl
release_absent (x ∷ ids) id h = ground (arith, release_absent ids id)

release_middle :
    (newer older : List ℕ) (id : ℕ)
    → distinct (newer ++ id ∷ older) ≡ true
    → release (newer ++ id ∷ older) id ≡ newer ++ older
unfolding release distinct
release_middle [] older id h = ground (arith, release_absent older id)
release_middle (x ∷ newer) older id h =
    let (p, q) = &&_parts (not (has_uid x (newer ++ id ∷ older))) _ h in
    let (r, differs) = has_uid-append x newer id older (ground (arith, p)) in
    let kept : (x == id) ≡ false = ground (arith, differs) in
    rw kept (ap (λ ids. x ∷ ids) (release_middle newer older id q))

distinct_middle :
    (newer older : List ℕ) (id : ℕ)
    → distinct (newer ++ id ∷ older) ≡ true
    → distinct (newer ++ older) ≡ true
unfolding distinct
distinct_middle [] older id h = ground arith
distinct_middle (x ∷ newer) older id h =
    let (p, q) = &&_parts (not (has_uid x (newer ++ id ∷ older))) _ h in
    let (r, differs) = has_uid-append x newer id older (ground (arith, p)) in
    rw (r, distinct_middle newer older id q) refl

allocated :
    (pool : PtcUidPool) (id : ℕ) (next : PtcUidPool)
    → allocate pool ≡ some (id, next)
    → IsLowest ptc_uid_min 9000 pool id × (next ≡ id ∷ pool)
unfolding allocate
allocated pool id next e = go (first_free 9000 ptc_uid_min pool) refl e
  where
    go :
        (o : Option ℕ)
        → first_free 9000 ptc_uid_min pool ≡ o
        → claim o pool ≡ some (id, next)
        → IsLowest ptc_uid_min 9000 pool id × (next ≡ id ∷ pool)
    go none f k = absurd (none-ne-some (id, next) (unfold claim in k))
    go (some found) f k =
        let pair = some-injective _ _ (unfold claim in k) in
        let same = ap (λ r. r.0) pair in
        (
          subst (IsLowest ptc_uid_min 9000 pool) same
              (first_free-some 9000 ptc_uid_min pool found f),
          sym (ap (λ r. r.1) pair) ∙ ap (λ first. first ∷ pool) same,
        )

unallocated : (pool : PtcUidPool) → allocate pool ≡ none → 9000 ≤ length pool
unfolding allocate
unallocated pool e = go (first_free 9000 ptc_uid_min pool) refl e
  where
    go :
        (o : Option ℕ)
        → first_free 9000 ptc_uid_min pool ≡ o
        → claim o pool ≡ none
        → 9000 ≤ length pool
    go none f k = pigeonhole 9000 ptc_uid_min pool (first_free-none 9000 ptc_uid_min pool f)
    go (some found) f k = absurd (none-ne-some _ (sym (unfold claim in k)))

move-IsPrivate : {c d : Children} → Move c d → IsPrivate c → IsPrivate d
move-IsPrivate (spawned {c} {id} {pool} e) h =
    let (lowest, next) = allocated c.pool id pool e in
    let fresh : has_uid id c.running ≡ false =
      subst (λ ids. has_uid id ids ≡ false) h.same lowest.free in
    record {
      same = next ∙ ap (λ ids. id ∷ ids) h.same;
      apart = unfold distinct in rw (fresh, h.apart) refl;
      within = ((lowest.from, omega (arith, lowest.below)), h.within);
    }
move-IsPrivate (settled {pool} newer older id) h = record {
  same = ap (λ ids. release ids id) h.same ∙ release_middle newer older id h.apart;
  apart = distinct_middle newer older id h.apart;
  within =
      All-append InRange newer older (All-append_left InRange newer (id ∷ older) h.within)
        ((All-append_right InRange newer (id ∷ older) h.within).1);
}

-- However control spawns start and settle, the pool is the list of the ids of the children that
-- run, no two of which share an id, and each id is between 1001 and 10000.
pub Reach-IsPrivate : {c : Children} → Reach c → IsPrivate c
Reach-IsPrivate at_first = record { same = refl; apart = unfold distinct in refl; within = tt }
Reach-IsPrivate (moved r m) = move-IsPrivate m (Reach-IsPrivate r)

-- As long as fewer than 9000 control spawns run, a new one gets an id, the lowest that no running
-- child has.
pub allocate_free :
    {c : Children}
    → Reach c
    → length c.running < 9000
    → (id : ℕ) × (allocate c.pool ≡ some (id, id ∷ c.pool))
      × (has_uid id c.running ≡ false)
      × ((other : ℕ) → ptc_uid_min ≤ other → other < id → has_uid other c.running ≡ true)
allocate_free {c} r few = elim (Option-cases (allocate c.pool)) [
  | inl e ↦ absurd (omega (arith, few, unallocated c.pool e, ap length p.same))
  | inr ((id, next), e) ↦
      let (lowest, same) = allocated c.pool id next e in
      (
        id,
        e ∙ ap (λ pool. some (id, pool)) same,
        subst (λ ids. has_uid id ids ≡ false) p.same lowest.free,
        λ other from below.
            subst (λ ids. has_uid other ids ≡ true) p.same (lowest.taken other from below),
      )
]
  where
    p : IsPrivate c
    p = Reach-IsPrivate r
