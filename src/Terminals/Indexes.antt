-- ===== src/Terminals/Indexes.antt =====
-- The two maps of the terminals are inverse to each other (src/terminal-sessions.ts).
use mathlib.Core.Option.{some-injective, none-ne-some}
use dsh_podman.Prelude.{
  ℕ, ◌<◌, ◌≡◌, refl, sym, ap, ◌∙◌, inl, inr, Bool-cases, false, ◌==◌, ==_iff, [], ◌∷◌, Option, none,
  some, if◌then◌else◌, All, arith,
}
use dsh_podman.Text.{Text, ◌===◌}
use dsh_podman.Text.Laws.{===_iff, ===_refl, ===_comm}
use dsh_podman.Binding.Cache.{Cache, cached, drop_key}
use dsh_podman.Binding.Cache.Laws.{cached-filter}
use dsh_podman.Terminals.{
  TerminalOpenOptions, Ids, key_of, drop_id, TerminalSessions, dropped, drop_terminal, set_entry,
  publish, terminal_key,
}

pub cached-drop_key :
    (key other : Text) (entries : Cache ℕ)
    → cached other (drop_key key entries) ≡ (if other === key then none else cached other entries)
cached-drop_key key other entries = cached-filter (λ k. k === key) other entries

pub cached-set_entry :
    (key other : Text) (id : ℕ) (entries : Cache ℕ)
    → cached other (set_entry key id entries)
      ≡ (if other === key then some id else cached other entries)
cached-set_entry key other id [] = rw (===_comm key other) refl
cached-set_entry key other id ((k, i) ∷ entries) = elim (Bool-cases (k === key)) [
  | inl e ↦
      let same : k ≡ key = (===_iff k key).0 e in
      elim (Bool-cases (other === key)) [
        | inl f ↦ rw (e, same, ===_comm key other, f) refl
        | inr f ↦ rw (e, same, ===_comm key other, f) refl
      ]
  | inr e ↦ elim (Bool-cases (k === other)) [
    | inl f ↦
        let apart : (other === key) ≡ false =
          ap (λ t. t === key) (sym ((===_iff k other).0 f)) ∙ e in
        rw (e, f, apart) refl
    | inr f ↦ rw (e, f) (cached-set_entry key other id entries)
  ]
]

pub key_of-drop_id :
    (id other : ℕ) (ids : Ids)
    → key_of other (drop_id id ids) ≡ (if other == id then none else key_of other ids)
key_of-drop_id id other [] = elim (Bool-cases (other == id)) [
  | inl e ↦ rw e refl
  | inr e ↦ rw e refl
]
key_of-drop_id id other ((i, key) ∷ ids) = ground (arith, key_of-drop_id id other ids)

-- A key stands for an id exactly if the id stands for the key, and ids are given once.
pub record Indexed (s : TerminalSessions) : Type 0 where
  pub there : (key : Text) (id : ℕ) → cached key s.entries ≡ some id → key_of id s.by_id ≡ some key
  pub back : (id : ℕ) (key : Text) → key_of id s.by_id ≡ some key → cached key s.entries ≡ some id
  pub current : All (λ e. cached e.0 s.entries ≡ some e.1) s.entries
  pub fresh : (id : ℕ) (key : Text) → key_of id s.by_id ≡ some key → id < s.next

-- An entry that is cached under another key is not lost with a key.
others_current :
    (key : Text) (entries listed : Cache ℕ)
    → All (λ e. cached e.0 entries ≡ some e.1) listed
    → All (λ e. cached e.0 (drop_key key entries) ≡ some e.1) (drop_key key listed)
others_current key entries [] h = tt
others_current key entries ((k, id) ∷ listed) (p, h) = elim (Bool-cases (k === key)) [
  | inl e ↦ rw e (others_current key entries listed h)
  | inr e ↦ rw e (cached-drop_key key k entries ∙ rw e p, others_current key entries listed h)
]

module _ (key : Text) (id : ℕ) (s : TerminalSessions) (h : Indexed s)
    (held : cached key s.entries ≡ some id) where
  private_id :
      (k : Text) (i : ℕ) → cached k s.entries ≡ some i → (k === key) ≡ false → (i == id) ≡ false
  private_id k i e differs = elim (Bool-cases (i == id)) [
    | inl same ↦
        let same_key : k ≡ key = some-injective _ _ (
          sym (h.there k i e)
          ∙ ap (λ n. key_of n s.by_id) ((==_iff i id).0 same)
          ∙ h.there key id held) in
        absurd (ground (arith, sym differs ∙ (===_iff k key).1 same_key))
    | inr other ↦ other
  ]

  dropped-Indexed : Indexed (dropped (some id) key s)
  dropped-Indexed = record {
    there = λ k i e. elim (Bool-cases (k === key)) [
      | inl same ↦
          absurd (none-ne-some i (sym (cached-drop_key key k s.entries ∙ rw same refl) ∙ e))
      | inr differs ↦
          let before : cached k s.entries ≡ some i =
            sym (cached-drop_key key k s.entries ∙ rw differs refl) ∙ e in
          key_of-drop_id id i s.by_id ∙ rw (private_id k i before differs) (h.there k i before)
    ];
    back = λ i k e. elim (Bool-cases (i == id)) [
      | inl same ↦ absurd (none-ne-some k (sym (key_of-drop_id id i s.by_id ∙ rw same refl) ∙ e))
      | inr differs ↦
          let before : key_of i s.by_id ≡ some k =
            sym (key_of-drop_id id i s.by_id ∙ rw differs refl) ∙ e in
          cached-drop_key key k s.entries ∙ kept i k before differs
    ];
    current = others_current key s.entries s.entries h.current;
    fresh = λ i k e. elim (Bool-cases (i == id)) [
      | inl same ↦ absurd (none-ne-some k (sym (key_of-drop_id id i s.by_id ∙ rw same refl) ∙ e))
      | inr differs ↦ h.fresh i k (sym (key_of-drop_id id i s.by_id ∙ rw differs refl) ∙ e)
    ];
  }
    where
      kept :
          (i : ℕ) (k : Text)
          → key_of i s.by_id ≡ some k
          → (i == id) ≡ false
          → (if k === key then none else cached k s.entries) ≡ some i
      kept i k before differs = elim (Bool-cases (k === key)) [
        | inl same ↦
            let same_id : i ≡ id = some-injective _ _ (
              sym (h.back i k before)
              ∙ ap (λ t. cached t s.entries) ((===_iff k key).0 same)
              ∙ held) in
            absurd (ground (arith, same_id, differs))
        | inr other ↦ rw other (h.back i k before)
      ]

pub drop_terminal-Indexed :
    (key : Text) (s : TerminalSessions) → Indexed s → Indexed (drop_terminal key s)
unfolding drop_terminal
drop_terminal-Indexed key s h = by_cache (cached key s.entries) refl
  where
    by_cache : (o : Option ℕ) → cached key s.entries ≡ o → Indexed (dropped o key s)
    by_cache none e = h
    by_cache (some id) e = dropped-Indexed key id s h e

-- Entries listed before a key that none of them has stay cached.
set_entry-current :
    (key : Text) (id : ℕ) (entries listed : Cache ℕ)
    → cached key entries ≡ none
    → All (λ e. cached e.0 entries ≡ some e.1) listed
    → All (λ e. cached e.0 (set_entry key id entries) ≡ some e.1) (set_entry key id listed)
set_entry-current key id entries [] n h =
    (cached-set_entry key key id entries ∙ rw (===_refl key) refl, tt)
set_entry-current key id entries ((k, i) ∷ listed) n (p, h) = elim (Bool-cases (k === key)) [
  | inl e ↦
      absurd (none-ne-some i (sym n ∙ ap (λ t. cached t entries) (sym ((===_iff k key).0 e)) ∙ p))
  | inr e ↦
      rw e (cached-set_entry key k id entries ∙ rw e p, set_entry-current key id entries listed n h)
]

pub publish-Indexed :
    (options : TerminalOpenOptions) (shell title : Text) (now : ℕ) (s : TerminalSessions)
    → cached (terminal_key options) s.entries ≡ none
    → Indexed s
    → Indexed (publish options shell title now s)
unfolding publish
publish-Indexed options shell title now s n h = record {
  there = λ k i e. elim (Bool-cases (k === terminal_key options)) [
    | inl same ↦
        let same_id : s.next ≡ i =
          some-injective _ _
            (sym (cached-set_entry (terminal_key options) k s.next s.entries ∙ rw same refl) ∙ e) in
        new_key i k same_id ((===_iff k (terminal_key options)).0 same)
    | inr differs ↦
        let before : cached k s.entries ≡ some i =
          sym (cached-set_entry (terminal_key options) k s.next s.entries ∙ rw differs refl) ∙ e in
        let older : (s.next == i) ≡ false = ground (arith, h.fresh i k (h.there k i before)) in
        rw older (h.there k i before)
  ];
  back = λ i k e. elim (Bool-cases (s.next == i)) [
    | inl same ↦
        let next : s.next ≡ i = (==_iff s.next i).0 same in
        let same_key : terminal_key options ≡ k =
          some-injective _ _ (sym (new_key i (terminal_key options) next refl) ∙ e) in
        cached-set_entry (terminal_key options) k s.next s.entries
        ∙ rw ((===_iff k (terminal_key options)).1 (sym same_key)) (ap some next)
    | inr differs ↦
        let before = older_key i k differs e in
        cached-set_entry (terminal_key options) k s.next s.entries
        ∙ rw (other_key i k before) (h.back i k before)
  ];
  current = set_entry-current (terminal_key options) s.next s.entries s.entries n h.current;
  fresh = λ i k e. elim (Bool-cases (s.next == i)) [
    | inl same ↦ ground (arith, (==_iff s.next i).0 same)
    | inr differs ↦ omega (arith, h.fresh i k (older_key i k differs e))
  ];
}
  where
    older_key :
        (i : ℕ) (k : Text)
        → (s.next == i) ≡ false
        → key_of i ((s.next, terminal_key options) ∷ s.by_id) ≡ some k
        → key_of i s.by_id ≡ some k
    older_key i k differs e = rw differs at e

    other_key :
        (i : ℕ) (k : Text) → key_of i s.by_id ≡ some k → (k === terminal_key options) ≡ false
    other_key i k before = elim (Bool-cases (k === terminal_key options)) [
      | inl same ↦ absurd (
          none-ne-some i (
            sym n
            ∙ ap (λ t. cached t s.entries) (sym ((===_iff k (terminal_key options)).0 same))
            ∙ h.back i k before))
      | inr other ↦ other
    ]

    new_key :
        (i : ℕ) (k : Text)
        → s.next ≡ i
        → k ≡ terminal_key options
        → key_of i ((s.next, terminal_key options) ∷ s.by_id) ≡ some k
    new_key i k same_id same = rw ((==_iff s.next i).1 same_id) (ap some (sym same))
