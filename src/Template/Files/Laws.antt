-- ===== src/Template/Files/Laws.antt =====
-- The names of template files, and what a listing gives back (src/template-files.ts).
use dsh_podman.Prelude.{
  ℕ, ◌≤◌, ◌≡◌, ◌↔◌, refl, subst, sym, inl, inr, Bool, true, false, List, [], ◌∷◌, ◌++◌, some,
  Outcome, ok, throw, ok-injective, >>=-eq-ok, Outcome-cases, arith, All, Bool-cases,
  All-filter_self, Option-cases, map, reverse, length, ltb, not, ◌||◌,
}
use mathlib.Core.Option.{none-ne-some, some-injective}
use mathlib.Core.List.{map-append, reverse-append}
use dsh_podman.Prelude.Sort.{sort-All}
use dsh_podman.Text.{Text, text, is_empty, has_unit, starts_with, to_lower_case, lower_unit}
use dsh_podman.Text.Laws.{starts_with-append}
use dsh_podman.Value.{str}
use dsh_podman.Template.Files.{
  template_extension, max_template_bytes, ProjectTemplateFile, FsError, missing, failed, ends_with,
  has_yaml_suffix, has_separator, with_suffix, template_file_name, FileInfo, DirEntry,
  template_directory, read_project_template, listed, listed_all, is_template,
  list_project_templates, of_call,
}

-- A basename that is not hidden and has a YAML suffix.
pub record IsTemplateName (file : Text) : Type 0 where
  pub plain : has_separator file ≡ false
  pub visible : starts_with file (text ".") ≡ false
  pub suffixed : has_yaml_suffix file ≡ true

has_unit-append : (c : ℕ) (s t : Text) → has_unit c (s ++ t) ≡ (has_unit c s || has_unit c t)
unfolding has_unit
has_unit-append c [] t = refl
has_unit-append c (x ∷ s) t = ground (arith, has_unit-append c s t)

has_separator-append :
    (s t : Text)
    → has_separator s ≡ false
    → has_separator t ≡ false
    → has_separator (s ++ t) ≡ false
unfolding has_separator
has_separator-append s t h k = ground (
  arith,
  has_unit-append b'/' s t,
  has_unit-append 92 s t,
  has_unit-append 0 s t,
  has_unit-append 10 s t,
  has_unit-append 13 s t,
)

ends_with-append : (s t : Text) → ends_with (s ++ t) t ≡ true
unfolding ends_with
ends_with-append s t = rw (reverse-append s t) (starts_with-append (reverse t) (reverse s))

lower-append : (s : Text) → to_lower_case (s ++ template_extension) ≡ to_lower_case s ++ text ".yml"
unfolding to_lower_case lower_unit text
lower-append s = map-append lower_unit s template_extension

has_yaml_suffix_of_extension : (s : Text) → has_yaml_suffix (s ++ template_extension) ≡ true
unfolding has_yaml_suffix
has_yaml_suffix_of_extension s =
    rw (lower-append s) (rw (ends_with-append (to_lower_case s) (text ".yml")) refl)

not_empty_of_suffix : (s : Text) → has_yaml_suffix s ≡ true → is_empty s ≡ false
unfolding has_yaml_suffix ends_with to_lower_case starts_with text
not_empty_of_suffix [] h = cc
not_empty_of_suffix (x ∷ s) h = refl

visible-append :
    (s t : Text)
    → is_empty s ≡ false
    → starts_with s (text ".") ≡ false
    → starts_with (s ++ t) (text ".") ≡ false
unfolding starts_with text
visible-append [] t n h = cc
visible-append (x ∷ s) t n h = h

pub template_file_name-eq-ok :
    (name file : Text)
    → template_file_name (str name) ≡ ok file
    → (is_empty name ≡ false)
      × (length name ≤ 200)
      × (has_separator name ≡ false)
      × (starts_with name (text ".") ≡ false)
      × (with_suffix name ≡ file)
unfolding template_file_name
template_file_name-eq-ok name file e =
    (ground arith, ground arith, ground arith, ground arith, ground arith)

template_file_name_of :
    (name : Text)
    → IsTemplateName name
    → length name ≤ 200
    → template_file_name (str name) ≡ ok name
unfolding template_file_name with_suffix
template_file_name_of name h l = let filled = not_empty_of_suffix name h.suffixed in ground arith

extension_plain : has_separator template_extension ≡ false
unfolding has_separator has_unit text
extension_plain = refl

with_suffix-IsTemplateName :
    (name : Text)
    → is_empty name ≡ false
    → has_separator name ≡ false
    → starts_with name (text ".") ≡ false
    → IsTemplateName (with_suffix name)
unfolding with_suffix
with_suffix-IsTemplateName name n p v = elim (Bool-cases (has_yaml_suffix name)) [
  | inl y ↦ rw y (record { plain = p; visible = v; suffixed = y })
  | inr y ↦ rw y (record {
    plain = has_separator-append name template_extension p extension_plain;
    visible = visible-append name template_extension n v;
    suffixed = has_yaml_suffix_of_extension name;
  })
]

-- The name of a file that a template is saved to or read from is a basename, is not hidden, and has a
-- YAML suffix; the file is found under its own name exactly when this has 200 units at most.
pub template_file_name-IsTemplateName :
    (name file : Text)
    → template_file_name (str name) ≡ ok file
    → IsTemplateName file × ((template_file_name (str file) ≡ ok file) ↔ (length file ≤ 200))
template_file_name-IsTemplateName name file e =
    let (filled, _, plain, visible, same) = template_file_name-eq-ok name file e in
    let is_name =
      subst IsTemplateName same (with_suffix-IsTemplateName name filled plain visible) in
    (is_name, (λ h. (template_file_name-eq-ok file file h).1, template_file_name_of file is_name))

module _ (join : Text → Text → Text) (stat : Text → Outcome FsError FileInfo)
    (read_file : Text → Outcome FsError Text) (project_path : Text) where
  -- A listed file can be read under its own name, or its name is one that reading refuses.
  abbrev pub IsReadBack : ProjectTemplateFile → Type 0
  IsReadBack file =
      (read_project_template join stat read_file project_path (str file.name) ≡ ok file)
      ↔ ((has_separator file.name ≡ false) × (length file.name ≤ 200))

  abbrev IsShown : Text → Type 0
  IsShown name = (starts_with name (text ".") ≡ false) × (has_yaml_suffix name ≡ true)

  abbrev path_of : Text → Text
  path_of name = join (template_directory join project_path) name

  -- What reading does with a path that is found.
  read_of_calls :
      (name : Text) (info : FileInfo) (yaml : Text)
      → template_file_name (str name) ≡ ok name
      → stat (path_of name) ≡ ok info
      → (not info.is_file || ltb max_template_bytes info.size) ≡ false
      → read_file (path_of name) ≡ ok yaml
      → read_project_template join stat read_file project_path (str name)
        ≡ ok (record { name = name; path = path_of name; yaml = yaml })
  unfolding read_project_template of_call
  read_of_calls name info yaml n s i y = rw n (rw s (ground arith))

  listed-eq-some :
      (name : Text) {file : ProjectTemplateFile}
      → listed join stat read_file (template_directory join project_path) name ≡ some file
      → (info : FileInfo) × (yaml : Text) × (stat (path_of name) ≡ ok info)
        × ((not info.is_file || ltb max_template_bytes info.size) ≡ false)
        × (read_file (path_of name) ≡ ok yaml)
        × (record { name = name; path = path_of name; yaml = yaml } ≡ file)
  unfolding listed
  listed-eq-some name e = elim (Outcome-cases (stat (path_of name))) [
    | inr (error, s) ↦ absurd (none-ne-some _ (rw (s, listed) at e))
    | inl (info, s) ↦ elim (Bool-cases (not info.is_file || ltb max_template_bytes info.size)) [
      | inl i ↦ absurd (none-ne-some _ (rw (s, listed, i) at e))
      | inr i ↦ elim (Outcome-cases (read_file (path_of name))) [
        | inr (error, y) ↦ absurd (none-ne-some _ (rw (s, listed, i, y) at e))
        | inl (yaml, y) ↦ (info, yaml, s, i, y, some-injective _ _ (rw (s, listed, i, y) at e))
      ]
    ]
  ]

  read-eq-ok :
      (name : Text) {file : ProjectTemplateFile}
      → read_project_template join stat read_file project_path (str name) ≡ ok file
      → (given : Text) × (template_file_name (str name) ≡ ok given)
  unfolding read_project_template
  read-eq-ok name e =
      let (given, n, _) = >>=-eq-ok (template_file_name (str name)) _ e in (given, n)

  listed-IsReadBack :
      (name : Text) (file : ProjectTemplateFile)
      → IsShown name
      → listed join stat read_file (template_directory join project_path) name ≡ some file
      → IsReadBack file
  listed-IsReadBack name file (visible, suffixed) e =
      let (info, yaml, s, i, y, same) = listed-eq-some name e in
      subst IsReadBack same (
        λ r.
            let (given, n) = read-eq-ok name r in
            let (_, short, plain, _, _) = template_file_name-eq-ok name given n in (plain, short),
        λ (plain, short).
            read_of_calls name info yaml
              (template_file_name_of name
                (record { plain = plain; visible = visible; suffixed = suffixed }) short)
              s i y,
      )

  listed_all-IsReadBack :
      (names : List Text)
      → All IsShown names
      → All IsReadBack (listed_all join stat read_file (template_directory join project_path) names)
  unfolding listed_all
  listed_all-IsReadBack [] h = tt
  listed_all-IsReadBack (name ∷ names) (shown, h) =
      elim (Option-cases (listed join stat read_file (template_directory join project_path) name)) [
        | inl e ↦ rw e (listed_all-IsReadBack names h)
        | inr (file, e) ↦ rw e (listed-IsReadBack name file shown e, listed_all-IsReadBack names h)
      ]

  IsShown-of_template :
      (entries : List DirEntry)
      → All (λ entry. is_template entry ≡ true) entries
      → All IsShown (map (λ entry. entry.name) entries)
  IsShown-of_template [] h = tt
  IsShown-of_template (entry ∷ entries) (t, h) =
      ((ground arith, ground arith), IsShown-of_template entries h)

  -- Each file of a listing is read back, under its own name, as it was listed, exactly when this name
  -- has no separator and 200 units at most. A project with no template directory has an empty
  -- listing.
  pub list_project_templates-IsReadBack :
      (locale_le : Text → Text → Bool) (entries : Outcome FsError (List DirEntry))
      {files : List ProjectTemplateFile}
      → list_project_templates join stat read_file locale_le project_path entries ≡ ok files
      → All IsReadBack files × (entries ≡ throw missing → files ≡ [])
  unfolding list_project_templates
  list_project_templates-IsReadBack locale_le (throw missing) e =
      (subst (All IsReadBack) (ok-injective e) tt, λ _. sym (ok-injective e))
  list_project_templates-IsReadBack locale_le (throw failed) e = cc
  list_project_templates-IsReadBack locale_le (ok entries) e = (
    subst (All IsReadBack) (ok-injective e) (
        listed_all-IsReadBack _ (
          sort-All locale_le IsShown _
            (IsShown-of_template _ (All-filter_self is_template entries)))),
    λ k. cc,
  )
