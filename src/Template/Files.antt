-- ===== src/Template/Files.antt =====
-- src/template-files.ts: the template files of a project, listed and read on the host.
-- The file system of the host is an argument: `stat` and `read_file` by path, the entries of the
-- directory, `join` of node:path, and `locale_le`, the order of `localeCompare`.
pub mod Laws
use dsh_podman.Prelude.{
  ℕ, Bool, true, false, List, [], ◌∷◌, ◌++◌, Option, none, some, Outcome, ok, throw, if◌then◌else◌,
  not, ◌&&◌, ◌||◌, ◌>>=◌, ◌>>◌, throw_if, filter, map, reverse, length, ltb,
}
use dsh_podman.Prelude.Sort.{sort}
use dsh_podman.Text.{Text, text, is_empty, has_unit, starts_with, to_lower_case}
use dsh_podman.Value.{Value, str}

abbrev pub template_directory_name : Text
template_directory_name = text ".dsh-podman"

abbrev pub template_extension : Text
template_extension = text ".yml"

abbrev pub max_template_bytes : ℕ
max_template_bytes = 1048576

pub record ProjectTemplateFile : Type 0 where
  pub name : Text
  pub path : Text
  pub yaml : Text

-- The errors of Node's calls: a path that is not there, or any other.
pub data FsError : Type 0 where
  missing failed : FsError

pub data TemplateFileError : Type 0 where
  name_required name_too_long no_plain_basename : TemplateFileError
  not_found unreadable no_regular_file too_large : TemplateFileError
  cannot_list : TemplateFileError
  read_error : FsError → TemplateFileError

pub ends_with : Text → Text → Bool
ends_with s p = starts_with (reverse s) (reverse p)

-- `/\.(?:ya?ml)$/i.test(name)`
unfoldable pub has_yaml_suffix : Text → Bool
unfolding ends_with
has_yaml_suffix name =
    ends_with (to_lower_case name) (text ".yml") || ends_with (to_lower_case name) (text ".yaml")

-- `/[/\\\0\n\r]/.test(name)`
unfoldable pub has_separator : Text → Bool
has_separator name =
    has_unit b'/' name
    || (has_unit 92 name || (has_unit 0 name || (has_unit 10 name || has_unit 13 name)))

pub with_suffix : Text → Text
with_suffix name = if has_yaml_suffix name then name else name ++ template_extension

-- The names `.` and `..` start with a dot.
unfoldable pub template_file_name : Value → Outcome TemplateFileError Text
unfolding with_suffix
template_file_name (str name) = do
  throw_if (is_empty name) name_required
  throw_if (ltb 200 (length name)) name_too_long
  throw_if (has_separator name) no_plain_basename
  throw_if (starts_with name (text ".")) no_plain_basename
  ok (with_suffix name)
template_file_name name = throw name_required

pub record FileInfo : Type 0 where
  pub is_file : Bool
  pub size : ℕ

pub record DirEntry : Type 0 where
  pub name : Text
  pub is_file : Bool

stat_error : FsError → TemplateFileError
stat_error missing = not_found
stat_error failed = unreadable

of_call {ℓ} :
    {A : Type ℓ} → (FsError → TemplateFileError) → Outcome FsError A → Outcome TemplateFileError A
of_call error (ok a) = ok a
of_call error (throw e) = throw (error e)

abbrev collect : Option ProjectTemplateFile → List ProjectTemplateFile → List ProjectTemplateFile
collect none files = files
collect (some file) files = file ∷ files

abbrev pub is_template : DirEntry → Bool
is_template entry =
    entry.is_file && (not (starts_with entry.name (text ".")) && has_yaml_suffix entry.name)

unfoldable pub template_directory : (Text → Text → Text) → Text → Text
template_directory join project_path = join project_path template_directory_name

module _ (join : Text → Text → Text) (stat : Text → Outcome FsError FileInfo)
    (read_file : Text → Outcome FsError Text) where
  unfoldable pub read_project_template :
      Text → Value → Outcome TemplateFileError ProjectTemplateFile
  unfolding template_file_name of_call stat_error template_directory
  read_project_template project_path name = do
    file ← template_file_name name
    let path = join (template_directory join project_path) file
    info ← of_call stat_error (stat path)
    throw_if (not info.is_file) no_regular_file
    throw_if (ltb max_template_bytes info.size) too_large
    yaml ← of_call read_error (read_file path)
    ok (record { name = file; path = path; yaml = yaml })

  -- What the loop's `try` pushes for a name, if anything.
  listed : Text → Text → Option ProjectTemplateFile
  listed directory name = elim (stat (join directory name)) [
    | throw e ↦ none
    | ok info ↦
        if not info.is_file || ltb max_template_bytes info.size
        then none
        else elim (read_file (join directory name)) [
          | throw e ↦ none
          | ok yaml ↦ some (record { name = name; path = join directory name; yaml = yaml })
        ]
  ]

  listed_all : Text → List Text → List ProjectTemplateFile
  unfolding listed
  listed_all directory [] = []
  listed_all directory (name ∷ names) = collect (listed directory name) (listed_all directory names)

  unfoldable pub list_project_templates :
      (Text → Text → Bool)
      → Text
      → Outcome FsError (List DirEntry)
      → Outcome TemplateFileError (List ProjectTemplateFile)
  unfolding listed_all template_directory
  list_project_templates locale_le project_path (throw missing) = ok []
  list_project_templates locale_le project_path (throw failed) = throw cannot_list
  list_project_templates locale_le project_path (ok entries) = ok (
      listed_all (template_directory join project_path)
        (sort locale_le (map (λ entry. entry.name) (filter is_template entries))))
