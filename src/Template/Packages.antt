-- ===== src/Template/Packages.antt =====
-- src/container-template.ts: the packages of the base images, and canonical package lists.
pub mod Laws
pub mod Canonical
use dsh_podman.Prelude.{
  Bool, true, false, List, [], ◌∷◌, ◌++◌, ok, throw, if◌then◌else◌, not, ◌>>=◌, ◌>>◌,
}
use dsh_podman.Prelude.Sort.{sort}
use dsh_podman.Text.{Text, text, includes, text_le}
use dsh_podman.Value.{Value, str}
use dsh_podman.Template.{BaseImage, archlinux, ubuntu, alpine, Checked, fail, invalid_package_name}
use dsh_podman.Template.Names.{valid_package_name}

unfoldable pub base_image_packages : BaseImage → List Text
unfolding text
base_image_packages archlinux =
    text "base-devel"
    ∷ text "ca-certificates"
    ∷ text "curl"
    ∷ text "diffutils"
    ∷ text "fd"
    ∷ text "git"
    ∷ text "inetutils"
    ∷ text "jq"
    ∷ text "less"
    ∷ text "openbsd-netcat"
    ∷ text "openssh"
    ∷ text "patch"
    ∷ text "procps-ng"
    ∷ text "python"
    ∷ text "ripgrep"
    ∷ text "tree"
    ∷ text "unzip"
    ∷ text "wget"
    ∷ text "zstd"
    ∷ []
base_image_packages ubuntu =
    text "build-essential"
    ∷ text "ca-certificates"
    ∷ text "curl"
    ∷ text "diffutils"
    ∷ text "fd-find"
    ∷ text "git"
    ∷ text "jq"
    ∷ text "less"
    ∷ text "netcat-openbsd"
    ∷ text "openssh-client"
    ∷ text "patch"
    ∷ text "procps"
    ∷ text "python3"
    ∷ text "ripgrep"
    ∷ text "tree"
    ∷ text "unzip"
    ∷ text "wget"
    ∷ text "zstd"
    ∷ []
base_image_packages alpine =
    text "bash"
    ∷ text "build-base"
    ∷ text "ca-certificates"
    ∷ text "curl"
    ∷ text "diffutils"
    ∷ text "fd"
    ∷ text "git"
    ∷ text "jq"
    ∷ text "less"
    ∷ text "openssh-client"
    ∷ text "patch"
    ∷ text "procps"
    ∷ text "python3"
    ∷ text "ripgrep"
    ∷ text "tree"
    ∷ text "unzip"
    ∷ text "wget"
    ∷ text "zstd"
    ∷ []

-- `set.add(a)`
unfoldable pub add : Text → List Text → List Text
add a set = if includes a set then set else set ++ a ∷ []

invalid_package : Value → Checked (List Text)
invalid_package value = fail (invalid_package_name value) (text "spec.imageTemplate.packages")

-- The loop over the given packages; `result` is the set so far, in the order of insertion.
pub collect : List Text → List Text → List Value → Checked (List Text)
unfolding invalid_package
collect builtins result [] = ok result
collect builtins result (str value ∷ rest) =
    let kept =
      collect builtins (if includes value builtins then result else add value result) rest in
    if valid_package_name value then kept else invalid_package (str value)
collect builtins result (value ∷ rest) = invalid_package value

unfoldable pub canonical_packages : BaseImage → List Value → Checked (List Text)
unfolding collect add sort base_image_packages
canonical_packages base packages = do
  result ← collect (base_image_packages base) [] packages
  ok (sort text_le result)
