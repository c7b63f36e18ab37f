-- ===== src/Tests/Documents.antt =====
-- A container template document, as the YAML parser gives it, and the template that it holds.
use dsh_podman.Prelude.{List, [], ◌∷◌, none, some, false}
use dsh_podman.Text.{text}
use dsh_podman.Value.{Value, num, str, arr, obj, nil, cons, end, field}
use dsh_podman.Template.{ubuntu, project, secret, read_only, ContainerTemplate}

abbrev pub given_packages : List Value
given_packages = str (text "nano") ∷ str (text "git") ∷ str (text "htop") ∷ str (text "nano") ∷ []

abbrev pub document : Value
document = obj (
    field (text "version") (num 1) (
      field (text "kind") (str (text "dsh-podman/container-template")) (
        field (text "spec")
          (obj (
            field (text "imageTemplate")
              (obj (
                field (text "base") (str (text "ubuntu")) (
                  field (text "packages")
                    (arr (
                      cons (str (text "nano")) (
                        cons (str (text "git"))
                          (cons (str (text "htop")) (cons (str (text "nano")) nil)))))
                    end)))
              (field (text "env")
                (obj (
                  field (text "EDITOR") (str (text "nano"))
                    (field (text "GIT_AUTHOR_NAME") (str (text "Ada")) end)))
                (field (text "secretEnv") (obj (field (text "TOKEN") (str (text "token")) end)) (
                  field (text "mounts")
                    (arr (
                      cons
                        (obj (
                          field (text "kind") (str (text "project"))
                            (field (text "project") (str (text "work/./app")) end)))
                        (cons
                          (obj (
                            field (text "kind") (str (text "secret")) (
                              field (text "secret") (str (text "deploy"))
                                (field (text "destination") (str (text "/run/key")) end))))
                          nil)))
                    (field (text "paths") (arr (cons (str (text "/opt/bin")) nil)) (
                      field (text "ports")
                        (arr (
                          cons
                            (obj (
                              field (text "container") (num 80) (
                                field (text "protocol") (str (text "tcp"))
                                  (field (text "host") (num 8080) end))))
                            nil))
                        end)))))))
          end)))

abbrev pub template : ContainerTemplate
template = record {
  spec = record {
    image = none;
    image_template = some (record { base = ubuntu; packages = text "htop" ∷ text "nano" ∷ [] });
    env = record { inherits = false; entries = (text "EDITOR", text "nano") ∷ [] };
    secret_env = record { inherits = false; entries = (text "TOKEN", text "token") ∷ [] };
    mounts = project (text "work/app") read_only ∷ secret (text "deploy") (text "/run/key") ∷ [];
    paths = text "/opt/bin" ∷ [];
    ports = record { container = 80; host = some 8080 } ∷ [];
  };
}
