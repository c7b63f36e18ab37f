-- ===== src/Lib.antt =====
-- The container logic of the dsh-podman plugin: what the browser panel, the model tools and the
-- settings card share, and the processes, terminals and bindings that the plugin keeps. The
-- program's parts and where they are modelled:
--
-- - src/container-template.ts, the container template format, in Template and its children:
--     Template: the types TemplateMount, TemplatePort, ContainerTemplateSpec, EffectiveImage, the
--       errors (TemplateError with its path) and `Checked`, the result of a function that may
--       throw.
--     Template.Names: the patterns of package names, secret names and image ids, by hand.
--     Template.Packages: BASE_IMAGE_PACKAGES, canonicalPackages.
--     Template.Paths: cleanAbsolutePath, normalizeProjectPath.
--     Template.Fields: ownEntries, rejectUnknown, stringValue, nonEmptyString, envKey, secretName,
--       stringMap, parseList.
--     Template.Items: parseMount, parseMountMode, parsePort, parsePath.
--     Template.Validate: validateTemplate, withoutGitIdentity.
--     Template.Image: effectiveImage, templateExportImage, templateImagePlan.
--     Template.Naming: sanitizedTemplateName, templateImageId, templateImageIdFromDigest.
--     Template.Requirements: templateRequirements.
--     Template.MountInputs: templateMountInputs, mountInput, withForcedProjectMount.
--     Template.Export: exportContainerTemplate, orderedStringMap, exportMountMode,
--       orderedTemplateMounts.
--     Template.Files: src/template-files.ts, templateFileName and the listing and reading of the
--       template files of a project.
-- - src/approval.ts, the policy that runs before each tool call, in Approval:
--     Approval.Reasons: the types of src/approval-reasons.ts.
--     Approval.Mounts: mountFact and mountDestinationsReason.
--     Approval.Facts: reasonFact.
--     Approval.Tools: the tools of src/tool-defs.ts, with what decides on their approval, and the
--       sets of tools of src/approval.ts.
--     Approval.Policy: preExecutePolicy and what it calls. Its children are its laws: ReadOnly
--       (with the gate of Mount.ReadOnly in place), Asks, Operator (by the lists of
--       docs/usage.md), Prompts, and Rule, which they share.
-- - the paths of src/guest-rpc.ts in GuestPath.
-- - src/project-path.ts, project paths against the projects root, in ProjectPath.
-- - src/mount-enums.ts in Mount.Enums, src/mount-order.ts in Mount.Order, and the gate of
--   src/read-only-shell.ts in Mount.ReadOnly; src/mount-input.ts in Mount.Input.
-- - src/container-env.ts in Env.Defaults and src/env-rows.ts in Env.Rows.
-- - src/publish-port.ts in PublishPort and src/version-compat.ts in Version.
-- - src/output-reader.ts, the bounded tail of a process's output and its spill file, in Output
--   (Output.Laws: the tail; Output.Runs: whole runs of a reader, and their description by the
--   stream).
-- - src/subprocess.ts, in Process and its children:
--     Process.Uids: PtcUidPool; Process.Uids.Children: the control spawns that hold its ids.
--     Process.Spawn: the checks of spawn and its start request, with globCwd and remoteArgv of
--       src/guest-rpc.ts.
--     Process.Exec: one exec. The variables that the closures of spawn share are the record Exec
--       of Process.Exec.State, what reaches it (the binding, the messages, errors and end of the
--       stream, a termination, the timer and the drains of the pipes) is Event, and each handler
--       is a function that `step` selects. Settles, Liveness, Backpressure, Kills and Readers are
--       its laws.
-- - src/workspace-binding.ts, in Binding and its children:
--     Binding.Paths: workspaceSlug, projectNameForPath, containingWorkspace, projectMountCovers.
--     Binding.Cache: CONTAINER_MUTATIONS, forgetContainer, forgetWorkspace, invalidateAfter.
--     Binding.Task, Binding.Resolver: WorkspaceResolver. A call of it is a function from a Session
--       (the two maps of cached promises, the world, and the calls made so far) to a result and a
--       Session.
-- - src/terminal-sessions.ts in Terminals (Terminals.Indexes: the two maps; Terminals.Runs,
--   Terminals.Kept, Terminals.Lost, Terminals.Reopened and Terminals.Overlaps: whole runs of calls), and src/fs-key.ts and src/fs-guard.ts in Fs.
-- - Segments: the loop over the segments of a path that src/container-template.ts and
--   src/project-path.ts both write out.
-- - Text, Value, Dict: JavaScript strings (lists of UTF-16 code units), parsed YAML values and the
--   arguments of calls, and objects used as maps, with what plain objects inherit from
--   Object.prototype.
-- - Prelude: shared lists, tests, the result of a call that may throw, and the stable sort.
--
-- How state and failure are modelled: a thrown error is `throw`, a returned value `ok`. The loop
-- of templateExportImage is `walk`, recursion on fuel: `length images + 2` rounds, one for each
-- listed image, one for an id that is not listed and one to spare, are enough. The row ids of the
-- environment editor are a counter that is passed on. The read-only gate takes what the control
-- plane lists, what the user answers, how the workspace resolves after that and how the control
-- plane recreates a container as arguments, of which the last three may fail, and returns its
-- decision with the request that it sent.
--
-- An exec records what it does outside in `effects`; a write to a pipe takes as an argument
-- whether the pipe was full, and `waiting` holds the listeners that wait for a drain. remoteArgv
-- is recursion on fuel, one round for each argument and one more, since each of its calls has
-- fewer arguments.
--
-- The calls of a resolver run one after another, so a cached promise is one that has settled. The
-- orchestrator and the guest agents are a parameter, `Plane`, which answers each call from a world
-- and leaves another; nothing is assumed of its answers.
--
-- A terminal entry is an object that two maps share: it stands once in `objects`, under its
-- terminal id, a number where the code has a random UUID. What a guest terminal answers, how its
-- opening goes and the time are arguments. A call of prepare is two steps, prepare_start up to its
-- first await and prepare_finish once all that it awaits is there; a run of calls may have other
-- calls between them, and other calls of prepare for the same tab.
--
-- The policy returns a verdict: to go on (`next`), a denial, or a question, each with the fact
-- from which its text is rendered. The facts of the session are given. What the gate answers and
-- what the reader of a template's summary gives, an error included, are arguments; the laws of a
-- read-only session put the modelled gate in its place.
--
-- Code that is not in the repository is a parameter: `number` is the JavaScript function Number on
-- strings, kept where it gives an integer at or above 0 (in Version, on digits); `sha256` is the
-- digest of the Web Crypto API; a record `Builtins` holds String, Number and resolve of node:path,
-- and `join` is its join; `stat`, `read_file` and `locale_le` are the host's file system and
-- localeCompare; `to_lower_case` in Env.Rows is that of strings. The YAML parser is not modelled:
-- validation starts from the value that it returns. Objects list their keys in the order of
-- insertion here; JavaScript moves keys that read as array indices to the front.
--
-- Not modelled: rendering a template as YAML text (renderContainerTemplate and its helpers), the
-- text of approval reasons and the summary of a template before it is loaded, the relay of stdin
-- and of the control channel of a process, the emulated screens of terminals, the routes, tools
-- and file system access, which are I/O over the control plane, the React panel, the generated
-- gRPC bindings, and the programs written in Go.
pub mod Prelude
pub mod Text
pub mod Segments
pub mod ProjectPath
pub mod Value
pub mod Dict
pub mod PublishPort
pub mod Mount
pub mod Env
pub mod Template
pub mod Version
pub mod Output
pub mod Process
pub mod Binding
pub mod Fs
pub mod Terminals
pub mod GuestPath
pub mod Approval
pub mod Tests
