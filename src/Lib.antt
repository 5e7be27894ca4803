-- ===== src/Lib.antt =====
-- Verification of the core of dibra: the configuration tool's controller, its deployment daemon and two
-- of its agent's modules. Paths are those of the repository.
--
-- The controller reads a playbook, expands the static imports of its tasks, resolves the variables of
-- each host, runs the tasks, and runs the handlers that changed tasks notify. The agent runs modules on
-- a target and answers with a result envelope, which the controller normalizes. The daemon unpacks a
-- deployment, checks it, and runs the controller on each of its playbooks.
--
-- Which file models which part:
--   Value: the dynamic values of JSON and YAML; a Go map is a list of fields, which `put` and `get` read
--     by the first field of a name.
--   Tasks: `Task` of internal/config/config.go, with the fields that the controller reads, and
--     `normalizeWhenValue`.
--   ImportTasks: internal/config/import_tasks.go, `ExpandImportTasks`.
--   IncludeTasks: `includeTasksForLoop` and `loadIncludeTasks` of internal/controller/runner.go.
--   Vars: internal/vars/vars.go and context.go; Vars.Merge is `MergeMaps`, Vars.Resolve is
--     `ResolveHostVars` with `mergeGroupVars`, Vars.Resolve.Context is `BuildContext`.
--   Handlers: internal/controller/handlers.go; the index and `queue` in Handlers, `applyChangedWhen` and
--     the notifications in Handlers.Notify, and in Handlers.Flush the loops of `flushHandlers` in
--     internal/controller/runner.go, over a parameter for the run of one handler.
--   Execution: `ResolveState` of internal/execution/request.go and `NormalizeResult` of result.go.
--   Paths: path.Clean, path.Join, path.Dir and the splitting at slashes, on the bytes of a path.
--   Deploy: internal/deploy; Names has the two tests of names in archive.go, Extract the
--     extraction, Manifest the search for the manifest and its tests; Project has
--     `validateRebootPlacement` of project.go and `executeProject` of daemon.go, and Daemon a poll of the
--     task server.
--   LineInFile: internal/modules/lineinfile/executor.go, the lines of a file as `present` and `absent`
--     leave them, and `Execute` over a record of operations on the target; texts are lists of bytes, and
--     a compiled expression is a function.
--   BlockInFile: internal/modules/blockinfile/executor.go, a block between markers in the lines of a
--     file, `Execute` over a record of operations on the target, and these over the calls of the
--     operating system.
--   Loops: the loop variables of internal/controller/runner.go, `mergeContext`, `buildLoopInfo`,
--     `buildLoopVars` and `attachLoopResult`; Loops.Resolve is `resolveLoopSpec`, Loops.Sequence the
--     sequence generator, with a Go int as the number of its 64 bits.
--   Inventory: internal/inventory/inventory.go, `EffectiveVarsForHost` with the order of the groups, over
--     the depths that `computeGroupDepths` returns; Inventory.Cycles is `detectCycles`, and
--     Inventory.Groups has the parents of the groups and the groups of a host.
--   Redaction: internal/modules/registry/redaction.go.
--   Prelude: lists, maps, results, sorting and tests; Examples: runs at concrete inputs.
--
-- Errors are values of a type for each part, with what the message names. Go's maps have no order, and
-- the code sorts where the order matters; the model sorts there too.
--
-- Fuel: `flush_handlers` has two rounds more than there are handlers, since every round but the last
-- runs a handler that has not run before; where a handler's run does not end, neither does the flush.
-- `expand_import_tasks` has as many levels as the bound of the
-- source allows, so its fuel is the bound. `decimal` has its number, and `replace_from` and
-- `replace_secrets` have the length of the text. The two searches of the inventory have more levels than
-- there are groups, since every level adds a group.
--
-- Parameters, which stand for code outside the repository or for the target: rendering by the template
-- engine, evaluation of conditions, reading and decoding of files, the working directory, the run of a
-- handler and of a playbook, compiled expressions, the reading and printing of numbers, the operations of the
-- file system, the ZIP reader and the task server, the registry's table of sensitive paths.
--
-- Not modelled: transport and processes (internal/ssh, internal/builder, internal/agent), secrets,
-- the template engine, the modules other than lineinfile and blockinfile, the reading of inventories,
-- the run of a single task, the pause of a loop, and the daemon's timer.
mod Prelude
pub mod Value
pub mod Vars
pub mod Tasks
pub mod Paths
pub mod Handlers
pub mod ImportTasks
pub mod Execution
pub mod Deploy
pub mod Loops
pub mod IncludeTasks
pub mod Inventory
pub mod Redaction
pub mod LineInFile
pub mod BlockInFile
pub mod Examples
