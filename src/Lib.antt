-- ===== src/Lib.antt =====
-- Verification of the backup server, the program that plans, queues, runs and watches backups and
-- restores of an Olares node.
--
-- The program keeps Backup, Snapshot and Restore objects in an API server. Requests make and change
-- objects (pkg/modules); controllers react to each change of an object (pkg/controllers) by means of
-- the handlers (pkg/handlers), which read and write objects and keep the cron schedule; a due entry
-- of the schedule makes a Snapshot object, whose reconciliation puts a task into the pool of its
-- owner (pkg/worker), where one task runs at a time.
--
-- Files and what they model:
--   Base: tests, lists, maps, results, integers and bytes, with the functions of Go's strings
--     package that the program calls. The children of Base are used through it, but for Int and
--     Bytes.
--   Worker: pkg/worker/worker.go and entity.go. Types has the pools and their tasks, which are
--     shared objects in a store; Add, Cancel and Life have the calls and the run of a task; Reach
--     has the steps of the server, Invariant what they preserve, Effects, Queued and Stopped what
--     single calls do, Moves and Doomed what becomes of a cancelled task.
--   Schedule: CreateSchedule and RemoveFromSchedule of pkg/handlers/handler_snapshot.go. The cron
--     library is an interface, the record Cron, with its documented laws, the record IsCron; Slots
--     is an instance.
--   CronText: ParseToCron of pkg/util/util.go; Numbers has Atoi and Itoa.
--   Snapshots: pkg/controllers/snapshot_controller.go and the operations of handler_snapshot.go
--     that it uses. Handler has the operations on stored objects, Reconcile the controller, Events
--     its predicates, Retry the loop on conflicts.
--   Backups: Reconcile of pkg/controllers/backup_controller.go, which composes CronText, Schedule,
--     Worker and the handlers.
--   Restores: CreateFunc and UpdateFunc of pkg/controllers/restore_controller.go, with
--     SetRestorePhase of pkg/handlers/handler_restore.go.
--   Plan: the checks of pkg/modules/backup/v1/backup_schedule.go, and the choice of an account of
--     pkg/integration/integration.go. Kept has what they keep of a request, Policies which policies
--     pass, Targets which account is chosen.
--   Tokens: the tokens of the space and of the clouds, pkg/integration/integration.go.
--   Repo: pkg/util/repo/repo.go and GetSuffix of pkg/util/util.go.
--   Pager: GenericPager of pkg/handlers/helper.go.
--   Paths: TrimPathPrefix of pkg/handlers/helper.go with path.Join and path.Clean, and the join of
--     a path with its root in pkg/storage; Places has where a path leads, Inside what the join
--     keeps.
--   BackupRun: RunBackup of pkg/storage/storage_backup.go. Cloud has getIntegrationCloud and
--     buildLocation, Space backupToSpace with the check of the usage of
--     pkg/notify/notify_backups.go, Progress progressCallback, Prepare prepareBackupParams and
--     checkDiskSize, App the wait for an app and its files, Report what updateBackupResult writes,
--     Storing its attempts and UpdateTotalSize, Steps the other steps, Whole the run. Chosen,
--     Room, Rounds, Paced, Reported and Own are about single steps, Completed, Settled and Ends
--     about the run.
--   RestoreRun: RunRestore of pkg/storage/storage_restore.go. Prepare has prepareRestoreParams and
--     checkDiskSize, Steps the loop of the space, execute, readyForRestoreApp and what becomes of
--     the files, Report updateRestoreResult, Whole the run; Completed, Ends and Removed are about
--     the run.
--   BackupUrl: ParseRestoreBackupUrlDetail, ParseBackupUrl and FormatEndpoint of
--     pkg/handlers/helper.go, with GetStorage of pkg/handlers/model.go. Names has SplitPath of
--     pkg/util/string/string.go, whose regular expression is written out, Tags what is read from
--     the tags of a snapshot.
--   Api: requests of pkg/modules/backup/v1/handler.go that change objects. Api has those on
--     backups, snapshots and restores that exist, with Create and UpdatePhase of pkg/handlers,
--     Restoring has addRestore, which composes BackupUrl with CreateRestore, Plans addBackup and
--     update, which compose the checks of Plan with mergeConfig and Create; Stopped, Panics,
--     Accepted and Planned are about what the requests leave.
--
-- Conventions. State is passed explicitly: a call takes the state and gives the state that it
-- leaves, also where it fails. A nil pointer that is followed, a failed type assertion and an
-- index out of range are outcomes of their own (crashed, panicked, or none in Pager). Calls of the
-- API server, of the integration service, of the space and of the clock are arguments: Answers
-- says what they answer during one call, so a statement about all Answers is one about all
-- failures. Texts that are only compared are native strings; texts that are taken apart are lists
-- of bytes. An int or int64 is an integer whose sums wrap where the program can reach the bound
-- (Pager, pred_64 in CronText).
--
-- Bounds and fuel. Itoa takes the number plus one as fuel, and digits are enough for every number
-- (digits-show). The loop on conflicts takes the number of calls that fit into its time as fuel; what
-- is proved of it holds for every number. The loop of a backup to the space and of a restore from it
-- takes a number of rounds: the source has no bound, and a run that uses them up is reported as one
-- that still waits. The poll that stores a result takes the number of its attempts, one each ten
-- seconds for five hours; the theorems hold for every number from one on. Where an app is waited for,
-- the ticks are a list, and its end is a run that still waits. delete_all takes the length of the
-- path, and each step drops a byte of it. All other loops go down a list.
--
-- Concurrency. A call on a pool, a begin and an end of a task are one step each; the steps of Reach
-- come in any order. Two calls that overlap inside one step are not modelled, nor are the locks.
--
-- Not modelled: the options of the backups SDK, the rewriting of the files that an app lists
-- (replaceFilePaths), and the floating point of the margin of the disk and of the part that is
-- done, which are arguments; the rest of the handlers, the listings and the shapes of the answers
-- of the API, notifications, watchers, and the wiring of the server. Of a Snapshot's Extra only
-- the entry "push" is kept, so a change of another entry, or from one unreadable text to another,
-- is no change of the spec in Events. Of a BackupPolicy the time span, which only repeats the time
-- of day, is left out.
pub mod Api
pub mod BackupRun
pub mod BackupUrl
pub mod Backups
pub mod Base
pub mod CronText
pub mod Pager
pub mod Paths
pub mod Plan
pub mod Repo
pub mod RestoreRun
pub mod Restores
pub mod Schedule
pub mod Snapshots
pub mod Tokens
pub mod Worker
