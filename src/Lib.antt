-- ===== src/Lib.antt =====
-- Thimble keeps secrets: each namespace (an application and an environment) is a text in dotenv
-- format, encrypted by the age program to the recipients that the manifest lists. This library
-- models the packages below internal/ that decide what is stored, who may read it, and where it
-- is copied to.
--
-- The parts. The command line and the web interface call internal/store, which keeps a manifest,
-- a bundle for each namespace and a file of origins (how each value came to be). An edit loads
-- the manifest's entry, decrypts and parses the bundle (internal/dotenv), and commits it: under a
-- lock it compares the version on the disk with the one it loaded, writes the bundle, the origins
-- and the manifest, and restores the first two when a later write fails. Where a policy file is
-- present, a new recipient goes through internal/quorum: a preparation writes a challenge for each
-- operator, operators sign by decrypting theirs, and Verify counts the signatures.
-- internal/audit keeps a ledger of what was done. internal/peer copies the store to other leaders
-- behind each command that changes it, and keeps what became of each contact with them.
-- internal/storecatalog finds the store's directory, and internal/passphrase makes up the values
-- that the web interface generates.
--
-- The files. Base and its children hold the shared types, tests, lists, texts and maps. Errors has
-- the errors as one data type and the result of a function that can fail.
-- - Dotenv: internal/dotenv/dotenv.go (Parse is parse, Encode is encode, QuoteValue is quote_value).
-- - Store/Validate: internal/store/validate.go. Store/Manifest: manifest.go, with envFrom and
--   mergeInto of store.go. Store/Bundle: crypt.go, and the reads and writes of the files.
-- - Store/Commit: commitEnv of store.go and commitEnvWithOrigins of origins_rewrite.go. Store/Edit:
--   Find, ReadEnv, rewriteEnv and rewriteEnvWithOrigins. Store/Secrets: origins_secrets.go.
-- - Store/Access: Init, AddRecipient, RemoveRecipient, Verify (as attest). Store/Rotate: rotate.go.
--   Store/Gate: quorum_gate.go and quorum_sign.go.
-- - Quorum/Policy and Quorum/Toml: internal/quorum/policy.go. Quorum/Message: canonical.go.
--   Quorum/Meta: meta.go. Quorum/Protocol: prepare.go and sign.go, and the steps of verify.go whose
--   loop and counts are Quorum/Verify.
-- - Peer: internal/peer/peer.go; Peer/File: peers_toml.go; Peer/Health: state.go; Peer/Push: push.go;
--   Peer/Ping: heartbeat.go; Peer/Network: what these take from outside. Peer/Health/View is the
--   abstract map of peers' health that pushes and pings are compared with.
-- - Age: internal/age/age.go, the start of the age program.
-- - Catalog: internal/storecatalog, on the path functions of Catalog/Paths. Passphrase:
--   internal/passphrase.
-- - Web: the sessions of internal/web/server.go, cookie.go and rotation.go; Web/Host:
--   host_guard.go; Web/Secret: the routes of server.go and server_secret.go that change the store;
--   Web/Serve: the mux behind the guard; Web/Rotation: RunIdleRotation and, beside it,
--   watchManualRotate of internal/cli/run_web_signal_unix.go, as the steps of their loops.
--   Web/Command: commands.go, and the shell that reads what it writes, which Web/Command/Words
--   describes for texts without NUL: it has no aliases, and refuses a reserved word as the command.
-- - Cli: internal/cli/shell_guard.go and the guard of run_exec.go; Cli/Arguments and Cli/Exec:
--   run_exec.go; Cli/Dispatch: dispatch of cli.go, with peer_push_hook.go; Cli/Selection:
--   store_selection.go; Cli/Main: Run of cli.go, down to the switch of dispatchCommand.
-- - Cli/Basic: run_basic.go, run_get.go and the secretInput of io.go; Cli/Secrets: run_secret.go and
--   the rest of io.go; Cli/Recipient: run_recipient.go; Cli/Inspect: run_verify.go and run_audit.go;
--   Cli/Peers: run_peer.go; Cli/Heartbeat: run_peer_status.go. Cli/Terminal is the monad in which
--   they are written, and Cli/Flags what they use of flag.FlagSet.
-- - Doctor: internal/doctor/check_peers.go, with the results of doctor.go.
-- - Audit and Audit/Ledger: internal/audit and internal/store/audit_hook.go. Audit/File: Append and
--   Read, on the text of the ledger's file.
--
-- The state. World is the store's files, by their path below the store's root, with the ledger and
-- the notices printed. An operation is a function of the world, to a result or an error and the
-- world behind it. Bytes are lists of numbers, a Go map is a list of entries, and JSON files are
-- what json.Unmarshal makes of them: missing, corrupt, or a value. A write replaces a file as a
-- whole or fails; `faults` lists which of the writes and locks to come fail. What a lock guards
-- runs as one step, so concurrent writers are the commits of several edits in a row, each with the
-- version that its edit loaded. Versions wrap around at 2 ^ 64, as uint64 does. age, SHA-256, the
-- random source, the clock and the identity file are the fields of Outside, numbered by use where
-- the answers vary. Every loop is a recursion on the list or the text it reads, except the printing
-- of a number, whose fuel is one more than the number.
-- Peer/Health's Disk is the world of internal/peer: its two files, what it printed, and the faults
-- of the writes to come; Catalog's Tree is the directories and manifests of the catalog; Web's
-- Server holds the world of the store it serves. Texts are folded to lower case by a parameter
-- where the code calls strings.ToLower, since that is Unicode's; strconv.Quote is written out for
-- ASCII, and its treatment of other runs of bytes is a parameter. Pings that run at once are pings
-- in turn, since a ping changes nothing here.
--
-- The health file keeps each name and each error as encoding/json writes and reads it, with U+FFFD
-- in the place of each byte that is not UTF-8 (Base/Utf8, Peer/Health/Json).
--
-- A command's Session is a World, a Disk and what was printed on the two ends of the terminal. The
-- push behind a command prints to the terminal's stderr. `peer join` looks for bundles at a list of
-- paths, which stands for the paths that filepath.Glob's pattern matches.
--
-- Not modelled: the doctor's other checks, the commands web and doctor and those on the catalog of
-- stores (Cli/Main has them as parameters, commands that may do anything), the pages that the web interface renders, its route
-- that selects a store, the walk of the catalog over its directories, the modes of files other
-- than identities, and the texts of errors outside internal/peer. The age program of a command is
-- the Outside that the configuration and the resolved path give; Age says which program that is
-- and how it is started.
pub mod Base
pub mod Errors
pub mod Outside
pub mod Age
pub mod Dotenv
pub mod Audit
pub mod World
pub mod Quorum
pub mod Store
pub mod Peer
pub mod Passphrase
pub mod Catalog
pub mod Web
pub mod Doctor
pub mod Cli
pub mod Tests
