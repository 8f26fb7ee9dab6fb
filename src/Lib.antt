-- ===== src/Lib.antt =====
-- Kamacu, the Go server (internal/), in part: terminal sessions of coding agents, what is known of
-- their state, and the services around them.
--
-- A session (internal/session) runs an agent in a pseudo-terminal. Its output goes to a ring, to
-- the attached windows, to an observer (internal/observation) that renders it, and to the status of
-- the agent, which hooks, input and the monitor's verdicts change as well. The monitor
-- (internal/monitor) decides from the observer's snapshots when a model is asked about the screen.
-- Presence (internal/presence) knows what the user looks at, quota (internal/quota) caches upstream
-- usage, rules (internal/notifications) filter notifications, and diff (internal/diff) reads git.
-- The inbox (internal/inbox) keeps the questions that agents, the observer and notifications put to
-- the user, with their answers; it asks the session manager which sessions live, and moves tasks on
-- the board. Artifacts (internal/artifact) stores uploaded previews and their revisions. The reaper
-- (internal/reaper) stops old sessions and removes worktrees, by the gated cleanup that the browser
-- uses too (internal/api/cleanup.go). Settings (internal/settings) expand templates and split
-- arguments.
--
-- Files and source:
--   Observation, Observation/*: `Terminal` of internal/observation/terminal.go. A renderer record
--     stands for the vt10x emulator and the digest; `feed`, `capture`, `resize` and `note_input` are
--     `Feed`, `capture`, `Resize` and `Input`, `evidence_at` and `contains_evidence` the look-ups.
--   Session: the types of internal/session/session.go, codex_status.go and observation.go. The
--     record `Session` has the fields that the modelled operations touch.
--   Session/Bell: `belScanner` of internal/session/agent.go.
--   Session/Codex, Session/Codex/*: internal/session/codex_status.go; `apply_codex_hook` is
--     `ApplyCodexHook`, `codex_screen_status` the reader of a screen, `note_codex_output` the part of
--     the pump that renders output.
--   Session/Agent, Session/Agent/Sticky: `agentStatusLocked`, `noteAgentOutputLocked`, `SetIdle`,
--     `writeInput` and their like in internal/session/session.go, `terminalAgentStatus` in
--     observation.go and `isUserInput` in terminal_input.go.
--   Session/Lifecycle, Session/Lifecycle/*: `pump`, `Attach`, `Detach`, `Resize`, `stop` and
--     `markExited` of internal/session/session.go.
--   Quota, Quota/*: internal/quota/quota.go. `begin` and `finish` are the two halves of `Get`, before
--     and behind the HTTP call, during which the mutex is free; a run interleaves such halves.
--   Presence, Presence/*: `Tracker` of internal/presence/presence.go.
--   Monitor/Screen, Monitor/Schedule, Monitor/Schedule/*: internal/monitor/efficiency.go with `watch`
--     of service.go and the contexts of classifier.go.
--   Rules, Rules/*: `validateExpression` and `evalExpression` of internal/notifications/rules.go.
--   Rules/Outcome, Rules/Outcome/*: `evaluateRuleSet` and `expressionActivity` of rules.go.
--   Notifications/Concurrency, Notifications/Concurrency/*: `parallelNotifications` of
--     internal/notifications/concurrency.go. `check`, `claim` and `return_from` are what a worker does
--     between two points at which others may run; `Run` is an interleaving with its length.
--   Inbox, Inbox/*: internal/inbox. `World` is what the service asks of the program, `Inbox` the
--     tables and the flag; Inbox/Service, Inbox/Answering and Inbox/Observer have the methods of
--     service.go, completion.go, observer.go and `FinishNotification` under their names, Inbox/Writes
--     the kinds of write they consist of, Inbox/Calls the sequences of calls.
--   Cleanup, Cleanup/*: internal/api/cleanup.go. `Machine` stands for git, tmux, the file system and
--     the sessions, `Host` for the tables with it.
--   Reaper, Reaper/*: internal/reaper/reaper.go with `ParseDoneSessionTTL` of
--     internal/settings/validate.go; `tick` is one turn of `Run`.
--   Settings, Settings/*: internal/settings/template.go and tokenize.go and `Slug` of
--     internal/worktree/worktree.go.
--   Artifacts, Artifacts/*: internal/artifact/service.go, its tables in Artifacts and its methods in
--     Artifacts/Receiving, Artifacts/Finalizing and Artifacts/Managing. `receive` and `received` are
--     `Receive` before and behind its copy; Artifacts/Extract is the loop of `extract` over an archive.
--   Diff/Numstat, Diff/Patch, Diff/Patch/Hunks: internal/diff/parse.go.
--   Common, Common/*: lists, maps, texts and UTF-8 as Go's standard library has them.
--   Examples, Examples/*: runs at concrete inputs.
--
-- Conventions. A time is the count of nanoseconds since Go's zero time, and a method reads the
-- clock once; a negative difference reads as zero, which the comparisons in the code do not tell
-- apart from it; where the code counts milliseconds or seconds, so does the model. A mutex makes a
-- method one step. A map is an association list, iterated in one order. A text is its code points,
-- and output is bytes. Regular expressions, the emulator, the ring buffer, JSON, SHA-256 and the
-- upstream's answers are parameters. A table is a list of rows; SQLite runs each statement as
-- written and refuses none but where the model says so, and a call of the inbox or of artifacts
-- gets new UUIDs. Nothing else uses the worktrees during a pass of the reaper. The only fuel is in
-- the reader of input reports: one unit for each byte, and a report has at least one.
--
-- Not modelled: processes, the PTY, tmux and signals; HTTP, websockets and MCP; the SQL of
-- migrations and the queries that only list; the calls of a model; of the inbox the wait, the watcher
-- and what publishes, continues or batches notifications; of artifacts `List`, `Open`, the HTML branch of `extract` and
-- the limit on decompressed bytes; git, beyond what the reaper reads of it.
mod Common
pub mod Observation
pub mod Session
pub mod Quota
pub mod Presence
pub mod Monitor
pub mod Rules
pub mod Diff
pub mod Inbox
pub mod Cleanup
pub mod Reaper
pub mod Settings
pub mod Artifacts
pub mod Notifications
mod Examples
