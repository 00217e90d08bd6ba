-- ===== src/Lib.antt =====
-- Metagenda: the extensions that keep a coding agent at work.
--
-- The program is a set of extensions of one agent session. Each keeps a small state, changes it on the
-- agent's commands and on the events of the host, and appends it to the session log, from which it is
-- read back after a restart. The parts modelled here are the ones that decide what work there is and
-- what state survives:
--
-- `Attempt`: pi/extensions/shared/job-attempt.ts. `decide_attempt_event` is `decideAttemptEvent`, with
-- the schemas as Boolean tests (`event_ok`, `snapshot_ok`, ...) over values of the declared shape. The
-- file's comment asks its caller to look up the receipt and to record the decision in one
-- transaction; `Attempt.Journal` is that caller: a journal of a snapshot and a log, `deliver` for one
-- transaction, and `Reached` for every run. `is_uuid` stands for the schema library's `Schema.UUID`.
-- `Todo`: pi/extensions/todo/state.ts. `Types` has the data, `Parse` has `parseTodoAction`,
-- `Transition` has `transitionTodoState`, `Wake` has `nextDeferredReminderAt` and
-- `wakeDueDeferredTodos`, `Format` has the listing and the detail. `date_parse` stands for
-- `Date.parse`. `to_iso` is `toISOString`, which throws a RangeError beyond 8.64e15 ms: a reminder
-- that late comes only from a corrupted log, and the model writes it out. The schema decoders of the
-- stored state are not modelled.
-- `Loop`: pi/extensions/classified-workflows/loop.ts. `Command` has the parser of `/loop`, `Schedule`
-- the next run, the advance and the two migrations, `Store` the stored form, `Format` the status line.
-- `random_int` stands for node:crypto's `randomInt`. Times may be negative, as in the source.
-- `Goal`: pi/extensions/classified-workflows/goal.ts. `Command` and `Evaluation` have `/goal` and the
-- evaluator's answer (`json_parse` stands for `JSON.parse`), `Store` the stored form, `Session` what
-- is read from the session log: the todos that `Todo` stores there, summaries and tokens. `Checks` has
-- a goal over a sequence of evaluations.
-- `Compaction`: pi/extensions/safe-compaction/state.ts and index.ts. `Decode` has the stored form and
-- the restoring, `Transition` and `Overflow` the pure functions, `Session` the handlers with the three
-- variables of the extension, the session log and what is sent; `Reached` has every order of events.
-- The log is only appended to: the host's navigation between its branches, which no handler of this
-- extension listens to, is no event of the model.
-- `Questions`: pi/extensions/questions/state.ts. `Action` has `applyQuestionAction` and
-- `pendingQuestions`, over question IDs that are not negative. The decoder, the repair of misrouted
-- answers and the search for a repeated question are not modelled.
-- `Rpc`: pi/extensions/lsp/json-rpc.ts. `Frame` has a round of `#drainFrames` and the frame that `#send`
-- writes, `Link` has `#send`, `#flushWrites` and `#failAll`, `Dispatch` has `request` with its timer
-- and its interruption, `notify`, `#dispatch` and `#handleServerRequest`, `Connection` has
-- `#handleData` and the loop of `#drainFrames`, and `Runs` every order of input, calls, timers and
-- stream events. `Host` holds the limits and the parts that are not of this repository: JSON with
-- UTF-8, and the answers of the output stream's `write`. What the connection calls back is recorded
-- in `events`.
-- `Capability`: capability-circuit.ts in pi/extensions/classified-workflows, capability-state.ts and
-- continuation-pause.ts in pi/extensions/shared. `Circuit` and `Pause` have their functions, `Session`
-- the handlers of pi/extensions/classified-workflows/index.ts as far as they touch the circuit and the
-- pause, and `Restarts` every order of them. Times are not negative and safe integers.
-- `Tokens`: pi/extensions/classified-workflows/token-cap.ts. `Cap` has `capProviderOutputTokens`,
-- `assertExecutableWorkflowBudget` and `workflowChildTokenLimit`; `stringify` stands for
-- `JSON.stringify` and `to_number` for `Number` of a text. `Child` has the handler of
-- pi/extensions/classified-workflows/index.ts that caps a child's requests, over any sequence of them;
-- that the provider keeps within what a request was capped to is a hypothesis there.
-- `Backlog`: pi/extensions/shared/canonical-backlog.ts. `Requirements` has
-- `backlogRequirementsFromText`, whose loop takes the text's length as fuel, since a round takes a
-- character at least, and `Snapshot` has `decodeCanonicalBacklogSnapshot`; `is_absolute` and
-- `normalize` stand for node:path's.
-- `Base`: Boolean tests, lists and integers over the native numbers, UTF-16 texts, JSON values,
-- bounded texts, searches, decimal digits, partial computations, stable sorting, reversed lists and
-- ISO dates.
--
-- The parts meet in the session log: `Goal.Session` reads the todo states and the compaction summaries
-- that other extensions append, and an event of `Compaction` appends a state to it.
--
-- Numbers that the source bounds by `Number.isSafeInteger` keep that bound; the others are unbounded
-- where the source computes with doubles, which agrees with it below 2^53. A text is the list of its
-- UTF-16 units. Loops over the log run over its reverse by structural recursion. Three loops take
-- fuel: `cut_from`, above; `drain`, the loop of `#drainFrames`, which has one round more than the buffer
-- has bytes, where each round takes a frame of at least four bytes out of it; and `decimal`, which has
-- a round for every digit of a number below 10^20.
--
-- Not modelled: processes, sockets, files, SQLite, timers, rendering and the wiring to the host; the
-- classification of shell commands; the control plane; the normalization
-- of backlogs from their sources.
pub mod Attempt
pub mod Backlog
pub mod Base
pub mod Capability
pub mod Compaction
pub mod Goal
pub mod Loop
pub mod Questions
pub mod Rpc
pub mod Todo
pub mod Tokens
