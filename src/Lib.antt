-- ===== src/Lib.antt =====
-- A model of LeetBattle's server: the match engine, in which two players race to solve a coding
-- problem or answer a question, and the scoring of answers by an AI judge.
--
-- The parts and their files.
--   Shared: lists as tables, equality tests, lemmas for every part.
--   Domain: src/server/domain. Types holds the enumerations of types.ts, Errors the errors of
--     errors.ts without their messages, StateMachine the functions of state-machine.ts (transitions,
--     canTransition, assertTransition, shouldApplyRecord, compareWinnerCandidates).
--   Judge/Scoring: src/server/ai-ml/scoring.ts. Official is computeOfficialDuelScores, Criteria
--     normalizeCriterionScores and its neighbours, Duel the two validate functions. The judge's
--     explanation is passed on unread and left out.
--   Judge/Budget: src/server/ai-ml/request-budget.ts, the reservations of requests to the judge, on a
--     table of its own.
--   Store: the PostgreSQL tables of db/migrations as lists of rows (Rows, Evaluations, Json), actions
--     on them (Tx), and rules on what an action changes (Watch, Tables), on what is known of one that
--     has returned (Outcomes, Clock) and of one that writes nothing (Rollback).
--   Match: src/server/match/match-engine.ts, class MatchEngine. A method is a function of the same
--     name from its arguments to an action; its transaction, the argument of sql.begin, ends in _tx.
--     Receipts is reserveCommand and completeCommand, Events appendEvent, Locks the reads at the
--     head of each method, Rooms, Lobby, Problems, Countdown and Rematch the way to a match,
--     Executions and Completion the way of a submission, Results the check of what the runner
--     returns, Finish, Disconnects and Ending the ends of a match, Presence the sessions, Snapshot
--     what a player sees, and Events/Since the log that a player reads. Calls collects the methods
--     that change state, and Lifecycle carries the proof on their histories.
--   Arena: src/server/arena/arena-service.ts, class AiMlArenaService, on the same tables, with
--     src/shared/ai-ml-answer.ts (Answer). Submission is submitAnswer and evaluate, Preparation
--     prepareEvaluationTx, Claims claimEvaluation, Judgment persistSuccess, Failure persistFailure,
--     Endings finalizeSkippedTx and openRematchTx, Deadlines and Recovery the methods that the timers
--     and players call, Material, Telemetry and Commands the helpers. Agreement is the result of
--     openai-judge.ts for a duel. Leases, Calls, Lifecycle and Rounds are about the whole: who may act
--     on an evaluation, and any history of the transactions of both services.
--   Realtime: src/server/realtime. Limits is limits.ts, the rate of commands and the cap on sockets,
--     Heartbeat is heartbeat.ts with the engine for its store, and Tickets the use of a ticket in
--     tickets.ts.
--   Tests: concrete databases and judgments on which the theorems are applied.
--
-- How the parts interact. The engine calls Domain for transitions and errors. It shares the database
-- with the arena service: the engine brings an AI/ML match to its active state, ends it when a player
-- leaves or gives up, and shows the answers and evaluations in snapshots; the arena service takes the
-- answers, has them judged and ends the match. The result of a duel passes from Judge/Scoring through
-- the client to the arena service, which computes the official scores again.
--
-- State. Store.Rows.Db is the database, and an action takes it to a result or an error and the next
-- database. A transaction that throws restores the tables (Tx.begin). Row locks order the
-- transactions, so that one is a step, and an interleaving of players, runners and timers is a list
-- of calls in any order (Calls.run); the separate statements of a method outside a transaction
-- follow one another. A clock reading adds a time from a list, so time never goes back, and it
-- stands still when the list is used up. Identifiers come from a counter.
--
-- An evaluation is three steps: the claim, the call of the judge, and the transaction that keeps the
-- result. The judge is an action, an argument of evaluate, in which others may act on the database; in
-- a history (Arena/Calls) the claim and the result are steps of their own, with any others between
-- them, also results of workers that have lost their claim. The workers of recoverEvaluations take the
-- rows one after another.
--
-- Numbers. Times are microseconds, durations of programs thousandths of a millisecond; a number of
-- the runner is a number of thousandths or unsafe. Identifiers and hashes are numbers, texts of which
-- only the code units count are lists. No loop needs fuel: every loop runs over a list.
--
-- Parameters. The problem catalogs, the random choice, the hashes of node:crypto and the invite
-- token are fields of Match.Config.Engine. The normal form NFC, the hash of payloads and the choice of
-- the anonymous answer A are fields of Arena.Config.Arena. jwtVerify of jose, with the signing key, is an argument in
-- Realtime/Tickets.
--
-- Not modelled: columns that nothing reads (updated_at, completed_at of executions, explanations,
-- hashes of snapshots and rubrics, the provider's answer), the texts of errors, the constraints of the
-- schema beyond the primary keys that the statements name (a participant has a profile, a room has its
-- match), and all else: the attempts of the judge client, the issue of tickets, the realtime servers and
-- their maintenance, history, profiles, the runner, HTTP and the client.
pub mod Shared
pub mod Domain
pub mod Judge
pub mod Store
pub mod Match
pub mod Arena
pub mod Realtime
pub mod Tests
