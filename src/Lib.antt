-- ===== src/Lib.antt =====
-- Pact negotiates freight by telephone: a mandate says what may be agreed, carriers are called for
-- quotes, the engine judges each offer, ranks the market, and books the winner once a dispatcher has
-- confirmed the terms that were read. This library models the part of it that decides.
--
-- Parts, and the files that model them:
--   Domain/Types, Domain/Seed      lib/domain/types.ts, seed.ts: the records, and the first snapshot.
--   Domain/Policy                  lib/domain/policy.ts: evaluateOffer, latestOffers, rankOffers,
--                                  winner, assertOfferBookable, mayCloseOnQuote.
--   Domain/Commitment              lib/domain/commitment.ts: the table of transitions.
--   Domain/Confirmation            lib/domain/confirmation.ts: normalize, hasDisqualifier,
--                                  isUnequivocalConfirmation, over lists of code points.
--   Domain/Transcripts             lib/domain/transcripts.ts.
--   Store/Environment, Action      what a mutation takes from the runtime, and its body: a computation
--                                  on a draft of the snapshot that may throw.
--   Store/Ledger, Booking, Offers, Calls, Escalations, Transcripts, Configuration
--                                  lib/store/base.ts: the methods, one function for each.
--   Store/Mutation                 lib/store/base.ts and memory.ts: the optimistic version check.
--   Store/Session                  a sequence of reads and mutations, as the services run them.
--   Services/Judge                 lib/services/confirmation-judge.ts.
--   Services/Operations            lib/services/operations.ts: startSingleQuoteCall, startRenegotiation.
--   Services/Market                the same file: startMarketScan, bookWinningOffer, autoBookIfSettled.
--   Services/Handoff               the same file: takeOver, simulateInboundException.
--   Services/Verification          lib/services/verification.ts: sendCommitmentRecap, and its child
--                                  Recording: processRecording.
--   Services/Jobs                  lib/jobs/recordings.ts: the queue of recordings.
--   Tools                          lib/mcp/tools.ts: the tools that the voice agent calls, and their child
--                                  Answers: the arguments, the answers and their texts.
--   Server                         lib/server/rate-limit.ts, auth.ts and relay-auth.ts.
--   Worker                         workers/realtime-relay/src/index.ts: the messages of its sockets, its
--                                  checks, and Relay: handleTwilioStream as a state machine.
--   Api                            app/api: the status callbacks, the relay events, the inbound calls,
--                                  the takeovers, the actions of the operator, the configuration, the
--                                  recordings, the telephone documents, the login and the tools;
--                                  lib/webhooks/idempotency.ts and lib/server/http.ts.
--   Examples                       concrete runs.
--
-- State. A snapshot (OperationSnapshot) holds all that is kept of an operation. A body works on a
-- draft; `mutate` reads the stored snapshot, runs the body, and writes if the version is still the one
-- it read, for at most six attempts, the number in the source. Between a read and its write other
-- writers may do anything that the argument `others` says. Clocks and random values are functions of
-- a tick that counts their uses.
--
-- The relay worker is a record of what the closures of handleTwilioStream share, and `handle` takes one
-- event, a call of a listener or an end of something awaited, to the next record and a list of effects.
-- A run is any sequence of events (Trace), so every interleaving of the two sockets and of the start
-- is one. A service is a sequence of mutations of the store (Session), a handler of the API one that
-- also keeps the receipts in memory. Where a service works on several calls side by side, the store
-- takes their mutations in turn, as its queue does.
--
-- Amounts and revisions are natural numbers, which the program only compares, increments and prints.
-- Recursion is structural everywhere; the only fuel is the number of attempts, which is the program's
-- own, and an exhausted one is the error that the program throws.
--
-- Parameters: the hash, the clocks and identifiers, localeCompare, NFD and lower-casing, the
-- classifier, the verified payload of a token, the comparison of bytes, the keyed hash and base64, the
-- senders and diallers of the voice, message and mail providers, the download and the transcription of a
-- recording, the tables of receipts and of jobs in the database, and what the checks of signatures and
-- schemas return.
--
-- Not modelled: the requests of the providers, the routes that only show what is stored, the pages and
-- the dashboard, the database store and the processing of its jobs, the parsing of arguments by zod, the
-- WhatsApp call service, and the loss of precision of JavaScript numbers. In the relay a listener does not throw: a
-- send on a socket that is closing is taken as done.
pub mod Prelude
pub mod Domain
pub mod Store
pub mod Services
pub mod Tools
pub mod Server
pub mod Worker
pub mod Api
pub mod Examples
