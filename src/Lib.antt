-- ===== src/Lib.antt =====
-- A verification of the JavaScript services of the dgc REST API: the ledger sync (ledger_sync/), which
-- writes the state of a blockchain to a RethinkDB database, and the REST server (server/), which reads
-- that database, keeps accounts and makes transactions. The ledger sync is told of the changes of a
-- block by a validator, writes each changed entry as a version of a document (a block where it starts,
-- a block where it ends), and then adds the block, undoing the versions of a fork. The server reads a
-- table at the current block, logs users in, and answers requests by transactions that its own
-- batcher signs.
--
-- Prelude (Tests, Lists, Options, Perms) holds the library's names, Boolean tests, lists over the native
-- numbers and permutations. Documents has the records of protos/*.proto as they are stored, and
-- Documents/Structs xformStruct of ledger_sync/db/state.js.
-- Rethink is the interface to a table of RethinkDB: Table, a collection of documents whose order is
-- not fixed (laws up to permutation), and KeyedTable, one row for each primary key. Rethink/Counts has
-- the consequences of the laws, Rethink/Lists an instance of each on lists; Rethink/Sorting is
-- orderBy with r.desc, and an instance.
--
-- LedgerSync:
--   Versions   addBlockState of ledger_sync/db/state.js; Versions/Adding, Versions/Reading, with
--              hasBlock and getTable of server/db/records.js, and Versions/Writing, the writes of a
--              whole block; Versions/Writing/Kept
--   Fork       getForkedDocRemover of ledger_sync/db/blocks.js; Fork/Rollback
--   Ledger     the tables and indexes of server/system/bootstrap_db.js
--   State      addParticipant, ..., addPropertyPage of ledger_sync/db/state.js; State/Synced
--   Blocks     insert and resolveFork of ledger_sync/db/blocks.js; Blocks/Chain
--   Addresses  getProtoName and the page number of ledger_sync/subscriber/deltas.js
--   Queue      deltaQueue of ledger_sync/subscriber/deltas.js; Queue/Order, Queue/Draining
--   Deltas     handle of ledger_sync/subscriber/deltas.js; Deltas/Schedules has its queries as the
--              steps of a relation, in any order
--   Events     getBlock, getChanges, handleEvent, subscribe and start of
--              ledger_sync/subscriber/index.js
--   Samples    a ledger for the tests
-- Server:
--   Users         server/db/users.js with validate, insertTable and updateTable of server/db/index.js;
--                 Users/Inserting, Users/Renaming
--   Auth          server/api/users.js, server/api/auth.js, the errors of server/api/errors.js and the
--                 handlers of server/api/index.js that read the Authorization header; Auth/Login
--   Transactions  encodeHeader and getTxnCreator of server/system/submit_utils.js, the createTxn of
--                 server/transaction/*.js, server/blockchain/batcher.js; Transactions/Payloads has the
--                 actions of server/transaction/proposals.js; Transactions/Batches
--   Matching      sellDGCoinProposal (Matching/Selling) and buyDGCoinProposal (Matching/Buying) of
--                 server/transaction/proposals.js; Matching/Fair, Matching/Mirror
--   Properties    createRecord of server/transaction/records.js and getValue of server/db/records.js;
--                 Properties/Fields, Properties/Creating
--   Submission    submit of server/blockchain/index.js and waitParser of server/api/index.js;
--                 Submission/Waiting
--   Reads         queryWithCurrentBlock of server/db/index.js and getTable; Reads/Current, and
--                 Reads/Handled, from the block that the ledger sync handles to the server's reads, and
--                 Reads/Following, for any number of blocks; Reads/Scheduled, with
--                 Reads/Executing, for the queries of a block in any order, and
--                 Reads/Inserted, for the current block after them
--   Reads/Tables        server/db/tables.js and server/api/tables.js; Tables/Served, Tables/Received
--   Reads/Participants  server/db/participants.js and server/api/participants.js, with the lookup of
--                       server/api/users.js; Participants/Private, Participants/Registered
--   Reads/Records       fetchRecord and listRecords of server/db/records.js; Records/Fetched
--   Reads/Properties    fetchProperty of server/db/records.js; Properties/Latest,
--                       Properties/Found
--   Reads/Retrieve      retrieveRecords of server/db/records.js; Retrieve/Counting,
--                       Retrieve/Objects, Retrieve/Answers, Retrieve/Totals, Retrieve/Complete
--   Reads/Proposals     server/db/proposals.js and server/db/exchanges.js; Proposals/Retrieved
--   RecordCalls   deleteRecords of server/transaction/records.js and the functions of
--                 server/transaction/proposals.js that retrieve records, as the steps of a relation;
--                 RecordCalls/Sending, RecordCalls/Deleting
--   RecordUpdates updateRecords of server/transaction/records.js, as the steps of a relation;
--                 RecordUpdates/Sending, RecordUpdates/Deciding,
--                 RecordUpdates/Racing
--   Registering   server/transaction/participants.js and server/transaction/tables.js;
--                 Registering/Joined, Registering/Sent
--   Requests      initInternalParams, waitParser, authHandler, handle, handleBody and filterQueryParams
--                 of server/api/index.js; Requests/Merging, Requests/Showing
--   Info          the routes /info and /info/mapsApiKey of server/api/index.js
--   Queries       runQuery, queryTable, modifyTable, insertTable and updateTable of server/db/index.js;
--                 Queries/Reported
--   Routes        getEndpoints of server/api/index.js; Routes/Listed
--   Credits       applyDGCoinCredit and transferDGCoinProposal of server/transaction/proposals.js;
--                 Credits/Answered
--   Connections   connect and awaitDatabase of server/db/index.js and ledger_sync/db/index.js, and
--                 awaitServerInfo and submitTxns of server/system/submit_utils.js;
--                 Connections/Retrying
--   Samples       accounts and keys for the tests
--
-- Not in this repository, and so arguments of the definitions: RethinkDB (Table, KeyedTable, Sorting),
-- bcrypt and jsonwebtoken (Crypto), js-schema (Schema), sawtooth-sdk with its protobuf encodings (Sdk),
-- the decoding of protobufjs and sawtooth-sdk (Protos, Decoders), the arithmetic of JavaScript's
-- numbers (Numbers). A failed query is `none` or `rejected`. No definition runs on fuel: every loop is
-- over a list, and a retry is an answer of such a list. Block numbers are below 2 ^ 53 - 1, the number
-- that stands for "no end".
--
-- A query is one step, also where RethinkDB executes it as several operations on documents, and a
-- private key is one that can be decoded: createTxn throws for another, and then nothing is sent.
--
-- Not modelled: HTTP, streams and logging; the start-up code and the constants of the configuration;
-- the loading of the message declarations; the creation of the database; the code of server/db/*.js
-- that stands after a return; lodash's paths into nested objects; keys that are made or encrypted for
-- a client; the transaction processor of processor/, which is written in Rust.
pub mod Prelude
pub mod Rethink
pub mod Documents
pub mod LedgerSync
pub mod Server
