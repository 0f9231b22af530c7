-- ===== src/Lib.antt =====
-- Verification of the service that generates songs: a Go web application with a SQLite store, a
-- background worker and a client of two serverless GPU endpoints.
--
-- The program's parts, and how they interact. The server (internal/server) takes requests and writes
-- accounts, sessions, jobs and songs through the store (internal/store/store.go). The worker
-- (internal/worker/worker.go) is the only part that calls the endpoints: it claims queued jobs, posts
-- them through the client (internal/runpod/runpod.go), polls them, stores the finished song and marks
-- the job. A job's state moves by compare-and-set in the store, so the store's statements and the
-- worker's order of calls together decide what is billed. Before a YuE2 job is queued the server may
-- have its score re-keyed by the transposer (internal/abc/transpose.go).
--
-- Which file models which part.
-- - Store.Rows: the records of the six tables, the Access type, defaults, execAffecting and withTx.
-- - Store.Jobs, Store.Songs, Store.Users, Store.Sessions, Store.Links: the methods of Store, one
--   function for each, under the method's name in snake case. The database is a record of lists of
--   rows; a SQL statement is a select, update or remove under its WHERE test (Prelude.Tables), and a
--   constraint is the test that refuses the insert. A method returns the new database and its result.
-- - Runpod.Json, Runpod.Errors, Runpod.Client, Runpod.Output: JSON values and their decoding into
--   the fields of a struct, the error taxonomy, the calls, and OutputOf.
-- - Worker.Budget, Worker.Payload: the budgets, the spacing of retries, the requests and the titles.
-- - Worker.World, Worker.Submit, Worker.Poll: the worker's methods on a world of database and log of
--   calls; Worker.Billing and its children: the invariant of that log and of the job rows;
--   Worker.Ending: what a restart does to the jobs that outlived their budget.
-- - Abc.Pitch, Abc.Keys, Abc.Notes, Abc.Chords, Abc.Scores (internal/abc/transpose.go): the arithmetic
--   of pitches, the accepted keys with the choice of the key to land in, the rewriting of one note and
--   of one chord symbol, and of the lines of a score. A panic of Go is a result. An array is a function
--   of its index, and a note answers the text it leaves unread where the code answers a count of bytes.
-- - Server.RateLimit (internal/server/ratelimit.go): the fixed-window limiter, a state passed from call
--   to call; its map of counts is a function of the key.
-- - Server.Http (internal/server/access.go, auth.go, ratelimit.go): a request as the values that the
--   handlers read of it, an answer as a `Reply` with the change of the session cookie and the number of
--   password comparisons, and the functions that only look at the request. Packages net/url, path, net,
--   bcrypt, SHA-256 and ServeMux are the fields of `Packages`.
-- - Server.Access (access.go): what a route demands, protect and authenticate, the caller's scope.
-- - Server.Auth (auth.go), Server.Admin (admin.go), Server.Library (history.go): one function for each
--   handler, from the request and the database to the new database and the answer. Server.Site is the
--   state that a credential endpoint passes on: the database and the limiters.
-- - Server.Generate, Server.Scores, Server.KeyPicker, Server.Edits (internal/server/handlers.go): the
--   generate form, the headers and the tempo of a score, the keys on offer, the edit of a song, and the
--   fragments of a job and of its audio.
-- - Server.Covers, Server.CoverJobs, Server.CoverRequests (internal/server/cover.go): signed links, the
--   staging of an upload, the job of a cover, and the requests that may end in one.
-- - Llm (internal/llm/llm.go): the bounded fields of a request for a style and the readers of a reply.
-- - Config (internal/config/config.go): Load, with the environment as a function.
-- - Prelude and its children: lists, byte strings, tables, integers and their lemmas.
--
-- Conventions and bounds. Strings are lists of bytes; white space and the folding of case are ASCII,
-- and a fixed message is the list of its code points. Times are nanoseconds since an epoch, and
-- durations are compared by sums, so no subtraction is cut off. A float64 or an int64 that is only
-- carried is its bit pattern. Rows of equal creation time keep their order of insertion. A decimal
-- is printed with as much fuel as the number, the loop over a line of music runs on the length of
-- the line, a download has at most four attempts; all other recursion is on a list or on a number of
-- rounds. One pass of a loop reads the clock once.
--
-- Arguments of the model. SHA-256 (`hash`), filepath.Join (`join`), json.Marshal of an error field
-- (`render`), the bits of a reported duration, the random tokens and ids, whether a query of the store
-- fails (`broken`), and all that the network, the encoder and the packages of `Packages` answer. Two
-- theorems assume something of them: that a return path stays on the site rests on net/url's word that
-- an escaped path decodes to the path, and is absolute where the path and the text parsed are
-- (`Decodes`); that no job is billed twice rests on RunPod enqueuing nothing where it answers 409, 429
-- or 503, or a 2xx without a job id (`enqueues_nothing`).
--
-- Not modelled: the schema migration, failures of SQLite other than a broken constraint and those
-- that `broken` stands for, logging, tickers and contexts, the files on disk, HTTP headers beyond
-- those that decide an answer, the templates and the wording of encoding/json. The detail page of
-- the server, the assistant's exchange with its service and the lyrics lookup have no model.
pub mod Llm
pub mod Config
pub mod Abc
pub mod Prelude
pub mod Store
pub mod Runpod
pub mod Worker
pub mod Server
