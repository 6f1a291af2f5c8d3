-- ===== src/Lib.antt =====
-- The jelly server library for Go: a verification of its own database of hits, db/owdb/, of
-- its built-in login service with the API, the tokens and the middleware around it, of its
-- configuration, and of the life cycle of its server.
--
-- The package db/owdb/ keeps hits (one access of a web site each) in a slice that is ordered
-- by time, the only index. A query is a filter: a Where with a criterion per property of a
-- hit, or a node that combines filters with AND, OR and NOT. The store asks the filter for
-- the limits of the times it can match, scans the slice for the hits within these, and tests
-- each of them.
--
--   Time.antt: what the package uses of Go's package time. A Time is an instant in
--     nanoseconds, a zone and perhaps a monotonic reading; `==` on the struct and the methods
--     Equal, Before and After are told apart.
--   Owdb/Limits.antt: Limits of db/owdb/where.go. Owdb/Limits/Laws.antt reads them as sets of
--     instants.
--   Owdb/Hit.antt: Hit and Requester of db/owdb/owdb.go.
--   Owdb/Filter.antt: Where, FilterNode and the interface Filter of db/owdb/where.go, with
--     Matches, And, Or, Negate and Node. Owdb/Filter/Plan.antt: Simplify and TimeIndexLimits.
--     The other files of Owdb/Filter/ hold the proofs.
--   Owdb/Criterion.antt and Owdb/Criterion/: the criteria of db/owdb/criterion.go.
--   Owdb/Store.antt: the Store of db/owdb/owdb.go, its calls Select, Insert and Delete, and
--     the helpers applyFilter and findInsertionPoint. Owdb/Store/Update.antt: Update. The
--     other files of Owdb/Store/ hold the proofs, and Owdb/Store/Crossed.antt tests of
--     Update.
--   Owdb/Saving.antt: Open, Import, Persist and Close of db/owdb/owdb.go, and db/owdb/fs.go,
--     over the record Disk of the calls outside. Owdb/Saving/Loss.antt: what they leave in
--     the data file, under the record IsDisk of what is relied on.
--   Owdb/Tests.antt: the theorems at concrete inputs, on the samples of
--     Owdb/Tests/Samples.antt.
--
-- The login service, auth/service.go, answers the requests of the authentication API. It
-- keeps users in a repository behind an interface; internal/authuserdao/inmem/ implements it
-- with two maps, of users by their IDs and of IDs by names. Errors carry causes, which
-- errors.Is looks for.
--
--   Auth/Errors.antt: errors.go. Auth/Errors/Wrapping.antt: what a wrapped error matches.
--   Auth/User.antt: AuthUser and AuthUserRepo of login.go, and User of
--     internal/authuserdao/authuserdao.go.
--   Auth/Inmem.antt: AuthUserRepo of internal/authuserdao/inmem/users.go. Auth/Inmem/: that
--     its maps agree, and what its calls find.
--   Auth/Service.antt: the methods of loginService of auth/service.go, over any repository.
--     Auth/Service/Users.antt: CreateUser, DeleteUser, UpdateUser and UpdatePassword.
--     Auth/Service/Accounts.antt: its theorems.
--   Auth/Tests.antt: the theorems on users at concrete inputs.
--   Auth/Token.antt: the tokens of auth/token.go and the authenticator of auth/provider.go.
--     Auth/Token/: what is asked of the JWT package, and for how long a token identifies its
--     user.
--   Auth/Api.antt: the models of auth/auth.go and the roles of login.go.
--     Auth/Api/Logins.antt, Auth/Api/Users.antt and Auth/Api/Changes.antt: the handlers of
--     auth/api.go. Auth/Api/Setup.antt: what its Init does with the configured administrator.
--     The other files of Auth/Api/ hold the proofs, samples and tests.
--
-- A request comes to a handler through the middleware, which asks an authenticator for its
-- user and puts the answer into the context of the request; the result of the handler is then
-- written.
--
--   Server/Requests.antt: requests and the helpers of helpers.go. Server/Responses.antt:
--     responses.go, server/responses.go and Endpoint of server/endpoints.go.
--   Middle.antt: internal/middle/middle.go. Middle/Access.antt: what a handler behind it can
--     rely on.
--   Server/Apis.antt: Add and initAPI of server/server.go. Server/Apis/Routes.antt: that the
--     bases of APIs do not collide.
--   Server/Lifecycle.antt: ServeForever and Shutdown of server/server.go, as steps of
--     goroutines on the fields that they share. Server/Missed.antt: a Shutdown that comes too
--     early.
--
-- The configuration of a server is read from a file, filled with defaults and validated. Each
-- API has a part of its own behind an interface.
--
--   Config.antt: CommonConfig of config.go. Config/Listen.antt: LogConfig and Globals, with
--     their forms in a file. Config/Dbs.antt: DatabaseConfig and connection strings.
--     Config/Secrets.antt: Config of auth/config.go. Config/Whole.antt: Config of config.go.
--     Config/Bundle.antt: Bundle of jelly.go.
--   Config/Loading.antt, Config/Loading/Formats.antt and Config/Connectors.antt:
--     internal/config/config.go. The other files of Config/ hold the proofs, and
--     Config/Tests.antt tests.
--
-- Base.antt and the files of Base/ are shared helpers: tests on numbers, lists, strings and
-- outcomes.
--
-- A call of Go code on hits is a value of `Run` (Base/Outcome.antt): it is done with a
-- result, it panics, or the model is out of fuel. Accesses of a slice out of range panic, and
-- so does a call of a nil function. An `int` that indexes a slice is a natural number. A call
-- on the store is modelled as it runs under the store's mutex, so calls are a sequence.
-- Strings are their bytes.
--
-- Fuel: TimeIndexLimits recurses on a simplified node, so its model has the number of nodes
-- as fuel, and the loops of Delete have the length of the slices they go over; the theorems
-- state results, so the fuel is enough. The re-indexing of Update has the number of pending
-- keys as fuel, of which each round takes one away.
--
-- The order in which Go iterates over a map is a parameter of Update, a function from the
-- keys to the index of the one that comes first; the theorems hold for all of them.
--
-- The functions of Go's packages that print and parse, such as fmt.Sprintf for a quoted
-- string and net.ParseIP, are fields of the record Go in Owdb/Criterion.antt. What the login
-- service calls of bcrypt, net/mail, encoding/base64 and the UUID package are fields of the
-- record Outside in Auth/Service.antt; the clock and new IDs are arguments. The record Web in
-- Auth/Api.antt has the texts of UUIDs and times and the decoding of JSON, and the record Jwt
-- in Auth/Token.antt the JWT package; what is relied on of it is the record IsJwt in
-- Auth/Token/Keys.antt.
--
-- A handler returns how it ends and the state after it, so that a change before a panic is
-- seen. The message of a result for the log is left out, but what is printed in it is
-- evaluated, since the method Error can panic. Maps that Go iterates over are lists in the
-- order of the iteration. An int of a configuration is its 64 bits. Lower case and white
-- space are modelled on bytes, for all characters that become ASCII and all that are white
-- space.
--
-- Not modelled: the encoding of hits by the rezi package, the String methods of filters and
-- criteria; the users in SQLite, whose calls are SQL statements; the routes of the server,
-- NewServer, the writing of logs, and the test server. The messages of errors of the
-- configuration leave out what they quote.
pub mod Auth
pub mod Base
pub mod Config
pub mod Middle
pub mod Owdb
pub mod Server
pub mod Time
