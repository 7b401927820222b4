-- ===== src/Lib.antt =====
-- A verification library for jsoff, a JSON-RPC framework in Go: what its messages, its schemas, its
-- actors, its servers, its clients and its check of credentials do.
--
-- The program's parts. Messages (types.go, messageimpl.go) are requests, notifications, results and
-- errors; parse.go and messagemarshal.go read and print them as JSON, and messagefactory.go makes
-- them with a check of null ids. The package schema holds schemas, their conversion from JSON
-- (convert.go), their building (builder.go), and a validator that walks a value and keeps a stack
-- of the path to it. The package net dispatches messages: an actor (net/request.go) maps methods to
-- callbacks with an optional schema, has children, and answers a message in `Feed`, which validates
-- it, calls the callback and makes a message of what that returns. The HTTP/1 server
-- (net/http1_server.go) reads a message from a body, feeds it and writes what comes back, behind a
-- handler that checks credentials (net/auth_handler.go). The other servers keep a session for each
-- connection: a loop reads messages, a goroutine feeds each to the actor and sends what comes back to
-- a channel, and a second loop writes what is in the channel; a gateway (net/gateway_handler.go)
-- serves HTTP/1, HTTP/2 and WebSocket on one port. The streaming client
-- (net/streaming_client.go) keeps a table of pending requests, which its receiving loop, its
-- timeouts and its callers share.
--
-- The files and the code they are about:
--   Base            shared: Go's maps as association lists (Assoc), integers (Int), lists, text
--   Value           the values of an `any`; Value/Number the number literals of encoding/json and
--                   strconv, float64 as 64-bit patterns; Value/Read what is read of a JSON text
--   Result          errors.go, net/errors.go, and results that are a value, an error or a panic
--   Validators      validators.go
--   Utils           `GuessJson`, `GuessJsonArray` and (Utils/Params) `DecodeParams` of utils.go
--   Schema          schema/types.go
--   Schema/Validator  schema/validator.go: the stack of path segments, over a state
--   Schema/Scan     (with Leaf) the `Scan` methods of schema/schema.go, over the validator's state
--   Schema/Check    the same verdicts as a pure function of the path, without a stack
--   Schema/Conforms  when a value conforms to a schema, as a proposition
--   Schema/Equal    the `Equal` methods of schema/schema.go
--   Schema/Document   the `Map` methods of schema/schema.go
--   Schema/Convert  schema/convert.go
--   Schema/Builder  schema/builder.go; Schema/Leaf the number, integer and string schemas, names
--                   and descriptions
--   Schema/Yaml     `FixYamlMaps` of schema/builder.go
--   Message         (with Kinds) types.go, messageimpl.go
--   Message/Document  (with Print) parse.go, messagemarshal.go and the `Interface` methods of messageimpl.go
--   Message/Factory   messagefactory.go
--   Net/Actor       the registration and lookup of handlers in net/request.go
--   Net/Actor/Public  `PublicSchemas` of net/request.go
--   Net/Actor/Typed  net/typewrap.go, and the registration of typed functions in net/request.go
--   Net/Actor/Feed  `Feed` and what it calls in net/request.go, `MessageMap` of messageimpl.go
--   Net/Streaming   (with Pending, State) net/streaming_client.go; Net/Streaming/Reach the
--                   interleavings of its goroutines
--   Net/Transport   the transports of net/tcp_client.go, net/vsock_client.go, net/http2_client.go and
--                   net/ws_client.go
--   Net/Auth        net/auth_handler.go
--   Net/Http1       net/http1_server.go
--   Net/Http1/Client  net/http1_client.go; Net/Http1/Client/Relay the client against the handler
--   Net/Factory     net/client_factory.go, net/client_util.go, the constructors of the clients
--   Net/Session     net/http2_session.go and the sessions of net/ws_server.go, net/http2_server.go,
--                   net/tcp_server.go and net/vsock_server.go; Net/Session/Steps the interleavings of
--                   their goroutines
--   Net/Gateway     net/gateway_handler.go
-- A file below one of these proves what its name says; the Tests files hold runs and the theorems
-- at concrete inputs.
--
-- How the state corresponds. A Go value that methods change by a pointer is a value that the
-- function takes and returns: the validator's stack is threaded by a small monad, an actor's maps
-- by the registering functions. A function that returns an error or panics returns a `Result`. A
-- map is the list of its entries in the order in which one loop walks it, so a theorem over all
-- lists covers every order. Callbacks are functions over a world, which shows whether and in what
-- order they ran. A goroutine is a sequence of actions, and a run of the client or of a session any
-- sequence of actions of its goroutines (Net/Streaming/Reach/Serial has the runs of whole operations,
-- which one theorem is about); what was sent to a channel is part of the state, and a send
-- to a full one (of 100 messages, or 10 errors) waits. Recursion is structural over schemas, values
-- and trees of actors; only the builder of schemas recurs on fuel, since conversion changes the nodes
-- it walks, and the depth of the document is fuel enough.
-- Integers are unbounded except where a literal is read, which checks the 64 bits.
--
-- Not modelled: the text of JSON (documents are the values that encoding/json reads, with UseNumber,
-- and prints; the literals it prints are the parameter `Literals`),
-- Go's reflection and mapstructure (parameters: `Reflection`, and `decode_template` of `Feed`),
-- logging, contexts, sockets (the parameter `Network` of Net/Transport), the framing of HTTP/2 and
-- WebSocket, the command line tools, and the sharing of one actor or schema by two owners. A list
-- or map of a schema is never nil.
pub mod Base
pub mod Value
pub mod Validators
pub mod Utils
pub mod Result
pub mod Message
pub mod Schema
pub mod Net
