-- ===== src/Lib.antt =====
-- mcpplane: a verification library for the control plane of an MCP server, written in Go.
--
-- The program's parts, and the modules that model them:
--   - session/async.go, the store of async operation handles: Session.Async. A hand-off keeps its
--     data under a handle of this store.
--   - session/session.go, the wizard sessions: Session.Store for the store, Session.Advance for
--     AdvanceSession, with looplab/fsm and the application's handlers as interfaces.
--   - session/request_state.go, the signed request state that carries a session's id through the
--     client: Session.RequestState, with base64, HMAC and JSON as an interface and their
--     documented laws as hypotheses.
--   - handoff/handoff.go, the one-time links of a hand-off: Handoff.Endpoint.
--   - handoff/handoff_registry.go, the registry of resume continuations and the handler of a resume
--     tool: Handoff.Registry, and Handoff.Registry.Resume. A flow's data stands in the async handle
--     store, whose entries the registry retires with the flows that it evicts.
--   - model/human_handoff.go, the result that asks for a human: Model.Results.
--   - transfer/upload_tasks.go, the manager of async uploads: Transfer.Tasks. Its goroutines and
--     watchdogs are steps of Transfer.Tasks.System, which interleave with the calls in any order.
--   - transfer/upload_http.go, the one-time upload endpoints: Transfer.Endpoint. A PUT claims its
--     token and then starts or fulfills an upload of the manager.
--   - transfer/download_http.go, the one-time download endpoints: Transfer.Download, with the header
--     texts in Transfer.Names; transfer/download_limits.go and transfer/download_sink.go: the capped
--     writer and the sinks in Transfer.Writers. A function that writes to an io.Writer is a program of
--     writes, which the capped writer transforms and the deferred response writer runs; below it stands
--     what net/http does: the first status stands, and no write goes beyond a Content-Length.
--   - ieo/file_relay.go, the fetch of a public file: Ieo.Addresses for the addresses that are refused
--     and the dialer, Ieo.Hosts for the allowlists, Ieo.Relay for the checks of a reference, the
--     redirects and the fetch, and Ieo.Readers for the limited reader.
--   - ieo/tree_size.go, the check of a tree's size: Ieo.Trees. ieo/file_data_uri.go, data: URIs:
--     Ieo.DataUri for the parser, Ieo.Readers for the bounded reader.
--   - sdk/capsbuilder.go, the redaction of headers and claims: Sdk.Redaction and Sdk.Claims.
--     sdk/apps_registry.go, the registry of app resources and the registration of app tools:
--     Sdk.AppRegistry and Sdk.AppTools.
--   - apps/apps_lib.go, the registry of app views and the wiring of a view: Apps, over Sdk's resources
--     and tools.
--   - transfer/upload_source.go and transfer/wrap_name.go, the choice of an upload's source and the name
--     of a wrapped file: Transfer.Sources, over Transfer.Endpoint, Ieo.Relay and Ieo.DataUri.
-- Common holds the shared helpers: Boolean tests, native lengths, Go maps, integers, byte strings and
-- decimal numerals.
--
-- State and operations: a Go struct is a record, a method a function from the state to its results
-- and the new state, by the method's name in snake case. A mutex makes a critical section one step,
-- which takes the readings of the clock as arguments, as it does random tokens and handles. Times
-- are nanoseconds since an epoch, as natural numbers; a signed duration or limit of a caller is an
-- integer. A Go map is an association list, whose order stands for the order of iteration, so that
-- what holds for every list holds for every order.
--
-- Fuel: exchange_sort of List runs on the number of tasks left, which is its outer loop's bound; digits
-- of itoa on the length of its buffer, 20, which is more than the 19 digits of an int64. read_all, the
-- standard library's loop over a reader, has the number of Reads as fuel, and a theorem says how many
-- are enough. No other function has fuel.
--
-- Bounds: int64 arithmetic wraps where a size of the outside world enters it, in Ieo.Trees and
-- Ieo.DataUri; counts of bytes that a process has written stay below 2 ^ 63 and are natural numbers.
-- ToLower and TrimSpace are those of ASCII text.
--
-- Not modelled: contexts and the executor of an upload, whose outcome is given; HTTP transport, the
-- loopback listener, CORS, logging and pages; the base64 decoder, net/url and the resolver, which are
-- interfaces; the sniffer of content types; uploads from a path and from ChatGPT; the launcher of apps,
-- the package toolargs, the rest of sdk, which adapts the MCP SDK, and the rest of model.
pub mod Apps
pub mod Common
pub mod Session
pub mod Handoff
pub mod Transfer
pub mod Ieo
pub mod Sdk
pub mod Model
