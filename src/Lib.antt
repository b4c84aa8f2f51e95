-- ===== src/Lib.antt =====
-- A model of the provider simulator: a server that stands in for the blockchain providers behind a
-- router, answers as they do, and fails in the ways that a test chooses.
--
-- The program. A table of rows names the providers (`provider_simulator/domain/registry.py` builds
-- them); each has a fault configuration, the settings of its chain, a log of the calls it got, and
-- endpoints on ports. A listener receives a request on a port, writes its arrival to the log, asks
-- the fault policy for a verdict, answers, and finalizes the row of the log. A test writes the
-- configurations and reads the logs through a control service. A port that a scenario closes goes
-- through a gate, on which the control service waits. Beside the providers stands a simulated
-- cache, with an answer that is staged and a record of the lookups, and a proxy before the router's
-- store, which a test can cut off while connections are carried.
--
-- The files. Each module has its definitions in the file of its name, its lemmas and theorems in
-- the files of the folder of that name, and runs on concrete values in the `Tests` file there.
-- - Base: shared names and lemmas. Base/Dict is Python's `dict`, Base/Deque its bounded `deque`,
--   Base/Json the JSON values, Base/Results functions that raise, Base/Int the whole numbers,
--   Base/Sort the sorting of texts, Base/Entries the values of a dictionary.
-- - Domain/Endpoint: `provider_simulator/domain/endpoint.py`.
-- - Domain/Config: `provider_simulator/domain/introspective_config.py`. A class is the list of its
--   fields with their defaults and a hook; an object is the values of the fields.
-- - Domain/Scenario: `provider_simulator/domain/scenario.py`, every check of a block and every
--   field with its default; Domain/Scenario/Names is the test of one chosen header.
-- - Domain/Quirks: `provider_simulator/domain/quirks.py`.
-- - Domain/CallLog: `provider_simulator/domain/call_log.py`. A row is an object that the log and the
--   caller share, so the rows stand in a store and a caller holds the position of one.
-- - Domain/Provider: `provider_simulator/domain/provider.py`.
-- - Domain/Registry: `provider_simulator/domain/registry.py`. The table of ports holds the address
--   of a provider, where the program holds the object.
-- - FaultPolicy: `provider_simulator/fault_policy.py`. A random draw is an argument.
-- - PortGate: `provider_simulator/port_gate.py`, and in PortGate/World the steps in which the
--   writers of a scenario, the callers that ask and the serve loop interleave.
-- - CacheSim: `provider_simulator/cache_sim.py`. CacheSim/Entry is the entry and its
--   reply, Log the cache and its record of calls, Control the staging, Plans the decision on a
--   lookup, Sims the caches by name.
-- - Listeners/WsProtocol: `provider_simulator/listeners/ws_protocol.py`, the frames of WebSocket. The
--   socket is a parameter, and what its `recv` documents is a hypothesis.
-- - Listeners/Listener: `provider_simulator/listeners/base.py`, the flow of one request. The abstract
--   class is a record of hooks; an adapter gets the reply as a value.
-- - Listeners/Defaults, Listeners/JsonRpc, Listeners/Tendermint, Listeners/Rest: the hooks that have a
--   default, and the listeners of `provider_simulator/listeners/jsonrpc.py`,
--   `provider_simulator/listeners/tendermint.py` and `provider_simulator/listeners/rest.py`. json.loads,
--   the match of a route and the chain are parameters.
-- - RespProxy: `provider_simulator/resp_proxy.py`. A hold of the lock is one function; in
--   RespProxy/Threads stands the thread of a connection, and in RespProxy/Threads/Steps the
--   interleavings. What the operating system answers is an argument of each step.
-- - GraphqlDocument: `provider_simulator/graphql_document.py`, the walks over a document of
--   graphql-core; GraphqlDocument/Limits is the choice of the operation and the limits,
--   GraphqlDocument/Roots the root fields, and GraphqlDocument/Expansion what a document is with
--   its fragments expanded.
-- - Listeners/Wire: `provider_simulator/listeners/wire.py`, a reply as bytes with its corruption.
-- - Chains: the head of a chain, of `provider_simulator/chains/base.py`. The time is an argument, and
--   what a rate makes of a time is a parameter.
-- - ControlApi: `provider_simulator/control_api.py`. ControlApi/Fields, Responses and Rules are the
--   checks of a block, ControlApi the staging of a request, Ports the wait for the ports, Apply the
--   writes and POST /scenario, Scopes and Resets the resets, Advance is POST /advance, History
--   GET /history, and Reads the other reads with the routes of the caches. Overlay and Replay are the abstract view of the scenarios that a client keeps, and
--   the calls as its steps.
--
-- Conventions. A method that holds a lock is one step. A method that changes its object takes it
-- and gives it back changed. An exception is `err` with its class, and a function that has written
-- before it raises gives the state back beside the error. The time of day, random draws and what
-- the standard library makes of a text are arguments. A dictionary keeps the order of insertion.
--
-- Bounds and fuel. Numbers that the program counts with are natural numbers with no bound, as
-- Python's are; the blocks of a head are whole numbers, of Chains/Blocks. The loop that reads an
-- exact number of bytes runs on that number as fuel: each call of `recv` gives a byte or ends the
-- loop. The loop over the fragments of a message takes a number of frames, and gives nothing when
-- they are used up; one frame for each fragment is enough. The removal of a dotted path runs on a
-- level for each character of the path and one more. The walk that measures a GraphQL document runs
-- on one level of spreads for each fragment and one more, and the walk that counts its nodes on 32,
-- the depth that the first walk lets through. Python's own limit of recursion is not modelled.
--
-- Not modelled: the servers with their threads and sockets (`server.py`), the WebSocket, gRPC, GraphQL
-- and cache listeners, the rest of the control service (the staging and the self-test
-- of a cache, the routes of the WebSocket and the version), the store of RESP, the rest of the reading of GraphQL
-- requests, the contents that the chains answer, the table of the topology and the canned replies
-- (data), and the generated modules of `cosmos_pb2`. Of the gate, the TCP connection and the wake of
-- the loop; of the proxy, the sockets, the clock, and the latency of a read;
-- of the REST listener, the regular expressions of the routes and the verbs of OPTIONS; of the
-- WebSocket codec, the texts of the handshake.
pub mod Base
pub mod Domain
pub mod FaultPolicy
pub mod PortGate
pub mod RespProxy
pub mod GraphqlDocument
pub mod CacheSim
pub mod Listeners
pub mod Chains
pub mod ControlApi
