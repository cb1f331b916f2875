-- ===== src/Lib.antt =====
-- FerrumDNS: a model of the DNS server's core, and what holds of it.
--
-- The server answers DNS queries through plugins that a YAML configuration puts together. A listener
-- decodes a query and gives it to `handle` (src/server.rs), with a `QueryContext` (src/context.rs)
-- that holds the question as it is rewritten, the message that the client sent, the response and the
-- marks. `handle` runs the pipeline that the listener names. A pipeline is a plugin of the registry
-- (src/plugin/mod.rs), most often a sequence (src/plugin/sequence.rs): its steps test conditions on
-- the context (src/matcher.rs), run builtins (src/plugin/actions.rs) or call plugins, and its lookups
-- in caches are written back when it ends. The other plugins answer from a cache
-- (src/plugin/cache.rs), from local names (src/plugin/hosts.rs) or by asking upstreams
-- (src/plugin/forward.rs), try two pipelines (src/plugin/fallback.rs), or change the client subnet of
-- the query (src/plugin/ecs.rs). When the pipeline ends, the response is bound to the client's message
-- again, and `handle` counts it (src/metrics.rs).
--
-- A configuration is read from a file with its includes, and what stands for a server in it becomes
-- one (src/config.rs). src/runtime.rs checks the graph of calls between the plugins and the settings,
-- and builds a registry of the plugins, the forwarders among them with their upstreams
-- (src/upstream.rs). The listeners that are then started (src/server.rs) take what comes over UDP, over
-- streams of framed messages and over HTTP, each from the runtime that is live; a signal reloads the
-- file (src/main.rs), and the new runtime takes the place of the old one if its listeners are the same.
-- The API (src/api.rs) answers requests of an operator, and guards those that change something.
--
-- The files, and the code that they are about:
--   Base: numbers, lists, texts, errors and results (src/error.rs)
--   Dns: messages; Dnsutil: src/dnsutil.rs; Context: src/context.rs; Metrics: src/metrics.rs
--   Yaml: the values of a configuration; Net: addresses in text, as the standard library reads them
--   Config.Paths, Config.Types, Config.Lift, Config.Load, Config.Same: `resolve_path`, the types, the
--     lifting of server plugins with the entries, `load_file`, and the derived equality of the types
--     of src/config.rs
--   Matcher.Suffix, Matcher.DomainSet, Matcher.Eval: `DomainSet`, `IpSet`, `Matcher` of
--     src/matcher.rs; src/plugin/sets.rs wraps their constructors
--   Plugin: src/plugin/mod.rs
--   Cache.Shard, Cache.Key, Cache.Store, Cache.Serve: `Shard`, `key_of`, storing and looking up, and
--     the plugin with its refreshes, of src/plugin/cache.rs
--   Ecs, Actions, Sequence, Forward, Fallback, Hosts: the files of src/plugin/ with these names
--   Server.Handle, Server.Percent, Server.Listener, Server.Reply: `handle`, the DoH parameter,
--     `validate_listener` with `spawn_listener`, and `udp_loop`, `serve_framed` and the DoH handlers, of
--     src/server.rs
--   Upstream.Pool, Upstream.Spec, Upstream.Endpoint, Upstream.Framing, Upstream.Connect,
--     Upstream.Bootstrap, Upstream.Exchange: `StreamPool`, `UpstreamSpec`, the reading of hosts and
--     ports, framed and pooled exchanges, `connect`, the resolving of addresses, and `exchange`, of
--     src/upstream.rs
--   Runtime.Graph, Runtime.Settings, Runtime.Build, Runtime.Live: `validate_plugin_graph`,
--     `validate_settings` with the default entry, `build`, and `Live`, of src/runtime.rs; `reload_loop`
--     of src/main.rs is in Runtime.Live
--   Api.Origin, Api.Flush, Api.Report, Api.Query: `response_headers` with `trusted_browser_source`,
--     `flush`, `system`, and `query`, of src/api.rs; `Runtime::handle_query` is in Api.Query
--   Tests: concrete inputs
-- The other modules below these prove properties, and are named for what they prove.
--
-- How it is modelled. A method that changes its object or the context takes it and gives it back; a
-- plugin is a function on the context and on the state that the plugins share, but where two of them
-- run side by side (Fallback), a task, whose waits end at known times and which changes the state
-- between them. `Result` is a data
-- type, with the error variants of the code. Texts are lists of code points. A hash map is a list of
-- keys with values. A clock is read where the code reads it, as an argument in nanoseconds; counters
-- wrap at 64 bits, and a cache key is hashed modulo 2 ^ 64. What a crate computes is a parameter:
-- `Hickory` (hickory-proto: equality of names, wire format, truncation), `Regexes` (regex) and
-- `Networks` (ipnet, and the reading of addresses). So are files, the answers of upstreams with the
-- order in which they arrive, the time that a pipeline takes, and whether it is cut off. `Files` stands
-- for the file system and the YAML crate, `Tls` for certificates and URIs, `Outside` for all that a
-- build takes from crates; `Transport`, `Stream`, `Datagrams` and `Network` say what sockets do at each
-- call, and the stream in memory is one of them. `Urls` stands for the reading of URLs.
--
-- Loops are recursive on the list that they go through, except for the visits of the call graph:
-- `visit_plugin` has fuel 65, one more than the bound of 64 on active plugins that the code checks, and
-- each nested visit makes one more plugin active. So it is with the load of a file: it has fuel 65, one
-- more than the bound of 64 on files that are open, which the code checks, and each nested load opens
-- one more. `serve_framed` has fuel, which is one more than the messages that are sent.
--
-- Not modelled: the system calls on sockets, their accept loops, TLS and HTTP, which are input and
-- output of the crates tokio, rustls, axum and reqwest; the deadline of a bootstrap lookup and of an
-- exchange is a flag that says which of them is late; the other handlers of the API (src/api.rs), the
-- metrics in text, the command line, and the web console. Different queries do not run between the
-- steps of one. A registry holds what its plugins are made of; their pipelines are functions that
-- `handle` and the sequences get.
pub mod Base
pub mod Dns
pub mod Net
pub mod Yaml
pub mod Config
pub mod Dnsutil
pub mod Context
pub mod Matcher
pub mod Metrics
pub mod Plugin
pub mod Cache
pub mod Ecs
pub mod Actions
pub mod Sequence
pub mod Forward
pub mod Fallback
pub mod Hosts
pub mod Server
pub mod Runtime
pub mod Upstream
pub mod Api
mod Tests
