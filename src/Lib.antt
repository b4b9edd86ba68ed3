-- ===== src/Lib.antt =====
-- A verification library for flow-proxy, a proxy that authenticates requests for an LLM service.
--
-- The program's parts and the files that model them:
-- - Base: lists, texts, dicts, exceptions and UTF-8 as Python has them. A text is the list of its
--   code points, a byte string the list of its bytes; an exception is a value of `Result`.
-- - LoadBalancer (flow_proxy_plugin/core/load_balancer.py): round-robin selection among the
--   configurations, failures and resets. A method runs under the object's lock and is one step.
-- - Json, Config (flow_proxy_plugin/core/config.py): validation and loading of the secrets file.
-- - Jwt (flow_proxy_plugin/core/jwt_generator.py): tokens and the cache that a process shares.
-- - Failover (flow_proxy_plugin/plugins/base_plugin.py): `_get_config_and_token`, which asks the
--   balancer and the generator, and tries one other configuration after a ValueError.
-- - RequestFilter (flow_proxy_plugin/plugins/request_filter.py): rules, query parameters, body.
-- - Forwarder (flow_proxy_plugin/core/request_forwarder.py): headers of a proxied request, errors.
-- - ProxyPlugin (flow_proxy_plugin/plugins/proxy_plugin.py): a request to the forward proxy, which
--   uses Failover and Forwarder.
-- - Forwarding (flow_proxy_plugin/plugins/web_server_plugin.py): `handle_request`, which uses
--   Failover and RequestFilter and starts the worker of Streaming; Forwarding/Original has the
--   headers as proxy.py keeps them.
-- - PluginPool (flow_proxy_plugin/utils/plugin_pool.py): the reuse of plugin instances.
-- - Plugins (the two plugin classes of flow_proxy_plugin/plugins): how an instance is made, bound
--   to a connection and given back to the pool. The instances of the web server plugin are objects in
--   a store, which the pool and the connections share by number.
-- - ProcessServices (flow_proxy_plugin/utils/process_services.py): `get` on any number of threads,
--   what `_initialize` sets up from the environment, Logging, Config and LoadBalancer, and the httpx
--   client, for which any number of threads ask while others mark it as broken.
-- - Service: the parts together, from the start of a process to the end of a request.
-- - ErrorHandler (flow_proxy_plugin/error_handler.py): error codes, responses and log lines.
-- - NetworkErrors, Retry (flow_proxy_plugin/network_error_handler.py): the handlers, which use
--   ErrorHandler, and `execute_with_retry`.
-- - LogCleaner (flow_proxy_plugin/utils/log_cleaner.py): which files a cleaning removes, the starts
--   and stops of the thread that cleans, and the one cleaner of a process, with the threads of all
--   that it had.
-- - Logging (flow_proxy_plugin/utils/logging.py, log_context.py and log_filter.py there): the context
--   of log lines, the filters, the settings, formatters and handlers, and `setup_logging`, which
--   starts the cleaner of LogCleaner.
-- - Cli (flow_proxy_plugin/cli.py): `main`, which sets up Logging, puts its settings into the
--   environment that ProcessServices reads, and calls proxy.py.
-- - Streaming (flow_proxy_plugin/plugins/web_server_plugin.py): the worker thread and the main
--   thread of one streamed request. They share a queue, a pipe and a cancel flag; a step is one queue
--   operation, one write to the pipe or one close, and a schedule is any list of steps. The client
--   is the list of byte strings queued to it.
--
-- A definition has the name of the function that it models. State is passed explicitly: an
-- operation returns its result and the next state. Loops are recursion on the list that they go
-- through or on the number of attempts that are left. Fuel stands in two places: decimal numerals,
-- for which the value itself is enough, and the loop over a logger's handlers, which has as much as
-- there are handlers and needs no more, since its index grows and the list does not.
--
-- Parameters stand for code that is not in the repository: proxy.py, httpx, PyJWT, json5, the
-- JSON codec, nested-property, argparse, the file system, and `bytes.decode` and `str.lower`. Times are whole
-- microseconds. Of the log lines the access line of a stream, those of ErrorHandler, the line of
-- a request in LoadBalancer and the debug lines of Forwarding are modelled. The type of floating-point
-- numbers is a parameter. Signals and the memory model of threads are not modelled; a lone surrogate, for which `str.encode` raises,
-- is not told apart.
--
-- Not modelled: what `logging.Formatter` prints and how log files are rotated, which are the
-- library's; the other log lines; the rounding of sizes to megabytes; and `reset` of the process
-- singleton, which is for tests, while other calls are under way.
pub mod Base
pub mod LoadBalancer
pub mod Json
pub mod Config
pub mod Jwt
pub mod Failover
pub mod Streaming
pub mod RequestFilter
pub mod Forwarding
pub mod Forwarder
pub mod ProxyPlugin
pub mod PluginPool
pub mod Retry
pub mod LogCleaner
pub mod ErrorHandler
pub mod ProcessServices
pub mod Service
pub mod NetworkErrors
pub mod Plugins
pub mod Logging
pub mod Cli
