-- ===== src/Lib.antt =====
-- go-feather-route, a gateway between OpenAI-compatible clients and model providers.
--
-- A request comes in at the router (internal/router/router.go). The chat or the embeddings handler
-- reads a bounded body, decodes its envelope (internal/contract/openai.go), finds the provider of its
-- model in the routing table (internal/gateway/routes.go), takes a slot of a semaphore, and calls the
-- provider's client (internal/provider/provider.go) with failover to the model's other providers. The
-- answer is checked and relayed, as a whole or as a stream, and the tokens that it reports are sent to
-- a usage endpoint (internal/usage/reporter.go). The configuration (internal/config/config.go) fixes
-- the limits, the providers and the routes when the server is made.
--
-- Parts:
--   Prelude     strings as lists of bytes, int64 and uint64, float64 (Prelude.Float64), maps as
--               association lists, Atoi.
--   Wire        headers, bodies as the answers of their reads, and the interface of encoding/json.
--   Gateway     Rule and Routes; ProviderFor by its stages exact, qualified and wildcard; Models.
--   Contract    DecodeChatRequest, DecodeEmbeddingRequest, InputCount, ValidateChatResponse.
--   Provider    Client, its interface and what goes on the wire (doJSON). Provider.Prepare has
--               prepareModelBody, prepareChatBody and stripProviderPrefix; Provider.Wait the delay of
--               waitForRetry; Provider.Call the loop of Chat and Embedding with the requests it sends;
--               Provider.Trace the trace hooks and the durations that they measure;
--               Provider.Transport NewHTTPClient; Provider.Api the client as the ClientAPI of the
--               router. Provider.Loop and Provider.Retry relate a call to its requests.
--   Usage       ParseJSON, ParseSSE, the usage event and the callback that carries it.
--               Usage.Lines and Usage.Joined relate a stream's events to its lines.
--   Config      the types and the defaults; normalizeModelRoutes and applyEnvironment (Config.Load),
--               validate and LoadWithOverrides (Config.Validate), what passes validate (Config.Checked),
--               LoadFromEnvironmentWith (Config.Process).
--   Diagnostics the pprof listener (internal/diagnostics/pprof.go) and the check of its address.
--   Main        the process (cmd/go-feather-route/main.go): start_up leads to a health check, an exit or
--               a process that serves; Step leads on to its exit code.
--   Router.Server       Server is what NewServer fixes; State is what handlers change: the gauges, the
--                       counters, the maps of cooldowns, the histograms and the route metrics.
--   Router.Selection    clientsFor.     Router.Health    the cooldowns.
--   Router.Failover     the loop over the clients that both handlers contain.
--   Router.Bodies       readBounded.    Router.Labels    labels and request IDs.
--   Router.Histogram    observe and writeHistogram.
--   Router.DoneMarker   streamContainsDone and updateStreamTail.
--   Router.Stream       streamResponseWithUsage; Router.Stream.Relayed is about the bytes,
--                       Router.Stream.Counted about the usage.
--   Router.Watchdog     the stream watchdog: a step relation of its goroutine and its callers.
--   Router.Embeddings   normalizeEmbeddingResponse; Router.Embeddings.Again reads what it forwards.
--   Router.Handling, Router.Exchange, Router.Chat, Router.EmbeddingsHandler
--                       the handlers. A handler is a function of the state that stops with a reply or
--                       goes on with a value; a deferred call is the second half of a bracket.
--   Router.Slots        the semaphores: a step relation of the requests that wait for a slot or hold one.
--   Router.Http         Handler with isPublicPath and authorized; what the mux calls is an argument.
--   Router.Mux          the patterns of Handler and what they lead to: the whole gateway;
--                       Router.Mux.Statuses is about the statuses of its replies.
--   Router.Endpoints    health, ready, status, models and modelStatus.
--   Router.Metrics      the text of metrics; Router.Metrics.Read takes such texts apart, and
--                       Router.Metrics.Counted and Router.Metrics.Tracked are about the maps.
--   Router.Writer       metricsResponseWriter: what the wrapped writer sees.
--   Router.Logging      safeLogValue, with UTF-8 as strings.Map reads it, and the attributes of a
--                       request's log line.
--   Router.Answers      the replies of chat and their usage events, written without the server's state;
--                       Router.Answers.Embeddings the same for embeddings, and
--                       Router.Answers.Events and Router.Answers.Embeddings.Events about their events.
--   Router.Keeps, Router.Balance    what holds of every way through a handler.
--   Router.Honest, Router.Sound     what holds of every response of the clients, of every reply and of
--                       the state, carried through the handlers and the whole gateway.
--   Router.Costs        modelCost and the estimated cost of a usage event.
--   Router.Served       from a loaded configuration to the clients that its server finds.
--
-- Choices: a string is the list of its bytes. A uint64 is a number modulo 2^64 and the bit pattern of
-- an int64 gauge likewise; a duration is an integer of nanoseconds. A Go map is an association list
-- whose insertion replaces, and whose order the code does not depend on. What one call depends on and
-- the program does not decide is an argument: the clock, measured durations, the transport's answers,
-- the random source, the end of a context, the moments of a stream, json.Unmarshal, json.Marshal,
-- yaml.Unmarshal, url.Parse, time.ParseDuration, the file system, net/http's mux, package flag, and net
-- and net/netip for the diagnostics address.
-- The mutex of the server makes each operation on its maps one step.
--
-- Numbers: a finite float64 is its sign and its multiple of 2^-1074. A product or a quotient is rounded to
-- the nearest, ties to the even one, and is infinite from the half step above the largest on, as IEEE 754
-- and the Go specification have it.
--
-- Fuel: the loop of a client's call has the two rounds of its own bound; decimal numbers are written
-- with 19 digits at most, which an int64 has, or, as fmt does, with as many as the number itself is
-- large enough for; the place of a float64's last bit is looked for through the 4196 bits that a
-- product of two can have, which quantum_fits shows to be enough. All other loops recurse on a list.
--
-- Not modelled: the HTTP server, the text of the JSON replies (the values that are encoded are), the
-- log lines of the process (the attributes of a request's line are) and how package slog writes them, what net/http does with the settings of its transport, and the
-- load generator and the fixture provider of the benchmarks. Whether the
-- watchdog has expired at a read of a stream, and whether a request is admitted to its slot, are
-- arguments of the handlers; Router.Watchdog and Router.Slots say when each can happen.
pub mod Prelude
pub mod Gateway
pub mod Wire
pub mod Provider
pub mod Router
pub mod Config
pub mod Contract
pub mod Usage
pub mod Diagnostics
pub mod Main
