-- ===== src/Lib.antt =====
-- go-baseapp: a library for web services in Go. A server (package baseapp) is put together from a
-- configuration and parameters; each request passes through middleware that gives it ignore rules
-- and a metrics registry, records what the handler sends, and then logs and counts it; handlers may
-- log users in (packages baseapp/auth/oauth2 and baseapp/auth/saml); the metrics of a registry, some
-- of them with tags in their names (package appmetrics), are reported by an emitter to Datadog or
-- collected by Prometheus; errors are printed with their stack traces (package pkg/errfmt).
--
-- The files and the code that they model:
--   Text                        Go strings, and what the code calls of strings, sort and strconv
--   Appmetrics/Registry         the interface of a metrics registry (go-metrics)
--   Appmetrics/Tags             appmetrics/tags.go: Tag, register, cleanAndSortTags
--   Appmetrics/Structs          appmetrics/appmetrics.go: Register, Unregister, MetricNames, isMetric;
--                               isTagged of appmetrics/tags.go
--   Appmetrics/Structs/Creating appmetrics/appmetrics.go: New, createField; appmetrics/gauges.go
--   Appmetrics/Samples          appmetrics/appmetrics.go: parseSample
--   Appmetrics/Values           what an emitter reads of a metric
--   Appmetrics/Emitter/Datadog  appmetrics/emitter/datadog/datadog.go: NewEmitter, EmitOnce, tagsFromName
--   Appmetrics/Emitter/Datadog/Running  the same file: StartEmitter, Emit
--   Appmetrics/Emitter/Prometheus  appmetrics/emitter/prometheus/collector.go: Collect, labels, names
--   Appmetrics/Emitter/Prometheus/Handler  the same file: NewCollector and its options; prometheus.go
--   Appmetrics/Emitter/Reported  how Tag and the emitters fit together
--   Baseapp/Ignore              baseapp/ignore.go: NewIgnoreHandler, Ignore, IgnoreAll, IsIgnored
--   Baseapp/Ignore/Interleaving  the same, for requests that are handled at the same time
--   Baseapp/Writer              baseapp/recording_writer.go: WrapWriter and the recorders
--   Baseapp/Writer/Optional     the same file: the methods of the optional interfaces
--   Baseapp/Metrics             baseapp/metrics.go: RegisterDefaultMetrics, CountRequest
--   Baseapp/Access              baseapp/middleware.go: AccessHandler, LogRequest, RecordRequest
--   Baseapp/Middleware          baseapp/middleware.go: DefaultMiddleware around a route's handler
--   Baseapp/Stack               baseapp/middleware.go and baseapp/server.go: middleware one by one, as
--                               functions from handlers to handlers, and the handler of a server
--   Baseapp/Config              baseapp/config.go: SetValuesFromEnv of both configurations
--   Baseapp/Logging             baseapp/logging.go: NewLogger
--   Baseapp/Errors              baseapp/error.go: HandleRouteError; WriteJSON of baseapp/server.go
--   Baseapp/Server              baseapp/server.go and baseapp/params.go: NewServer, start
--   Baseapp/Server/Events       baseapp/server.go: Start, by the events that it receives
--   Baseapp/Server/Goroutines   baseapp/server.go: the two goroutines of Start, as a step relation
--   Baseapp/Server/Getters      baseapp/server.go: the getters
--   Baseapp/Datadog             baseapp/datadog/datadog.go: the names that it passes on
--   Example                     example/main.go and example/config.go: main, ReadConfig, the handler
--   Errfmt                      pkg/errfmt/errfmt.go: Print
--   Auth/Oauth2                 baseapp/auth/oauth2/handler.go and state.go: ServeHTTP
--   Auth/Oauth2/Sessions        baseapp/auth/oauth2/sessions.go: SessionStateStore
--   Auth/Oauth2/Options         baseapp/auth/oauth2/handler.go: NewHandler, its parameters and callbacks
--   Auth/Saml                   baseapp/auth/saml/serviceprovider.go and state.go: the types, and the
--                               interface of the SAML library
--   Auth/Saml/Params            baseapp/auth/saml/params.go: every parameter; the default callbacks
--   Auth/Saml/New               baseapp/auth/saml/serviceprovider.go: NewServiceProvider
--   Auth/Saml/Cookies           baseapp/auth/saml/state.go: cookieIDStore, over net/http's cookies
--   Auth/Saml/Handlers          baseapp/auth/saml/serviceprovider.go: DoAuth, ACSHandler
--   Auth/Saml/Metadata          baseapp/auth/saml/serviceprovider.go: MetadataHandler
-- The other child modules of a file hold the laws of its definitions; Prelude holds the shared helpers,
-- and Tests the runs of the models on concrete inputs.
--
-- How the code is modelled:
-- * A string is the list of its code points, valid UTF-8 text. The code compares strings byte by
--   byte, which for such text is the order of the code points, and cuts them at ASCII characters.
-- * An int64 that is counted is its two's complement bit pattern, a number below 2 ^ 64, and its
--   arithmetic wraps around; an int that is parsed or printed is an integer in the range of int64.
-- * A method that changes its receiver is a function that returns the changed state. The ignore rule
--   of a request is a variable that its context points to, so the rules are a heap of variables.
-- * A panic is the result `none`, in New an error. Errors are values of a sum or a data type.
-- * A Go map is an association list; where the code enumerates one, the order of the list is the
--   order of that enumeration.
-- * The loops are structural recursion. Only the decimal print of a number, in Text/Numbers, recurs
--   on fuel, the number itself: each step divides by ten, so that its value is enough.
-- * Code of other modules is a parameter: the registry of go-metrics, with the documented laws of
--   its operations; the wrapped http.ResponseWriter; the OAuth2 provider; statsd.New; json.Marshal and
--   strconv.Quote; time.ParseDuration and strconv.ParseFloat; unicode.ToLower outside ASCII; floating
--   point arithmetic; the middleware of hlog and hatpear; goji and TLS values.
-- * Reflection on a struct of metrics is a description of its type: the visible fields with their
--   tags, the methods of its pointer and its function fields. Embedded pointers are left out, and so
--   are nil metrics and implementations of Tagged from other packages.
-- * The SAML library, the certificates, keys, files and requests that it works on are one record of
--   operations. A store of request ids acts on an abstract type, what it keeps.
-- * A slice whose items are moved in place is its backing array with a length.
-- * A panic of a route's handler, and the error that it stores in its request, are the ways in which
--   it ends, which the middleware around it reads.
-- * A handler in Baseapp/Stack is one for every response writer, since a recorder of a writer is a
--   writer too; what hlog and hatpear do to such handlers is the record Toolkit. The stack is there a
--   second time, in Baseapp/Middleware, for one response writer.
-- * The example program ends in a panic, of main or of the emitter's goroutine, or has a running
--   server, by what its files, parsers and goroutines meet, the record Surroundings.
-- * What a select receives is a list, in the order in which it is received.
--
-- Not modelled: the network, the matching of a path by goji, the output of the loggers but the line of
-- a request, and nil pointers that a caller hands to the SAML provider.
mod Prelude
pub mod Text
pub mod Appmetrics
pub mod Baseapp
pub mod Errfmt
pub mod Auth
pub mod Example
mod Tests
