-- ===== src/Lib.antt =====
-- Models of the Go programs of this repository, a collection of concurrent designs, one directory to
-- a chapter and one program to a subdirectory. The programs do not call one another, so each module
-- below stands for one program by itself.
--
-- Breaker (07_error_handling_and_monitoring/01_circuit_breaker/circuit_breaker.go): `Breaker` is
--   CircuitBreaker; before_request, after_request, current_state, set_state, to_new_generation,
--   on_success, on_failure and reset are the methods of those names. Breaker.New is
--   NewCircuitBreaker, Breaker.Execute is Execute and ExecuteWithTimeout, and Breaker.System a
--   breaker shared by goroutines, each of which holds the generation that it was given.
-- AdvancedBreaker (07_error_handling_and_monitoring/ans_01/circuit_breaker_advanced.go): the breaker
--   with a sliding window. AdvancedBreaker.Counters is updateMetrics, AdvancedBreaker.Sliding the
--   ring buffer, AdvancedBreaker.Execute Execute and ExecuteWithTimeout, AdvancedBreaker.System the
--   breaker shared by goroutines, where a request runs, reports and leaves in steps of their own.
-- RateLimiter (04_concurrent_programming_for_web_processing/03_api_rate_limiter/api_rate_limiter.go):
--   the check of a request. RateLimiter.Rules is the rules, ruleMatches, endpointMatches,
--   findApplicableRule and AddRule; RateLimiter.Bucket is checkRateLimit, and its child modules
--   follow a bucket through many checks; the module itself is getOrCreateBucket,
--   processRateLimitCheck and cleanupBuckets. slices.SortFunc is a parameter that sorts.
-- GrpcClient (06_grpc_concurrent_programming/client/client.go): GrpcClient.Breaker is CircuitBreaker,
--   GrpcClient.Retry the loop of executeWithRetry, the module itself executeWithRetry as a whole,
--   GrpcClient.Stream ListUsersStream, and GrpcClient.Pool the pool's GetClient. The operation is
--   a function on a state of its own, so that what it did in an attempt that failed stays.
--   isRetryableError is a parameter, since it reads the status code of the grpc module, and so is
--   what the server answers.
-- ConfigSystem (08_performance_optimization_and_production_operations/ans_03/
--   zero_downtime_config.go): ConfigSystem.Validation is validateConfig with its rules,
--   ConfigSystem.Versions the version controller, the module itself processConfigUpdate, the canary
--   rollout, its monitor and the rollbacks, and ConfigSystem.Runs the events of the system. The
--   criteria of a stage are a parameter, since their check compares float64 metrics.
-- WebSocket (04_concurrent_programming_for_web_processing/02_websocket_handler/
--   websocket_handler.go): WebSocket.Connections has messages and connections, the module itself the
--   registration of connections and the channels, WebSocket.Workers the message worker's handlers,
--   WebSocket.Runs the goroutines, one message at a time, until the handler is shut down. The IDs
--   that are generated from the clock and a random number are taken to be different.
-- PubSub (07_error_handling_and_monitoring/ans_03/pubsub_synctest.go): PubSub.Subscribers is a
--   subscriber with its queue and its maps, the module itself topics and the system, PubSub.Runs the
--   goroutines, one message at a time, PubSub.Ordering the order of the messages and
--   PubSub.Guarantee the map of pending messages. The handler's answers and the context that ends a
--   wait are parameters of the event that ends the handler's work.
-- TwoPhase (05_database_parallel_access_pattern/ans_02/distributed_transaction.go): the module itself
--   is the coordinator with its two phases, TwoPhase.Phases the phases one by one, TwoPhase.Outcomes
--   and TwoPhase.Atomicity what an execution leaves. The participants' queries, the database's
--   answers and the order of the map of prepared transactions are parameters.
-- Fallback (07_error_handling_and_monitoring/ans_02/fallback_manager.go): the module itself has the
--   constructor, Start, Stop, Reset and the evaluation of the mode, Fallback.Sliding the window,
--   Fallback.Execution a call in each mode and the cache, Fallback.Runs calls that overlap,
--   each use of the counter of workers a step of its own. Fallback.Clearing and Fallback.Recovery are
--   the way back, Fallback.Workers the limit of the calls. The ticker is a step of a run.
-- MultiAuth (04_concurrent_programming_for_web_processing/ans_02/multi_auth_system.go): the module
--   itself is AuthenticateParallel with what it calls, MultiAuth.Selection the choice among the
--   answers, MultiAuth.Cache the cache, MultiAuth.Stats the figures, MultiAuth.Jwt and
--   MultiAuth.ApiKey two of the providers. MultiAuth.Runs are overlapping calls, by critical
--   sections of the cache and touches of entries; the answers, their order, the instants and the
--   order in which the loop over the cache meets its keys are parameters of a step. The touch of an
--   entry that the map holds no more is no step. SHA-256, HMAC, base64, JSON and time.Unix are
--   parameters.
-- Prelude: shared names, Boolean tests, lists over the native numbers, Go's integers, float64.
--
-- Integers. uint32 and uint64 are their values, reduced where the code adds. int64 and durations
-- that the code adds up are two's complement patterns, numbers below 2 ^ 64. Signed values that the
-- code only compares are integers. Instants are nanoseconds since Go's zero time and do not wrap.
-- float64 is the parameter Float64: no law of floating-point arithmetic is assumed but those that
-- a theorem names as its hypotheses.
--
-- Concurrency. A run is a list of steps of the goroutines, and what is one step differs. In Breaker,
-- AdvancedBreaker and MultiAuth it is a critical section, an atomic counter's change or a touch, and
-- in Fallback also the work of a call: other goroutines come in between. In ConfigSystem, WebSocket
-- and PubSub it is the whole of a call or of the work for one message, which takes several locks or
-- channel operations, so that the theorems on their runs speak of runs in which these do not overlap.
-- RateLimiter, GrpcClient and TwoPhase have their calls one after the other. The clock is read by
-- the caller: each operation takes the instants that it reads. Callbacks that run in goroutines of
-- their own are recorded or, where no state depends on them, left out.
-- Loops are recursions on lists or counters that end by themselves: no model runs on fuel.
--
-- Not modelled: the programs that PROJECT.json lists so, log output, printing of statistics,
-- net/http, database drivers, and the main functions, which only drive the parts above.
pub mod Prelude
pub mod Breaker
pub mod AdvancedBreaker
pub mod RateLimiter
pub mod GrpcClient
pub mod ConfigSystem
pub mod WebSocket
pub mod PubSub
pub mod TwoPhase
pub mod MultiAuth
pub mod Fallback
