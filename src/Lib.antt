-- ===== src/Lib.antt =====
-- serp-harvester fetches search pages and web pages through a pool of proxies. A worker
-- (internal/worker) takes a job, asks the proxy pool (internal/proxy) for a proxy, waits for the
-- bucket of the rate limiter (internal/ratelimit), fetches (internal/fetcher), classifies the
-- result, feeds it back to the pool, the limiter and the counters (internal/metrics), and retries
-- or delivers the parsed result to a sink.
--
-- Files:
--   Prelude, Prelude/*: the names passed on from the libraries; Boolean tests, lists, int64 and
--     float64, byte strings, maps as association lists, stores of cells.
--   Proxy, Proxy/*: internal/proxy/pool.go. `Proxy` and `Pool` are the structs, with proxies as
--     references into a store; Health, Cooldown, Report, Setup, Rotation and Queries have the
--     functions healthLocked and recordHealthLocked, escalatedCooldownLocked and coolLocked,
--     ReportOutcome, NewPool and Reload, Next, and NextAvailableAt, Counts and AllStats.
--   Limiter, Limiter/Adaptation: internal/ratelimit/limiter.go.
--   Metrics, Metrics/Browser, Metrics/Latency: internal/metrics/metrics.go, acquisition.go,
--     browser.go and latency.go.
--   Fetcher, Fetcher/Classify, Fetcher/Pages, Fetcher/RetryAfter, Fetcher/Failover:
--     internal/fetcher/fetcher.go, classify.go, errors.go and failover.go. Pages has classifyPage,
--     classifyGenericPage, requiresJS, looksLikeJSShell and blockedErrorFor.
--   Fetcher/Http, Fetcher/Http/*: internal/fetcher/http.go. fetch_http is Fetch by stages; Requests
--     and Verdict prove.
--   Fetcher/Provider, Fetcher/Provider/Overview: internal/fetcher/provider.go.
--   Fetcher/Sessions, Fetcher/Sessions/*: internal/fetcher/playwright.go, the state of
--     PlaywrightFetcher with NewPlaywrightFetcher, acquire, release, browserLocked, newSession and
--     Close. Launch, Profile and Conservation prove; Conservation/Start is about the constructor and
--     Conservation/Steps about sequences of calls.
--   Fetcher/Render, Fetcher/Render/Verdict: internal/fetcher/playwright.go, render and Fetch.
--   Extract, Extract/*: internal/extract/extract.go. A page is the function page; Cut, Gathering and
--     Order prove.
--   Parser, Parser/Provided: internal/parser/json_provider.go on the decoded response.
--   Queue, Queue/Handover: internal/queue/queue.go and redis_stream.go.
--   Model: internal/model/model.go and page.go.
--   Config: internal/config/config.go.
--   Robots, Robots/*: internal/robots/robots.go. Matching has compile and the regexp that it makes,
--     Robots the functions Parse and Allowed, and Cache the map of For; Precedence and Refusal prove.
--   Crawl, Crawl/Frontier, Crawl/Delay: internal/crawl/crawler.go, the coordinator of Run as a
--     list of events, and waitCrawlDelay.
--   Crawl/Target, Crawl/Target/Domains: internal/crawl/target.go, compile, follows and normalize.
--   Crawl/RobotsFile: internal/crawl/crawler.go, RobotsGetter, a client of the worker's acquire.
--   Crawl/Visit, Crawl/Visit/Counting: internal/crawl/crawler.go, visit, a client of the worker's
--     Acquire; robots.Cache and the timer of a crawl delay are the record Site.
--   Api, Api/Status: internal/api/server.go, the handlers on decoded requests.
--   Scheduler, Scheduler/Firing: internal/scheduler/scheduler.go.
--   Worker, Worker/*: internal/worker/pool.go. Timing has backoffDuration and sleepCtx, Feedback
--     recordOutcome, Acquire the functions nextProxy and Acquire by stages, Process the function
--     process. Waiting, Totality, Attempts and Conservation prove.
--   Examples/*: concrete inputs.
--
-- Time is a natural number of nanoseconds from Go's zero time on; a duration is an int64 with its
-- wrap-around, a uint64 counter is kept modulo 2 ^ 64. float64 is a parameter (Prelude/Ieee) with the
-- laws of IEEE 754 that the code relies on. The clock, the context, timers, random draws, the
-- fetcher, the parser, the sink and rate.Limiter are parameters; `time.Now` is read anew wherever
-- the code reads it. Strings are lists of bytes.
--
-- A fetcher over HTTP, the provider's API, the browser, Redis and a document are records of the
-- operations that the code calls in them (Web, Provider, Driver and Pages, Stream, Html and Dom),
-- over a world that they change; their laws are not assumed. Floating-point scales are thousandths.
--
-- Fuel: only the loop of nextProxy and the consumer loop of the Redis stream have fuel. Two rounds
-- are enough for nextProxy when the clock does not go back and timers do not fire early; the
-- consumer loop runs until its context ends, so its fuel is the number of rounds that are looked
-- at. The retry loop recurses on the rounds left, MaxRetries + 1.
--
-- Not modelled: goroutines and channels of the worker's Run (a call is sequential and the mutexes
-- make each operation of the pool and of the limiter atomic; acquire of the browser's sessions is
-- one step, although it opens the context outside the mutex; the wait of Close for the slots is the
-- driver's), logging, the HTML parser, the Postgres sink,
-- the Prometheus collector, HTTP routing, and the commands. Functions of strings that depend on
-- Unicode (ToLower, ToUpper, TrimSpace, Fields), net/url, regexp and strconv.ParseFloat are
-- parameters.
pub mod Prelude
pub mod Proxy
pub mod Metrics
pub mod Fetcher
pub mod Extract
pub mod Parser
pub mod Queue
pub mod Limiter
pub mod Worker
pub mod Model
pub mod Robots
pub mod Crawl
pub mod Api
pub mod Config
pub mod Scheduler
pub mod Examples
