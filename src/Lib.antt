-- ===== src/Lib.antt =====
-- Verification library of the gateway: the parts that decide what a request may use and what it
-- costs. A request is admitted by proxy/limiter.go (the owner's status, the budgets, requests and
-- tokens per minute, one generation of a user at a time), its body is buffered under the budget of
-- proxy/bytebudget.go, pricing/ gives the largest output that the budget affords, and after the
-- upstream has answered, pricing/ normalises the reported usage and prices it, and
-- db/billing_atomic.go settles the cost once, with the overage taken from the top-ups.
--
-- Which file is about which code:
-- - Prelude: shared types and tests. Prelude/Int has the integers and the wrapping arithmetic of
--   `int64`, Prelude/Text strings as lists of bytes, Prelude/Ascii and Prelude/Decimal the functions
--   of strings and strconv, Prelude/Json decoded JSON, Prelude/Float `float64` as a parameter,
--   Prelude/Assoc maps, Prelude/Outcome the pairs `(value, error)`.
-- - Money: money/money.go. Amounts are integers; `big.Int` is the unbounded integer. `Add` is
--   `add`, `CostForTokensScaled` is `cost_for_tokens_scaled`, `ceilQuotient` is `ceil_quotient`.
--   Money/Printed is `ParseUSD` and `String`.
-- - Pricing/Usage, Pricing/Rates, Pricing/Window, Pricing/RuleSet, Pricing/Quote: usage.go,
--   ttlrate.go, window.go and pricing.go of pricing/. An instant of a price window is a number of
--   nanoseconds since Go's zero time, midnight of Monday 1 January of the year 1 in UTC, which is 0. `New` is `build`, `QuoteAt` is `quote_at`,
--   `MaxOutputTokensAt` is `max_output_tokens_at`. Errors are the constructors of Pricing/Fault.
-- - ByteBudget: proxy/bytebudget.go, as steps of a pool of requests.
-- - Billing/Period, Billing/Reset, Billing/Legacy, Billing/Store, Billing/Settle: db/billing.go,
--   db/exact_money.go and db/billing_atomic.go. The store is a record of tables, a query is a
--   function of it, and `SettleUsageAndLog` maps a store to the store that it commits.
-- - Limiter/Sliding, Limiter/Admission, Limiter/Generation: proxy/limiter.go. `CheckLimit` is
--   `check_limit`, `checkInMemoryLimits` is `check_in_memory_limits`, and the mutex makes each call
--   of the generation guard one step.
-- - Reported: the counts that an upstream reports (proxy/translator.go), and what of them is priced.
-- - Thinking: proxy/thinking.go. Thinking/Openai and Thinking/Anthropic are `ApplyThinkingOpenAI` and
--   `ApplyThinkingAnthropic`, as functions of the decoded body that give the body and the setting.
-- - Media: proxy/media.go, which modalities a request carries and what is taken out of it.
-- - Catalog: proxy/catalog.go and `discoverableModel`, with `catalogRecord` as `catalog_record` and
--   `establishModelResolution` as `establish_model_resolution`.
-- - Conditioning: proxy/deepseek.go, on decoded bodies.
-- - Upstream: upstreamurl/chat.go.
-- - Handler: `affordableGeneration` of proxy/handler.go is `affordable_generation`. Handler/Costing is
--   `setCalculatedCost`, Handler/Outcome the end of a stream and the answer to a refusal,
--   Handler/Limits the bounds on input and output, Handler/Request what is read from the headers.
-- - Affinity: proxy/affinity.go, the provider that a session is kept on.
-- - Outbox: proxy/outbox.go, as steps of its workers.
-- - Login: main.go, the throttle of failed logins and the authentication of the administration.
-- - Tests: the theorems at concrete inputs.
--
-- Bounds: the search for an allowance has 64 rounds as fuel, enough for every `int64` since each
-- round halves the interval; its result is an option, none only when the fuel is spent. The scan
-- for the next boundary has the 11520 minutes of eight days, as in the code. Loops over lists are
-- recursions on the list.
--
-- Texts are read as ASCII where the code folds case or trims: another byte has no case and is no
-- space. A decoded number is a float of which only the integer part is read. `String` takes as fuel the
-- number of calls of itself that it may make. What crypto, encoding/json, net/url and mime compute, and the two
-- calls of the database in the outbox, are arguments.
--
-- Not modelled: HTTP, streaming and the translation of messages (the rest of proxy/, admin/, main.go),
-- the SQL of administration, Redis and its scripts (what Redis answers is a parameter), and
-- floating-point arithmetic. Wall-clock readings are arguments, and a database that fails leaves the
-- store as it was.
pub mod Prelude
pub mod Money
pub mod Pricing
pub mod ByteBudget
pub mod Billing
pub mod Limiter
pub mod Reported
pub mod Thinking
pub mod Media
pub mod Conditioning
pub mod Catalog
pub mod Upstream
pub mod Handler
pub mod Affinity
pub mod Outbox
pub mod Login
pub mod Tests
