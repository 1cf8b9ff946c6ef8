-- ===== src/Lib.antt =====
-- Verification of GoShield, a set of Go services that take insurance claims, have them analysed for
-- fraud, and notify the analysts, and of goerp, the business application in the same repository.
--
-- The parts. A client creates a claim at services/claim-service, which stores it and publishes a
-- created event. services/ai-service-go consumes it, asks an inference service for a score, and
-- publishes an analysed event, and a flagged event for a high score. The claim service consumes the
-- analysed event and sets the claim's status. services/notification-service consumes the analysed,
-- flagged and review events and sends broadcasts to websockets, mails and Slack alerts. Requests
-- reach the services through services/api-gateway, which limits their rate and checks their tokens;
-- services/auth-service keeps the accounts and gives the tokens out.
--
-- Prelude holds the names and lemmas that all files share. Go models what the code uses of the
-- language and its libraries: errors and wrapped errors (Go/Errors), float64 as an interface with
-- comparisons and literals (Go/Float), JSON objects with flat fields (Go/Json), text as code points
-- (Go/Text), and the world of a service (Go/World): its store, the messages that it has published
-- and a count of its calls. An operation is a function from a world to a result and a world; what the
-- database, the broker, the clock and the generator of ids answer to the n-th call is the
-- argument `Env`, so a failure may occur at any call. Go/World/Steps has the rules by which a
-- relation between stores is carried through an operation.
--
-- Events is pkg/events/kafka.go: payloads and their JSON (Payload), `Publish` and `PublishPayload`
-- (Producer), `Consume` with its retries and commits (Consumer). The loop runs over a list of
-- fetches, which stands for the time until the context is cancelled, and tries a handler three
-- times, as the source does.
-- Claims is services/claim-service/internal: Domain is domain/claim.go; Where and Repository are
-- repository/claim_repository.go, each SQL statement a function of the rows of the table. The order of
-- a sorted query is an argument for each query anew, since the database may order equal rows as it
-- likes. What the columns round (an amount to cents, a time to microseconds, a date to its day) is
-- rounded at the insert, by functions of `Float64` and `Env`; a score is stored as given. Service is
-- service/claim_service.go; Kafka and Http are handler/kafka_consumer.go and handler/http.go; Csv is
-- the CSV writer of http.go. An operation has the name of its Go function in lower case.
-- Analyzer is services/ai-service-go/internal/consumer/claim_consumer.go, with the inference service
-- as a parameter; Analyzer/Pipeline puts it together with the claim service.
-- Notifications/Hub is services/notification-service/internal/hub/websocket_hub.go, the loop of the
-- hub as a list of signals in the order in which it takes them, with the panics of Go's channels as
-- a flag; Notifications/Consumer is internal/consumer/notification_consumer.go, with the text of an
-- amount with two places as a parameter.
-- Gateway/Limiter is services/api-gateway/internal/ratelimit/redis_limiter.go with its Lua script, and
-- internal/middleware/ratelimit.go; Gateway/Auth is internal/middleware/auth.go with the validation
-- of pkg/middleware/auth.go, the parser of tokens being a parameter.
-- Accounts is services/auth-service/internal: Domain is domain/user.go, Repository is
-- repository/user_repository.go, and Service is service/auth_service.go with the tokens of
-- pkg/middleware/auth.go; a history of the service is a list of requests. Hashing and signing are
-- parameters, and the use of a nil pointer is an error of its own. The hash of a password may be NULL,
-- as it is for users of OAuth only; to read such a row is an error. Accounts/Http is handler/http.go:
-- the requests and responses, in Public the routes without a token and in Users the routes below
-- /users; Middleware is the check of their token in pkg/middleware/auth.go, with the identity that the
-- claims' handlers use too. The validator's tags, Google and the parser of tokens are parameters.
-- Inventory is goerp/internal/inventory: Domain is domain/product.go; Repository, with Moves,
-- Catalogue and Reports below it, is repository/inventory_repo.go, the sums of its SQL written out
-- row by row; Codes, Checks, Usecase and Stock are usecase/inventory_usecase.go, Codes the generated
-- codes, Checks the validation, and Stock the moves, adjustments and reorder alerts. A goroutine
-- waits in the store until a step runs it, so that it may run at any later time. Requests and
-- Stock/Journal are histories of all requests and of the operations on stock.
-- Sales is goerp/internal/sales: Domain, Tables and Repository (repository/sales_repo.go) and Usecase.
-- Schema is the part of goerp/internal/shared/database/database.go that lists the columns of the
-- tables which the next two name: a statement on a table or a column that is not there fails.
-- Accounting is goerp/internal/accounting, domain/accounting.go and repository/accounting_repo.go.
-- Crm is goerp/internal/crm: Domain, Repository (repository/crm_repo.go) and Usecase; its statistics are
-- left out. Each of their statements names its table and its columns and is otherwise a function of
-- the rows that the table would have.
-- Samples has the concrete inputs of the modules named Examples.
--
-- Numbers: amounts and scores are an abstract float64 (with an abstract arithmetic in goerp), so that
-- nothing rests on rounding; a theorem that needs x + 0 to be x says so; pages,
-- sizes and times are natural numbers, and a negative page or size, which the code treats as 0, is
-- 0. No fuel is needed: every loop runs over a list or a fixed count.
--
-- Not modelled: logs, the pauses between attempts, goroutines and locks, the statistics query
-- GetDailyStats, routing and the start of the processes, object storage, mail and Slack
-- transport, the reverse proxy, and of goerp its HTTP handlers, its server, the rest of its schema,
-- and its parts purchases, hr and auth.
pub mod Prelude
pub mod Go
pub mod Events
pub mod Claims
pub mod Analyzer
pub mod Notifications
pub mod Gateway
pub mod Accounts
pub mod Inventory
pub mod Sales
pub mod Accounting
pub mod Crm
pub mod Middleware
pub mod Samples
pub mod Schema
