-- ===== src/Lib.antt =====
-- The payment service of ABMCY Core: client apps make deposits, payouts and refunds through the
-- DIARRA gateway, which calls back, and the outcome is relayed to the app. A console reads and
-- steers it, and a tool applies the files of migrations/ to its database.
--
-- Parts, and the code of each (paths from the root of the repository):
--   Int64                  Go's int and int64: integers with the wrap-around of 64 bits
--   Fees                   internal/fees/fees.go: Compute
--   Model                  internal/model: the rows, the inputs, the limits
--   Orders                 ORDER BY and sort.Strings: what a rearrangement of rows is
--   Stats                  internal/repository/stats_repo.go: the figures of a list of rows
--   World                  what the handlers run in: the tables, the requests that went out, and an
--                          environment for all that is outside the repository
--   Repo                   internal/repository: Apps, Payments (with Rows, Listing) and Signups, with
--                          the constraints of migrations/*.sql, and the queries of Stats; on what
--                          they do: Conflicts, Book and Pages of Payments, Consistent of Stats,
--                          Unique of Signups
--   Decimal, Uuid, Token   strconv and fmt as they are used, abmcyUUID, internal/auth/token.go
--   Http, Gateway          requests and answers, internal/gateway/diarra_client.go
--   Auth                   internal/middleware: RequireApp and RequireAdmin; on whom they let through:
--                          Window, Guards, Signature and Bearer
--   Payments               internal/handler/payment_handler.go: Handler, Pay, Refund, Payout, Relay,
--                          Callback, Hosted
--                          and, on what they do: Ordering, Idempotence, Limits, Refusals, References,
--                          Backing and Returning (with Calls and Slips), Delivery, Tracing, Draining
--   Signup, Admin          internal/handler/signup_handler.go and admin_handler.go, whose lists and
--                          figures are in Admin/Listings; on what they do: Approval and Unique
--                          of requests, Deactivation and Levels, and the Credentials of each
--   TestPage, StaticPages  internal/handler/test_page.go, and landing.go, widget.go and docs.go
--   Server                 cmd/server/main.go: the routes, their guards, and the runs of the server
--   Startup                cmd/server/main.go and internal/db/db.go: the configuration; on its starts:
--                          Ready, Configured
--   Migrate                cmd/migrate/main.go; on its runs: Replay, Again, Finishes
--   Ledger                 the invariant of the table payments, and its proof for every handler
--
-- An operation is an action of the type World → A × World. A Go function that returns early becomes
-- a chain of definitions, one for each early return, each of which takes what the code has found so
-- far. An SQL statement is one action; the environment says of each whether it runs, is refused, or
-- runs and then loses its answer, which also stands for what the database refuses by itself, as an
-- id that is no UUID. Requests are answered one after the other: two handlers do not interleave,
-- but a relay that a callback leaves to a goroutine runs at any later time, or never. The tool of
-- Migrate has a world of its own: a schema, the names in schema_migrations, and the same faults.
--
-- Parameters: the clock, the random source, the database's UUIDs, faults and arrangement of rows,
-- the gateway and the apps behind HTTP, HMAC and SHA-256, the reading and the writing of JSON,
-- net/mail, AddDate, whether a text is a URL, the process environment, the files, and what the SQL
-- of a migration does. The only fuel is that of the decimal digits of a number: twenty, which every
-- int64 fits in.
--
-- An id in a request is compared as a text with the id of a row, so a UUID spelt otherwise than the
-- database writes it (upper case, no hyphens) finds no row; only the filter of ListPayments reads
-- its UUID first. That relay_attempts is an INTEGER column, which refuses 2^31, is left to the
-- faults of statements.
--
-- Not modelled: the texts of pages and scripts (the HTML of the landing, test and hosted pages, the
-- widget, the integration document), logging and headers for browsers and crawlers; the query that
-- appendQuery writes with net/url; the SQL of migrations/ as text, whose constraints are part of the
-- statements; the interleaving of the statements of two requests; and the TypeScript dashboard, a
-- client of the console.
pub mod Base
pub mod Int64
pub mod Fees
pub mod Orders
pub mod Model
pub mod Stats
pub mod World
pub mod Repo
pub mod Decimal
pub mod Http
pub mod Gateway
pub mod Auth
pub mod Uuid
pub mod Payments
pub mod Token
pub mod Signup
pub mod Admin
pub mod TestPage
pub mod StaticPages
pub mod Server
pub mod Startup
pub mod Migrate
pub mod Ledger
mod Tests
