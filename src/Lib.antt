-- ===== src/Lib.antt =====
-- The recurring service platform: the books of a business that serves its customers every day.
--
-- The program (backend/app) is a FastAPI service over PostgreSQL. A tenant records each customer's
-- daily service and payments; every accepted fact appends to a ledger, a billing cycle closes into
-- statements, and the platform earns commission on the same facts, each in the one transaction
-- that accepts them. This library models that core as functions on a state of tables.
--
-- The parts, and the code of each, with paths from the root of the repository:
--   Base        tests, lists, results, integers and sums that the parts share
--   Core        backend/app/core: money.py (Money), clock.py (Clock), the dates of `datetime` (Date)
--               and the text operations of `str` (Text)
--   Models      backend/app/*/models.py and tenancy/context.py: the rows
--   Session     core/db.py: the tables `Db`, a command `Action`, the unique indexes (Tables), and
--               what an action leaves alone (Frames)
--   Billing     backend/app/billing: cycles.py (Cycles, Closing), ledger.py (Ledger), reporting.py
--               (Reporting), statements.py (Statements)
--   Commission  backend/app/commission: plans.py, engine.py, settlements.py and reporting.py
--   Service     backend/app/service/commands.py: record_service, correct_service, void_service
--   Payments    backend/app/payments/commands.py: record_payment, void_payment
--   Books       the accepted business against the ledger, histories of commands, and what a command of
--               one tenant leaves alone (Isolation)
--   Sync        backend/app/sync: idempotency.py (Idempotency: execute_idempotent) and changes.py (Changes,
--               with pages in the order of a key in Sorting), and the loop of frontend/src/sync/engine.ts
--               that asks for the pages (Pulling)
--   Reminders   backend/app/reminders: schedule.py (Schedule), engine.py (Engine: Stages, Generation,
--               Messages, Rows, Dispatch) and runner.py (Claims, Runner); what the engine keeps (Invariants), and
--               delivery, tables and amounts (Delivery, Confined, Amounts)
--   Search      backend/app/search/normalize.py: phone numbers (Phone) and names (Names)
--   Customers   backend/app/customers: commands.py (Fields, Commands) and aliases.py (Aliases)
--   Costs       backend/app/costs/estimates.py
--   Identity    backend/app/identity/capabilities.py
--   Tests       runs at concrete inputs
--
-- A command of the code takes a session and a context and commits or raises; here it is a function
-- from the tables to a result with new tables or an error, and an error leaves nothing behind, as
-- the rollback of the transaction does. A query is a search of the table's list. A unique index
-- or an exclusion constraint is a test at the insert that raises the integrity error or the domain
-- error that the code makes of it. Ids are numbers in place of UUIDs, since the code only compares
-- them; new ones come from a counter. Money is an integer of minor units; a quantity is a count of
-- thousandths; a Decimal is a coefficient over a power of ten, and the high-precision contexts of
-- the code are exact for the values that the columns hold. A value whose Python type the code
-- checks is a `PyValue`. An object of the session is the id of its row where the code changes it and
-- reads it again (the reminders). The message provider is a parameter that may answer or raise at
-- will, and a run of the reminders returns the tables that it has committed, also when it raises.
--
-- The walk along a correction chain (`chain_walk`) is on fuel: it gets two steps more than there are
-- records, which is enough because every further step visits a new record. The digits of a number n
-- (`decimal`, `grouped`) take n + 1 rounds at most. A client that pulls the change feed asks as many times
-- as its fuel, one more than there are newer rows at most.
--
-- Not modelled: HTTP routes and schemas, JSON shapes, lists for screens, error texts, time stamps
-- of the database, the hash of a request (an argument of `execute_idempotent`), the advisory lock
-- that puts commands of a tenant in one order, and the parts that the list above does not name
-- (search, offline batches, the reminder reports, cost commands, the dashboard, login).
pub mod Base
pub mod Core
pub mod Models
pub mod Session
pub mod Billing
pub mod Commission
pub mod Customers
pub mod Service
pub mod Payments
pub mod Books
pub mod Reminders
pub mod Costs
pub mod Identity
pub mod Sync
pub mod Search
pub mod Tests
