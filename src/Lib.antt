-- ===== src/Lib.antt =====
-- cax_commerce_operations: a model of the commerce platform of src/commerce_operations, in which
-- events, approvals, workflows, purchases, stock and marketplace orders are kept in one database and
-- changed by services, and what makes these services correct.
--
-- How the program is put together. The services of application/ change rows inside a transaction and
-- publish their events into the outbox (events/store.py) in the same transaction. The processor
-- (events/processor.py) delivers a stored event to its handlers, one transaction each, with a receipt
-- for each handler. Handlers start workflow runs (workflows/engine.py), whose step is rolled back if it
-- raises and is tried again later. Actions that need a human wait for an approval
-- (approvals/policy.py, approvals/engine.py), whose resume handler carries them out. The state machines
-- of orders and purchases and the stock arithmetic are the pure functions of domains/.
--
-- Which file models which part:
--   Prelude          booleans, `==`, lists and options over native numbers, integers
--   Errors           the exceptions, and calls that return or raise
--   Persistence      persistence/models.py and enums.py: rows, tables, keys, JSON columns
--   Session          a session: the tables, and actions that return or raise and change them
--   Domains          domains/orders, domains/procurement, domains/inventory, domains/pricing
--   Events           events/types.py, store.py, handlers.py, processor.py
--   Approvals        approvals/policy.py, engine.py
--   Workflows        workflows/engine.py: Definitions (the registry), Engine (one attempt), Scheduler
--                    (the entry points handle_event, resume and retry_due)
--   Application      Procurement for application/procurement.py, Inventory for
--                    application/inventory.py, Orders and Reservations for application/orders.py;
--                    Stock is the ledger that these three keep; Refunds for
--                    application/refunds.py, Pricing for application/pricing.py, CustomerService for
--                    application/customer_service.py, Orchestration for application/orchestration.py
--   Agents           ai/usage.py and provider.py, agents/customer_service_models.py
--   Worker           worker.py: one cycle over the outbox and the runs to retry
--   Security         security/middleware.py: who may call the web server, and how often
--   Integrations     integrations/repository_1: Contracts (contracts.py), Products (service.py);
--                    Marketplaces for integrations/marketplaces/listing.py and
--                    agents/listing_models.py
--   Examples         concrete runs
-- Definitions have the names of the functions they model, without a leading underscore; a part of a
-- long function that is a definition of its own says so.
--
-- How state corresponds. A session is a record of tables, each the list of its rows, oldest first. A
-- row that the code mutates is written back under its id, and its version counts the writes. An action
-- takes a session and gives a result and the session afterwards; a call that raises keeps what it
-- wrote until its caller rolls back, which `transact` does where the code opens a transaction or a
-- savepoint. One transaction runs at a time, so a row lock has no effect of its own and a conditional
-- UPDATE is a read, a test and a write. The primary key and the unique constraints are modelled for
-- events, and the unique key for movements, where the code relies on them.
--
-- Numbers. Columns with a CHECK `>= 0` are natural numbers, other quantities are integers. Money is in
-- ten-thousandths, as in the Numeric(19, 4) columns. The weighted cost basis is rounded once, as its
-- column stores it: that Python first rounds the quotient to 28 digits makes no difference for
-- quantities of 32 bits and amounts below 10^13, whose quotients are no closer to a half. The
-- quotients in the price calculation are exact fractions where the program computes with decimals of 28 digits. Ids come from
-- a counter in place of uuid4, times are numbers, and the clock is a field of the session. Nothing runs
-- on fuel: every loop goes over a list.
--
-- Parameters. The hashes of an approval's action, of an order command and of an approved product,
-- str.upper and str.lower, the digest of an API key, the text of an id, the search of a pattern in a
-- text, the first moment of a month, the answers of the language model, the text of an exception and the text of an order number are functions that
-- the definitions take; so are event handlers, resume handlers and workflow steps, with what the
-- theorems need of them as named hypotheses (IsTame, KeepsRuns, KeepsKeys).
--
-- Payloads. The dumping and the validation of payload classes are pydantic's: model_dump and
-- decode_payload write out what pydantic documents for the fields and the constraints that
-- events/types.py declares, with ids and amounts as they are in place of their texts. No theorem is
-- claimed of them alone.
--
-- What is not modelled: the drafts of listings and their publication, with the two steps of
-- orchestration that call them, beyond an orchestrator that has neither; the loop around a cycle of the
-- worker; the web API behind its middleware, the marketplace connectors, the language model,
-- configuration, logging, metrics, migrations and the dashboard, which are input and output
-- around these services. Read-only
-- queries for display are left out, as are columns that no modelled service reads.
pub mod Prelude
pub mod Persistence
pub mod Errors
pub mod Domains
pub mod Events
pub mod Session
pub mod Approvals
pub mod Workflows
pub mod Integrations
pub mod Agents
pub mod Application
pub mod Security
pub mod Worker
pub mod Examples
