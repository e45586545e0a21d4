-- ===== src/Lib.antt =====
-- The verification of the hosted agents platform (src/saas_platform).
--
-- The program is a service with an HTTP API. Tenants are created on a plan and provisioned by a
-- worker that takes jobs from a queue; administrators manage plans, agents and entitlements; a
-- customer of an active tenant runs an agent within a rate limit and a monthly quota, and each run
-- is metered. The API (api/main.py) calls the policies (policies/) and the adapters (adapters/)
-- through the interfaces of domain/interfaces.py.
--
-- Files, with the code that they model:
--   Domain.Models        the models of src/saas_platform/domain/models.py as records
--   Domain.Interfaces    the abstract classes of src/saas_platform/domain/interfaces.py
--   Domain.Action        methods that change a state and may raise: a function from the state to an
--                        outcome and the new state, which is kept when an exception is raised
--   Config               `Settings` of src/saas_platform/config.py; Environment is `get_settings`
--   Adapters.Storage     src/saas_platform/adapters/storage.py: Catalog (tenants and plans), Agents
--                        (agents and entitlements), Queue (jobs), Usage (metering), and Memory, in
--                        which they implement the interfaces
--   Adapters.Database    a table as the sessions of SQLAlchemy use it (a parameter), its laws, and what
--                        the changes of a session make of every row
--   Adapters.Postgres    src/saas_platform/adapters/postgres.py over tables: Catalog, Agents, Jobs and
--                        Usage, with what relates them to the in-memory adapters
--   Adapters.Transport   src/saas_platform/adapters/queue.py: StorageQueue and ServiceBus, and Delegate
--                        on the durable queue behind them
--   Adapters.Foundry     src/saas_platform/adapters/foundry.py: the gateway, Policy on its credentials,
--                        Threads on the threads that it creates, with Laws
--   Adapters.Secrets     names and references of src/saas_platform/adapters/secrets.py
--   Ops.EntitlementRollout   src/saas_platform/ops/entitlement_rollout.py: Mapping on the file that is
--                        loaded, Rows and Effect on the table
--   Provisioning         Worker is `process_next_job` of src/saas_platform/provisioning/worker.py, with
--                        Outcomes on its stores, Retries and Backoff on its failures; Runner the polls
--                        of src/saas_platform/provisioning/runner.py
--   Policies.Quota       src/saas_platform/policies/quota.py
--   Policies.RateLimit   src/saas_platform/policies/rate_limit.py; Redis is the limiter over Redis
--   Policies.Auth        src/saas_platform/policies/auth.py: Claims (what is read from a token), Jwks
--                        (bearer tokens and the cache of keys), Tenant and Admin (the two services)
--   Api                  the handlers of src/saas_platform/api/main.py: Plans, Tenants, Agents, Runs,
--                        Identity, Month, and Admin, the admin endpoints as one type of requests;
--                        Context is `AppContext`, Backends the choice of queue and limiter
--   Telemetry            the tags and attributes of src/saas_platform/telemetry.py
--   Calendar, Text, Collections   what the code calls of Python: `strftime("%Y-%m")`, methods of
--                        strings, dicts and sets
--   Tests                runs on concrete input
--
-- Conventions. A method that reads a clock, a uuid or the network takes what it reads as an
-- argument. A `datetime` is a number of microseconds since 1970-01-01 UTC; Python's `int` is an
-- integer without bounds; a `float` is of a type that is a parameter, with its `0.0`, `+` and `sum`.
-- The lock of the rate limiter is held for a whole call, so calls are steps one after the other. All
-- recursion is on the structure of lists, texts and numbers, except two on fuel: the calendar's search
-- of the year, whose fuel is the number of days, as no year is empty, and the digits of a number, whose
-- fuel is the number, as a quotient by ten is less.
--
-- Parameters stand for what is not the program's: PyJWT and the keys (`Jwt`), the network and the
-- clock of one call (`Reading`), the provider of agents (`AgentGateway`), the text of an exception
-- (`text_of`), a table of the database (`Table` with `TableLaws`), its order of texts (`text_le`) and
-- the rows that other sessions have locked (`locked`), the clients of the message services
-- (`QueueClient`, `ServiceBusClient`), of azure-ai-projects (`AgentsClient` with `ThreadLaws`) and of
-- Redis (`RedisClient` with `CounterLaws`), and `json.dumps`, `json.loads`, `ast.literal_eval` and `int`
-- of a text. Tests gives each law an instance in memory. A session of the database is one step, and its
-- statements are undone together; what a select leaves open of the order of rows is left open.
-- `lower`, `isalnum` and the digits of a month are those of ASCII. A retry whose new time is after the
-- year 9999 raises.
--
-- Not modelled: the spans and log lines in the functions that are modelled, which change no
-- state; the length and range checks of requests, which pydantic makes before a handler runs; the
-- widths of columns; the constructors of the adapters, which make the clients, and the store in
-- Key Vault, which only calls its client; the choice between Postgres and memory; the endless
-- loop of the worker beyond the rounds that are given; command lines and files; the migrations
-- and the infrastructure.
pub mod Prelude
pub mod Collections
pub mod Text
pub mod Calendar
pub mod Config
pub mod Domain
pub mod Adapters
pub mod Provisioning
pub mod Policies
pub mod Api
pub mod Ops
pub mod Telemetry
pub mod Tests
