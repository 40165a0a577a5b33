-- ===== src/Lib.antt =====
-- The frontend of the Royale AI platform, in five parts: the sign-in, the executive insights, the
-- synchronisation with the ERP, the analysis of the stock, the sales and the purchases with the
-- executive dashboards, and the proxy to the backend.
--
-- The sign-in (frontend/src/auth). Auth.Domain has the roles, the permissions and the table of
-- role-permissions.ts. Auth.Permissions has permission-service.ts and nav-filter.ts. Auth.Attempts
-- has users.ts: the module variable `attempts` is a record that logAttempt and isBlocked pass on, and
-- the table of users is an argument. Auth.Password has password.ts over a record of the platform's
-- text encoder and PBKDF2. Auth.Session has session.ts over a record of JSON, HMAC and base 64 and a
-- record of the operations of a storage; a throw of the platform is `none`. Auth.Login has
-- auth-service.ts, which calls all of these: `login` passes on the count of attempts and the stores,
-- and each reading of the clock is an argument.
--
-- The executive insights (frontend/src/features/executive-insights). Insights.Domain has the data,
-- Insights.Transitions has lifecycle-transitions.ts, Insights.Stores has the interfaces of the
-- repository and of the timeline with the laws that the engine relies on, Insights.Stores.Memory has
-- the in-memory stores of the tests, and Insights.Lifecycle and Insights.Engine have the lifecycle
-- engine over any repository and timeline. Insights.Spec says what a reconciliation makes of one key,
-- without loops or stores.
--
-- Insights.Alerts and Insights.Queries have the alert engine and the questions to the timeline,
-- Insights.Narrative the guard, the template provider and the narrative engine, and
-- Insights.Intelligence the intelligence engine, which reads the stores, and the facade for the
-- copilot. What an external provider answers is a function of the input; dates are printed by
-- functions of the platform.
-- Insights.Keys has buildInsightKey over the Unicode functions of the platform, and Insights.Builders
-- the six builders, whose literals share one record with the fields that differ as arguments.
--
-- The synchronisation with the ERP. Sync.ProductSales has services/product-sales.ts, Sync.Batches with
-- its children Products and OrderItems the two loops of services/sync-batches.ts, which call it, over
-- any backend and any storage of the kind of Auth.Session, and Sync.Central the parsers of
-- app/(authenticated)/admin/integrations/bling/sync-central-state.ts over the values of JSON (all paths
-- from frontend/src). The loops run on fuel: IsCheckpointed and IsAscending say what the backend
-- does for the operation of a run that makes enough fuel enough; Sync.Tests.Erp has a backend that keeps
-- a checkpoint for each operation, as backend/modules/integration/checkpoint.py does.
--
-- The analysis of the stock and the executive dashboards. Inventory has
-- frontend/src/features/inventory-intelligence, Executive has executive-intelligence, with the
-- rules in MarketRules and StockRules and the service in Generating, which reads the summary of
-- Inventory, and, with Strategies and Prioritization, executive-prioritization, which orders its
-- insights. Marketplace.Grouping has grouping.ts and health.ts of marketplace/utils. Numbers has the
-- interface of the numbers that these compute with: the operations are parameters, and AreOrdered has
-- the laws that the orders rest on, those of the numbers other than NaN. The replenishment score is
-- counted in half points, in which it is exact.
--
-- Proxy has frontend/src/app/api/backend/[...path]/route.ts, through which the pages reach the backend:
-- a call gives what it sends, what it answers and what it logs.
--
-- Executive.Timeline has frontend/src/features/executive-timeline: the comparators in
-- MarketChanges, StockChanges and InsightChanges over what Comparing holds, and compareSnapshots in
-- Merging. Numbers.Falling is the order that the sort of the timeline shares with that of the priorities.
--
-- Sales has frontend/src/features/sales-intelligence, which reads the analyses of Inventory: the
-- calculators and evaluators, and analyze in Service.
--
-- Purchase has frontend/src/features/purchase-intelligence in the same way.
--
-- Prelude, Text and Bits have what the parts share: tests on native numbers, lists with a native
-- length, a stable sort, texts as lists of code units with split, trim, parseInt, includes and maps by
-- text, and facts on the bitwise operations of the comparison of hashes.
--
-- All loops but those of the synchronisation are structural recursion over lists. The printing of a
-- number recurses on fuel, one more than the number, which is enough since each digit divides it by
-- ten. Counts and times are natural numbers: the code stays far below 2 ^ 53. Calls that await one
-- another are steps of a state; Auth.Login.Interleaving cuts `login` in two halves where it awaits
-- verifyPassword, so that calls can overlap.
--
-- Not modelled: React components and hooks, fetching from the backend, the backend itself, and the
-- other features of the frontend. The platform's cryptography, JSON and sessionStorage are parameters,
-- with the laws that the code relies on in IsPbkdf2, IsPlatform and IsStorage.
pub mod Auth
pub mod Bits
pub mod Executive
pub mod Insights
pub mod Inventory
pub mod Marketplace
pub mod Numbers
pub mod Prelude
pub mod Proxy
pub mod Purchase
pub mod Sales
pub mod Sync
pub mod Text
