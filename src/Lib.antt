-- ===== src/Lib.antt =====
-- A model of the subscription service: which tier a user is on, kept in step with Stripe.
--
-- Stripe is the source of truth. A webhook delivery or a job asks Stripe for a customer's current
-- subscription and mirrors it into the customer's row; the read path answers what a user is
-- entitled to from that row and from manual grants, through a cache that every write invalidates
-- after its commit.
--
-- The modules and the code that they are about:
-- Prelude: shared names, Boolean tests, lists and dictionaries.
-- Plans, Plans.Prices: app/plans.py, the tiers, their catalog and the configured prices.
-- Models: app/models.py, the rows. Settings: app/config.py. Policy: app/policy.py.
-- Provider: app/billing_provider.py. The provider is a parameter: a record of functions over a
--   state of its own, of which nothing is assumed but what a theorem names.
-- Effects: actions that read and write a world and may raise, with Hoare triples.
-- Cache: the in-memory backend of app/cache.py; Calls has its calls one after the other, and a store
--   that forgets nothing as their specification.
-- World, World.Database, World.Session: the session of app/db.py as the services use it, the unique
--   constraints, the audit trail (app/services/audit.py), and the invalidation marks, the commit and
--   the rollback of app/services/entitlements.py.
-- Entitlements: app/services/entitlements.py; Resolve is `_resolve_from_db` and `_ttl_for`, Read is
--   `resolve_entitlements`, Read.Copies the two copies that it leaves in the cache.
-- Sync: app/services/subscriptions.py; its top module is the pure part (`resolve_tier`, `project`,
--   `_write`), Mirror is `sync_subscription_from_stripe`.
-- Calendar: the dates of Python's `datetime` that the quota windows use.
-- Quota: app/services/quota.py; Window is `window_for` and the key and TTL of a counter, Upgrade is
--   `upgrade_tier_for`; `peek`, `states`, `consume` and `_mirror` are in its top module.
-- RateLimit: app/ratelimit.py, `enforce`. Decimal: numbers as text, in the keys of counters.
-- Webhooks: app/routers/webhooks.py, `_claim`, `_handle`, `_mark` and `stripe_webhook`.
-- Json: decoded JSON, and Python's reading of it. Timestamps: dates and times as texts.
-- Stripe: app/stripe_client.py as a provider over Stripe's library, which is the parameter
--   `StripeApi`; Parse is `parse_subscription` and what it calls, Current is `_current`, Params the
--   parameters of the calls.
-- Billing, Billing.Portal: app/services/subscriptions.py, checkout, cancellation, resumption and the
--   portal.
-- Flags: app/flags.py. Api, Api.Plans: app/routers/billing.py, and `get_session` of app/db.py.
-- Admin: app/routers/admin.py, the operations of support that change something.
-- Jobs.ExpireGrace: app/jobs/expire_grace.py, in a session that begins with nothing pending; Due says
--   which rows are due without the job's tests. Jobs.Reconcile: app/jobs/reconcile.py; its top module
--   is `_reconcile_one` and a customer's transaction, Report the report, Notify the mail about
--   orphans, Walk the loop over Stripe's pages.
-- Service: all of it as a step relation, one request, delivery, operation or job after the other.
--   The modules named Keeps are about the invariant of Service.Calm; each stands below the component
--   whose actions it follows.
-- Tests: runs on small inputs, and each theorem applied at one.
--
-- Times are microseconds since 1970 in UTC, and an action runs at one instant. The world holds what
-- the session sees (`db`), what is committed (`saved`), the marks, the cache, the provider's state,
-- and an environment: whether the database answers, which calls of the cache fail, which rows are
-- locked by others, and what other workers commit while this one is about to insert. Numbers are
-- unbounded, as Python's are. Loops run over lists, but for three that take fuel: `walk` reads a page
-- of Stripe's for each unit, so that more fuel than there are subscriptions is enough; `month_at` walks
-- the months from 1970 with one round per 28 days, which no month falls short of; `decimal_on` has
-- as many rounds as the number that it prints, of which each round takes a digit.
--
-- Not modelled: log lines, metrics and the text of errors; the signature check of a webhook, whose
-- outcome is the kind of a delivery; what Stripe's library does over the network; the Redis backend;
-- the sales inquiries; the views for support that only read; the routers of app/routers/entitlements.py
-- and app/routers/chat_demo.py, which shape responses; authentication, migrations, scripts and the
-- web client. Of other workers the model has the rows that they commit and the locks that they hold,
-- not their interleaving with this one's reads of the cache. Limits below 0 of a rate limit have no value
-- here; a cancellation or a resumption of a row with a subscription and no customer, which no sync
-- writes, raises here, where the source looks for a row without customer.
mod Prelude
pub mod Plans
pub mod Models
pub mod Effects
pub mod Provider
pub mod Settings
pub mod Entitlements
pub mod Cache
pub mod Calendar
pub mod World
pub mod Policy
pub mod Sync
pub mod Service
pub mod Webhooks
pub mod Quota
pub mod Billing
pub mod Timestamps
pub mod Flags
pub mod Api
pub mod Admin
pub mod Jobs
pub mod Stripe
pub mod Decimal
pub mod Json
pub mod RateLimit
pub mod Tests
