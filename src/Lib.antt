-- ===== src/Lib.antt =====
-- The core rules of Colab's services: what its credit wallet, its subscription mirror, its refunds and
-- its dunning do in services/billing-svc, how a profile's badge moves in services/profile-svc, how
-- a collaboration lives in services/collab-svc, how content is scored in services/moderation-svc, how invites,
-- matches and blocks work in services/invite-svc, how sessions, refresh tokens and
-- magic links live in services/auth-svc, how meetings and their recording bot are scheduled in services/meeting-svc,
-- how tickets and their due dates are kept in services/support-svc, and the rate limiter of packages/colab_common that
-- the endpoints call.
--
-- The services share no tables; within a service, endpoints, event consumers and workers share one
-- database, and the model lets their transactions run one after the other, in any order.
--
-- Prelude: Boolean tests, rows and queries on them, signed integers, UUIDs, times and texts.
-- Billing/Credits: services/billing-svc/app/services/credits.py. Rows holds the tables of
--   app/models/billing.py with their constraints and the session, whose rollback returns to the last
--   commit; Credits holds the service functions by their names (get_or_create_wallet and sum_reserved without
--   the underscore); Requests holds the endpoints of app/routers/internal.py and `serve`, which runs any
--   request as its own transaction. Sums, Effects and Changes carry the proofs of Balance, Solvency, Replay and
--   Settling.
-- Billing/Dunning: services/billing-svc/app/services/dunning.py; `advance_case` is the body of its loop.
-- Billing/Subscriptions: the upserts of services/billing-svc/app/services/subscriptions.py, over its Rows.
-- Billing/Refunds: services/billing-svc/app/services/refunds.py, over its Rows; the call of Stripe is a parameter, and
--   RefundDb.calls is the log of the calls made.
-- Profile/Badge: the table and functions of services/profile-svc/app/services/badge_fsm.py; Lifecycle has
--   the callers: `_handle_event` of app/routers/events.py, the review worker, the recheck endpoint and the
--   end of `patch_own_profile`.
-- Collab: Status is services/collab-svc/app/domain/state_machine.py, Table is app/models.py with
--   app/services/collab_service.py and the endpoints of app/routers/collabs.py that write, Workers is
--   app/workers/inactivity_tasks.py and archive_tasks.py, and Ops has every one of these writes as a step.
-- Collab/OrderKeys: `_lexo_midpoint` and `_generate_balanced_keys` of services/collab-svc/app/services/task_service.py.
-- Moderation/Score: services/moderation-svc/app/score.py with the settings of app/config.py.
-- Invite/Quota: services/invite-svc/app/services/quota.py, the Lua script included; Redis' sorted sets are a
--   parameter, a record of the commands with the laws that Redis documents. Times are in milliseconds there.
-- Invite/Invites: services/invite-svc. Rows holds the tables of app/models/invite.py with their constraints, the
--   parent file has `accept_invite`, `reject_invite` and `cancel_invite` of app/routers/invites.py, Sending has
--   `send_invite` with app/services/moderation.py, the response cache of app/services/quota.py and
--   app/routers/blocks.py, Expiry has app/workers/ttl_tasks.py, Lists has `get_inbox` and `get_sent`, and Ops has
--   every write as a step. Changes, Steps, Stale and Insert carry the proofs of Settled,
--   and StateMachine has the abstract state machine that all of it refines.
-- Invite/Paging: the pages and cursors that both listings use; the text of a cursor is a parameter.
-- Auth/Sessions: services/auth-svc/app/routers/token.py and sessions.py, `_issue_token_pair` of login.py and the
--   revocation keys of app/services/tokens.py; `get_session` is the transaction of
--   packages/colab_common/src/colab_common/db.py. PyJWT and SHA-256 are parameters, and the answer of the rate
--   limiter is a part of the request. Single and Dead carry the proofs of Refused.
-- Auth/Links: the endpoints of services/auth-svc/app/routers/email_verify.py and password_reset.py and the change of
--   an e-mail address of account.py, with the rows of `MagicLink` and `User`. Dead has them as steps. SHA-256 is a
--   parameter, and what the password policy says is a part of the request.
-- Common/RateLimit: the script and functions of packages/colab_common/src/colab_common/rate_limit.py, with times in
--   seconds and the refill rate as a fraction.
-- Meeting: services/meeting-svc. Schedule has `create_meeting` and `patch_meeting` of app/routers/meetings.py; Bot has
--   the consents, `start_bot`, the bot task of app/workers/bot_tasks.py and the webhooks of
--   app/workers/webhook_tasks.py; Bot/Ops has every write as a step. Recall has the
--   requests of app/services/recall_client.py with their retries. What Google Calendar, S3 and Recall.ai answer is a
--   part of a call, and a delivery of the task may die before its commit. Frames, Kept, Writes and Requests carry the
--   proofs of Consent.
-- Support/Tickets: services/support-svc: the due dates of app/sla.py, the endpoints of app/routers/tickets.py and the
--   scan of app/workers/sla_tasks.py. Unresolved has them as steps; Scan carries proofs of Marks.
--
-- A datetime is a natural number of microseconds, read from the clock that the operation is given; a UUID is a
-- 128-bit natural number, and the id of a new row is an argument; credit amounts are unbounded integers as
-- Python's are. The badge's scores count millionths, and the moderation's scores and weights are exact
-- fractions (10 ^ -6, their products 10 ^ -12) where the source has floats. A table is a list of rows, and a
-- query that may raise returns a sum. Loops over rows are structural recursion. The expiry loop of invites runs
-- on fuel, and one batch more than there are pending invites is enough; a client that follows cursors reads
-- as many pages as its fuel, and as many as there are invites are enough.
--
-- Not modelled: transactions that overlap (the source takes row locks and leaves isolation to the database), the
-- cooldown of a recheck in Redis, the events that are published where a component keeps no list of them, the other
-- listing queries, the rounding of the refill rate in floating point, the columns that nothing here reads, and
-- the services that are not named above, which mostly call vendors.
pub mod Prelude
pub mod Auth
pub mod Billing
pub mod Collab
pub mod Common
pub mod Invite
pub mod Meeting
pub mod Moderation
pub mod Profile
pub mod Support
