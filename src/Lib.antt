-- ===== src/Lib.antt =====
-- The scheduling core of a social media publishing service, brightbean-studio. A post has one row
-- (PlatformPost) for each channel it goes to. Members write posts, reviewers and clients decide on
-- them, the calendar gives them times, the engine sends what is due to the platforms, and an API
-- with daily caps does all of it for programs.
--
-- The parts, and the files that model them:
-- - Common: Boolean tests, list functions, results that carry an exception, and tables as lists of
--   rows. Store: the rows of the database and the store, a record of tables.
-- - Composer: Composer/Status is apps/composer/status.py and the state machine of
--   apps/composer/models.py; Composer/Services is apps/composer/services.py, and
--   Composer/Clone its `clone_post`.
-- - Members: roles and permissions (apps/members/models.py), role changes and removals
--   (apps/members/services.py), and invitations from their creation to their acceptance or revocation.
-- - Approvals: apps/approvals/services.py. Rows has the transition of one row, Notices the audit
--   trail, the reminder counters and the notifications, Services the decisions, and Reminders the
--   hourly check of apps/approvals/tasks.py.
--   Comments is apps/approvals/comments.py, the comments on a post.
-- - Notifications: apps/notifications/engine.py. Delivery is one attempt on one channel, Engine is
--   `notify` and the sweep of retries. A `Notice` in the outbox of Approvals stands for a call of
--   `notify`.
-- - Publisher: apps/publisher/engine.py. Attempt is one attempt for one channel, Engine the queries,
--   the groups by post, the retries and the poll.
-- - Calendar: apps/calendar/services.py. Slots has the upcoming slots and the first gap, Queues the
--   queueing and removal of a post, Reorder the dragged order, Prioritize the first place,
--   Repair the command that repairs old rows, Defaults the queue of a new channel.
-- - Api: apps/api/limits.py, with the daily caps in Quota and the throttle in Throttle.
--   An instant of Quota is a number of microseconds, as the wait is cut to whole seconds there.
--   Auth is apps/api/auth.py, which lets a request in by a key or by an OAuth token.
-- - ApiKeys: apps/api_keys. Token is the text of a token and its parsing, Keys the rows of keys with
--   the shared cache of verified rows (models.py, signals.py), Scope the issuing, changing and
--   revoking of keys, Verification the check of a token (services.py).
-- - Media: apps/media_library. Validators is the type of a file by its first bytes (validators.py),
--   Quotas the storage of an organization (quotas.py), Assets the two ways of upload (services.py).
-- - Slack: apps/slack_bot. Directory has the rows and messages, Authorization the context of a request
--   (authorization.py), Access the administrator and the grants (access_service.py), Provisioning the
--   whole chain of rows for a user (access_provisioning.py), Llm the messages of a language model and
--   the router (llm/base.py, llm/router.py), Tools the registry and the execution of validated calls,
--   Orchestrator the bounded loop (tool_registry.py, tool_execution.py).
-- All paths are below brightbean-studio. Samples holds the rows of the examples.
--
-- Functions have the names of the code, without a leading underscore. An operation takes the time
-- of the call (`now`), the keys of new rows, its arguments and the store, and returns the new
-- store, or an exception where the code raises one. A query is a test on rows and a transaction is
-- one function of the store. `updated_at` is set where the code saves the column. Approvals,
-- calendar and publisher move rows by the state machine of Composer/Status, and keep
-- Post.scheduled_at by `sync_post_scheduled_at`, as the code does.
--
-- Loops are structural recursions on lists. The walk over the slots counts down from the 60 days of
-- the source, and the number of slots it collects is a bound, never fuel. The loop of `prioritize`
-- that looks for a slot is on fuel, one more than the horizon has slots: its index only grows, and
-- it ends behind the last slot (Calendar/Prioritize/Fuel). The loop of the tools recurses on the
-- rounds that are left of `max_rounds`, the bound of the source.
--
-- Parameters: the answers of the platforms (`dispatch`, which may raise), the time zone (`Zone`),
-- the memberships of a workspace where a decision notifies, the keys of new rows, the two digests
-- of a token (`Digests`), mail and HTTP (`Transport`), and for the bot the providers of language
-- models, the clock, JSON, the schemas and executors of the tools, which grants the database fails,
-- the methods of an OAuth token, the names that a comment mentions, and whether the storage deletes
-- an object. The rows of memberships stand in the order in which their users joined. A theorem
-- about the slots of a queue asks that the slots of the horizon are different instants, which two
-- slots of a channel at the same local time, or a change of the clock, can break.
--
-- Not modelled: HTTP views, templates, serialisation, the flows of OAuth, storage, the calls of the
-- platforms and of language models, the handlers of Slack events, the texts of notifications and
-- errors, JSON columns, and the threads of a poll, whose channels are published one after the other
-- here. Of the modelled files, the rate limits by decorator (apps/api/limits.py), the audit log of
-- keys and the signal of a direct change of a key's accounts are left out. Of the media library,
-- folders, versions and the processing of files are left out. An upload is inspected and registered
-- in one step, while the code inspects it before it takes the lock. The cache of keys is one for
-- all workers, and no verification runs between another request's reading of a row and its writing
-- of the cache.
pub mod Common
pub mod Store
pub mod Samples
pub mod Composer
pub mod Media
pub mod Members
pub mod Notifications
pub mod Approvals
pub mod Publisher
pub mod Calendar
pub mod Api
pub mod ApiKeys
pub mod Slack
