-- ===== src/Lib.antt =====
-- Doorito is a Django project whose core is an upload portal and a transactional outbox. A service
-- writes its rows and an event in one transaction; on commit a task posts the pending events to the
-- webhook endpoints, signed, and retries what fails. The portal stores uploaded files, alone, in
-- batches or in chunks, announces their expiry and deletes them when their time is over. Its pages
-- are for users who registered and logged in.
--
-- Which file models which part:
--   World                  the database, the open transaction, the storage, the broker, the requests
--   Common/Models          common/models.py: `OutboxEvent`, `WebhookEndpoint`
--   Common/Utils           common/utils.py: `safe_dispatch`, and the dispatch of `emit_event`
--   Common/References      common/utils.py: references, date ranges, `uuid7`
--   Common/Fields          common/fields.py
--   Common/Transactions    the interface to Django's `atomic` and `on_commit`
--   Common/Webhook         common/services/webhook.py
--   Common/Outbox/Emit     common/services/outbox.py: `emit_event`
--   Common/Outbox/Fetch, Deliver, Settle, Process   `process_pending_events`, phase by phase
--   Common/Outbox/Cleanup  `cleanup_delivered_events`
--   Common/Admin           common/admin.py: `retry_failed_events`
--   Common/Commands        common/management/base.py
--   Common/Labels, Portal/Labels   the `__str__` methods of the models
--   Common/Tasks           common/tasks.py
--   Portal/Models, EventOutbox   portal/models.py
--   Portal/Files, Create, Batches, Notify   portal/services/uploads.py
--   Portal/Sessions        portal/services/sessions.py
--   Portal/Expiry          portal/tasks.py
--   Accounts/Models        accounts/models.py
--   Frontend/Http          requests, sessions and answers, as the views see them
--   Frontend/Urls, Site    frontend/urls.py, boot/urls.py, frontend/views/dashboard.py
--   Frontend/Decorators    frontend/decorators.py
--   Frontend/Upload        frontend/views/upload.py
--   Frontend/Forms         frontend/forms/auth.py
--   Frontend/Login         frontend/views/auth.py
--   Frontend/Tags          frontend/templatetags/frontend_tags.py
--   Schema/Cells           the columns of a row, for the tests of the insertions
--   Schema/Columns, Declared, Statuses   common/models.py and portal/models.py as Django describes models
--   Schema/Accounts        accounts/migrations
--   Schema/Events          common/migrations
--   Schema/Uploads, Portal portal/migrations, the first one and the second
--   Schema/Plan            the migrations of all apps in an order
--   Schema/Admin           the pages in common/admin.py and portal/admin.py
--   Boot/Schedule          boot/settings.py: `CELERY_BEAT_SCHEDULE`
-- The other modules hold lemmas and theorems about these, named for what they prove; the modules
-- with Sample or Examples in their names hold the tests. Base holds lists, tables, sorting, text
-- and time.
--
-- How the model corresponds to the code. A table is the list of its rows, found by primary key; a
-- primary key is a number, since the code only compares and orders UUIDs. A query is a filter, in
-- the order that the model's `ordering` says; rows of one instant stay in the order of the table.
-- `save(update_fields=…)` changes these columns of the row in the table, and raises if the row is
-- gone. A service is a function from a state to an answer or an exception and a state; what was
-- done before an exception stays done unless a transaction undoes it. The clock, fresh UUIDs,
-- storage paths, random jitter and rows that others hold locked are arguments. Times are in
-- microseconds; a comparison `t < now - d` is written `t + d < now`. The soft time limit of the
-- worker is an outcome of a post, since the posts are where a run waits.
--
-- What is not in the repository is an argument: `Transactions` (Django's transactions, with their
-- documented behaviour as laws), `Http` (httpx, JSON text, HMAC), `Platform` (file types, hashing,
-- chunks, storage addresses), `Auth` (form fields, password hashes, Django's two forms, the
-- session, the resolution of a redirect; its laws are `AuthLaws`), `Migrator` (what an operation of
-- a migration does to a model), `Beat` (when a crontab starts), the answers of the storage to a
-- deletion, `math.ceil` of a float division, `str.split` and `urlencode`.
--
-- No loop needs fuel: each runs over a list that it was given.
--
-- The insertion of an upload session checks that the file has its row, that of a part that the
-- session has its row. No other foreign key is checked: neither the batch and the user of an upload
-- file, nor the user of a batch.
--
-- Not modelled: that a text longer than its column is refused, and a number beyond the range of its
-- column (`total_parts`, `chunk_size_bytes` and the other counters are any natural numbers), JSON
-- values other than flat objects of text and numbers, negative sizes, logging, Celery's retries and
-- its eager mode, templates, how the admin shows its pages, the columns that Django's user model
-- has before the migration writes them down, Django's middleware, and the settings that only
-- configure Django. A session is the user whom it logs in and the expiry that was set; the time of
-- the last login is left out. Of concurrency, the model has rows locked by others, and two runs
-- whose last phases follow each other.
pub mod Base
pub mod World
pub mod Accounts
pub mod Common
pub mod Portal
pub mod Frontend
pub mod Schema
pub mod Boot
