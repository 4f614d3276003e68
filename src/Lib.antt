-- ===== src/Lib.antt =====
-- Backlogg: a catalog of films, series, books and games with reviews, follows, libraries and accounts
-- (FastAPI services over PostgreSQL, in the folder backlogg). This library models the services of
-- that program and proves what keeps its database and its answers right.
--
-- Prelude: shared names; lists read as SQL tables (Prelude/Lists), rows with ids (Prelude/Rows),
-- counts of rows (Prelude/Counts).
-- Db: the tables as records of rows with an id sequence (Db/Tables, from the models.py of each
-- domain), and a request as an action on a session (Db/Session): the committed and the working
-- state, HTTP errors, commit and rollback. What is not committed when a handler ends is rolled back,
-- as backlogg/core/database.py has it. A select is a filter or the first row that passes, an update
-- a map of the rows that pass, and a unique constraint with ON CONFLICT a lookup before the insert.
-- Rows that reference a deleted row go with it, as the foreign keys say. Sequences are not advanced
-- by a failed insert, since only freshness of ids matters. Timestamps are left out where no modelled
-- operation reads them.
-- Ratings: backlogg/ratings. Repository has the statements, Aggregates the recomputation of
-- rating_internal and rating_count_internal, Rounding the two roundings in use, Service the request
-- handlers. Scores are in tenths and averages in hundredths, so both are natural numbers. Batch,
-- Agreement and Divergence compare the batched recomputation with a direct description and with the
-- single one; Scores, Authors, Freshness, Sound, Removal and Requests carry the invariant.
-- Feed and Notifications: the writers of backlogg/feed/repository.py, and backlogg/notifications. A
-- notifier takes an argument that says whether the database raises inside its try block; Inbox is
-- about whose notifications a request reaches. Announced has the invariant that ties the events to
-- the reviews; Written, Requests and Erased keep it where reviews are written, removed or go with an
-- account.
-- Users: backlogg/users. Repository, Account (registration, profile, deletion), Sessions (login,
-- refresh-token rotation, logout, the bearer check of backlogg/users/auth.py), Recovery (account
-- tokens). Password hashing, token hashing and token signing are third-party code, given by the
-- record Security; the clock and the generated tokens are arguments. Rotation, Reset, Bearer, Edits,
-- Spent, SpentRequests and Soundness hold the theorems.
-- Moderation: backlogg/moderation/service.py, backlogg/admin/audit.py and the role service. Follows,
-- Library and Reports: backlogg/follows, backlogg/library and backlogg/reports, with Idempotence and
-- Filed about a report that was filed.
-- Api: the calls that the routers pass to the services, histories of them, and what a failing
-- notification changes. Soundness has the ratings and Announced the feed, over Frames and
-- Unannounced; Once has the tokens and Reported the reports, over Spent, Side, Moderated and
-- Credentials. That a later token has another hash is an assumption of Once, and the unique
-- constraint on token_hash another.
-- RateLimit: the sliding window of backlogg/core/rate_limit.py, per key and for all keys. Window
-- compares it with a history of what it let through, Bound counts that, Keys carries that to many
-- keys with a rate each, Retry is about the seconds that a refusal announces. A clock reading is a
-- whole number of ticks, with any number of ticks in a second, so that no reading is rounded;
-- Python's floats are.
-- Ranking: backlogg/recommendations/ranking.py. The floats are any type with the operations of
-- FloatOps and the regular expressions are the fields of TitleOps, so nothing is assumed of either.
-- Titles, Diversity and Quota have the functions, Shuffle and Fairness the theorems. The loop of the
-- re-rank has as fuel the number of candidates, one of which it removes in each round.
-- Cache: backlogg/core/cache.py; Freshness compares it with its history. Pacing:
-- backlogg/shared/pacing.py; Spacing bounds the requests that start.
-- Catalog: the upsert of backlogg/movies/repository.py and edit_catalog_item of
-- backlogg/admin/service.py, over one catalog table whose plain columns are read by name. Catalog
-- has the sync and Catalog/Admin the edit; Genres is about the genres of an edit, Locks about the
-- syncs, Edits about the edit before them. The slug of a sync is already resolved (Identity has
-- how), a sync does not send locked_fields, and a genre list repeats no genre and no stored name
-- under another slug (the unique constraints would refuse it). str.strip is an argument, and so is
-- slugify.
-- Discovery: backlogg/scheduler/discovery.py. A date is its ordinal, and days below 14 are not
-- reached. Discovery has the windows, Changes the walk of a window with its halvings, Gate the
-- admission of a release. What TMDB answers for a page of a window is a function, so it does not
-- change during a walk; none is an exception. The fuel of windows_from and of the halvings is the
-- number of days; Termination is about why that is enough. Tiling, Seen, Days, Pages, Walk and
-- Coverage are about the days that a walk has seen, Discovery/Plan about the windows of a night,
-- Admission about what the gate admits.
-- Writer: the batch writer of backlogg/scheduler/jobs.py, over a write path (bulk load, single
-- upsert, people) that is an argument, since each of these may raise. Chunks is the loop over slices
-- of ids, with their number as its fuel, since each slice has an id. Accounting counts what a batch
-- reports.
-- Incremental and Releases: the lanes of /changes and of new releases of that file, and the
-- watermarks of backlogg/scheduler/repository.py. Each takes its clock, its fetches and the reading
-- of the catalog from a spec. Incremental/Watermarks has the rows, Marks and Honesty are about the
-- watermark of /changes, Hydration about the counts, Entries and Baseline about the export that the
-- next night is compared with.
-- Seeding: the table of seed targets of backlogg/scheduler/repository.py and a slice of the seed in
-- jobs.py. Measure and Convergence are about many nights, Outage about a fetch that raises. Counters
-- of log lines are left out.
-- Codes: the code lists of backlogg/shared/codes.py, with Vocabularies for the round trip.
-- Identity: backlogg/shared/identity.py over the links of backlogg/shared/external_ids.py, and the
-- upsert of a film with its external id. What a concurrent writer can do to a batch is the
-- IntegrityError, an argument. Owners is about one rename, Renames about those of a batch, Joins and
-- Contests about the linked rows, Aligning and Upsert about the two doors.
-- Tests: a small database, runs, and the theorems at concrete inputs. Sync and Nights run the lanes,
-- Columns the code lists, Identities the renames.
--
-- Loops without a bound named above are recursions on lists and use no fuel.
-- Not modelled: the adapters of the external sources, the bulk load itself, the writing of links,
-- the promotion lane and the lists of the seed, full-text search, embeddings, the timing of the
-- scheduler, the paginated listings, avatar storage, metrics and configuration. Concurrency between
-- requests, and between a request and a job, is not modelled: a history runs one request after the
-- other.
pub mod Prelude
pub mod Db
pub mod Feed
pub mod Notifications
pub mod Users
pub mod Ratings
pub mod Moderation
pub mod Follows
pub mod Library
pub mod Reports
pub mod Api
pub mod RateLimit
pub mod Ranking
pub mod Cache
pub mod Pacing
pub mod Catalog
pub mod Discovery
pub mod Writer
pub mod Incremental
pub mod Releases
pub mod Seeding
pub mod Codes
pub mod Identity
pub mod Tests
