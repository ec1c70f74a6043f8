-- ===== src/Lib.antt =====
-- Rapid Inbox: a model of the core of the Python program (app/), with the theorems that make its
-- parts correct.
--
-- The program receives mail by SMTP, stores it, parses it in the background and serves it by HTTP.
-- The parts that are modelled, and how they meet: an SMTP session (Smtp) asks the address matcher
-- (Routing) whether a recipient is served and hands messages over; every change of the database
-- goes through the one writer thread (Writer), and reads through a pool of connections that
-- maintenance can pause (Pool); stored messages wait for the parser in a bounded
-- queue (ParseQueue); the events of sessions go to a ring that readers follow (Live); the runtime
-- limits connections and keeps mail out while maintenance holds (Runtime); what may be configured is
-- checked at the start (Config), and some of it changes while the program runs (Settings); the HTTP side
-- checks keys and their delegation (Permissions, ApiKeys), throttles logins (Throttle) and pages its
-- lists (Pagination).
--
-- Files, each with the source it models:
--   Base         lists, texts and results that the parts share. A text is the list of its code
--                points; an exception is a value of `Result`.
--   Writer       app/db/writer.py, class DatabaseWriter. `Writer` is the object's state with the
--                store of admission waiters; each locked section is one function
--                (`acquire_capacity`, `resume_waiter`, `cancel_admission`, `deliver_grant`, `submit`,
--                `release_capacity`, `close`, `take_item`, `finish_request`, `escape_request`,
--                `begin_fatal_shutdown`, `fail_owned`), and `Writer.Steps.Step` is any
--                interleaving of them. A slot is counted from its grant until its release, also
--                while a coroutine has it in hand (`in_hand`). By its flag `contained` the relation
--                says whether a rollback may fail with an error that is not SQLite's, which
--                `Writer.Escape` is about.
--   Pool         app/db/read_pool.py, class SQLiteReadPool. `Pool.State` and `Pool.Actor` have one
--                function for each locked section and for each part of a worker's loop, and
--                `Pool.Steps.Step` is any interleaving of them. `start` is two sections, and its
--                flag `uninterrupted` says that no close comes between (`Pool.Interrupted` is about a
--                run where one does). The admission loops are those of
--                Writer. `Pool.Request` is one read: `_run_request`, `_ensure_connection` and
--                `_open_current_database`, on observations of the clock, the caller and SQLite.
--   Runtime      app/runtime.py: the maintenance gate (`_begin_mail_maintenance` to
--                `_leave_mail_accept`), and `register_smtp_connection` with what it calls.
--   Settings     app/services/settings.py, class SettingsService, and `apply_live_settings` of
--                app/runtime.py. A value of a payload is one of the types that JSON has here.
--   Config       app/config.py: `Settings.__post_init__`, `insecure_runtime_defaults` and
--                `default_settings`, without the paths and the .env file.
--   ParseQueue   app/ingest/queue.py, class ParseQueue: the reservations, the queue and the tasks of
--                the workers. `ParseQueue.Reach.Step` is any interleaving of callers, workers and
--                shutdown. `wait_round` and `enqueue_round` are one round of the loops that wait.
--   Routing      app/smtp/matcher.py: `parse_mailbox_address`, `normalize_domain` and the class
--                DomainMatcher. The tables of rules are association lists.
--   Smtp         app/smtp/handler.py: the handlers of RapidInboxHandler. The calls of the runtime are
--                logged in order, and any of them may raise; what one command reads of the settings
--                and the domains is in `Rules`, what the runtime does in it in `Runtime`.
--   Live         app/smtp/live_state.py, class LiveState.
--   Permissions  app/auth/permissions.py: scopes, mailbox patterns, grants, and whether a delegated
--                key is within the acting principal. `Permissions.Fnmatch` is Python's `fnmatchcase`.
--   ApiKeys      app/auth/api_keys.py: `_parse_plain_text`, `_validate_authentication_record` with its
--                checks, `record_usage` with its token bucket, the caches
--                (`_get_authentication_record` around its load, `_invalidate_key_cache`),
--                `_normalize_mailbox_patterns` and `_unique_int_values`. Tokens are counted in whole parts, so that no float is rounded.
--   Throttle     app/auth/sessions.py: the login throttle of AdminSessionService, with its two
--                OrderedDicts as lists of items and times as ticks of a monotonic clock.
--   Pagination   app/http/pagination.py.
--
-- Fuel: only `serve` of Writer.Service has it, which runs the worker until it exits; more fuel than
-- `work_left` (three per queued request, two for a running one, one per stop sentinel that is
-- still to be put) is enough, and that is proved.
--
-- Parameters: the Unicode tables and the IDNA codec (`Unicode`), the libraries of networks and dates
-- (`Networks`, `Libraries`), the digest of user names, the builder of links, the space test of
-- `str.strip`, the payload of an event, the answers of the runtime to the SMTP handlers, what the table of settings
-- and the ingress policy answer (`Outside`), the address parser and the upper case of a configuration,
-- and what SQLite answers to a read (`Trial`).
--
-- Not modelled: SQLite and its statements, threads and locks below the level of a locked section,
-- the event loop, the web framework and its handlers, the services that are SQL, the rest of the
-- runtime, which wires them together, logging, templates, and the native daemon under cpp/.
pub mod ApiKeys
pub mod Base
pub mod Config
pub mod Live
pub mod Pagination
pub mod ParseQueue
pub mod Permissions
pub mod Pool
pub mod Routing
pub mod Runtime
pub mod Settings
pub mod Smtp
pub mod Throttle
pub mod Writer
