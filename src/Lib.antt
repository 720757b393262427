-- ===== src/Lib.antt =====
-- log-sump collects the logs and the metrics of Docker containers on several daemons. A listener
-- process lists each daemon's containers, runs a task for each, and sends records through logstash to
-- a Redis list. A server process moves the records of that list into one Redis stream for each daemon
-- and kind, trims the streams, and answers queries over them.
--
-- Both processes are written in Python under packages/. The files here follow its three packages:
--
-- Common: packages/log-sump-common/src/log_sump_common
--   Schema: schema.py. Records, with every field. The pydantic adapter `RecordAdapter` is a parameter;
--     that a record survives its dump is the hypothesis `RoundTrips`, which Pipeline needs.
--   RedisKeys: redis_keys.py, every key. SHA-256 is a parameter.
--   Redis: not part of the repository. `Redis` has the calls that the program makes of the server,
--     `IsRedis` the documented laws of lists, streams and trims that the theorems rely on, which leave
--     open whether a call that raised was executed, and Redis/Memory a store for which they hold.
--   Auth: auth.py. Config: config.py, with all defaults.
--   Transport: the argument vectors of transport.py, with build_transport of the listener's app.py.
--     Transport/Merge: _merge_streams, with one step for each round of its two pumps and of the
--     generator, which share a queue; Merge/Stalled is about a pump that raises. Transport/Child: run
--     and stream_lines, with one step for each run between two awaits, for each cancellation, and for
--     what the subprocess does by itself.
-- Server: packages/log-sump-server/src/log_sump_server
--   Queries: queries.py. Deps: deps.py. Records: routers/records.py. Inspect: redis_inspect.py.
--   Catalog: routers/catalog.py. Health: routers/health.py. Admin: routers/admin.py.
--   Ingest/Consumer: ingest/consumer.py. Ingest/Trimmer: ingest/trimmer.py. Ingest/Interleaved: both at
--     once, with one step for each call of Redis, whether it answers or raises, and a record of what
--     was pushed and trimmed; Interleaved/Undisturbed is run_consumer as such steps.
--   Pipeline: the consumer and the reading of a stream together.
--   App: app.py. A request that FastAPI has routed is a value of `Request`, and `serve` answers it.
--     App/Background is the trimmer with the arguments that the lifespan gives it, App/Lifespan the
--     connection and the tasks of any number of lifespans, which asyncio interleaves.
-- Listener: packages/log-sump-listener/src/log_sump_listener
--   Registry: registry.py. Tracker: container_tracker.py.
--   ContainerListener: container_listener.py. Units: units.py. What they use of Python's library for
--     dates, JSON and floats is a parameter.
--   Manager: the class ListenerManager of app.py. Its coroutines interleave wherever they await:
--     Manager/Steps has one step for each run between two awaits, and the event loop's part in it.
--   Logging: the records logger of logging_setup.py. Main: _run_until_signal of __main__.py, with one
--     step for each end of a task, for each signal and for each run of the coroutine between two
--     awaits. The gathers of `run` and `run_daemon` are taken together: the first exception of a loop
--     ends `run`, and a cancellation reaches every loop.
--   Wiring: run, run_daemon and the dispatcher of app.py, up to the loops that they start.
--   System: the registry, the tracker and the tasks of one daemon as one step relation, in which the
--     loops of containers_listing.py and container_tracker.py and the tasks interleave.
--   ContainersListing: containers_listing.py. ContainerStats: container_stats.py. JsonLines: what they
--     do with the rows of a Docker command. What a command returns or raises is an argument of each
--     cycle. A set is the list of its members in the order of their first additions, and the order of
--     its iteration is a parameter; an identifier of a container that is no text, which Docker does
--     not print, is modelled as a TypeError.
--   SystemStats: system_stats.py. Sections is the script and the split of its output, Devices the
--     pattern of partitions, Proc the parsers, Cpu the percentage, DiskUsage `docker system df`,
--     Metrics the two sources of host metrics (Metrics/Host a host as the kernel prints it), and Loop
--     the cycles. Floats are their 64 bits, and their arithmetic is the parameter `Floats`, with laws
--     of IEEE 754 that the bounds need; int() and isdigit are `Ints`.
-- Journey: a container's output from the pipes of its command to a client of the server. Logstash,
--   which is between the listener and the ingest list, is the hypothesis `Shipped`.
-- Base: Python's integers, numerals, texts, lines, words, dictionaries, exceptions and tasks, and the
--   monad `Exec` of computations that change the state of Redis and may raise.
--
-- The names are those of the source, without a leading underscore; a class field `_tasks` is `tasks`.
-- A text is the list of its code points. A datetime is its microseconds with whether it has a time
-- zone; `epoch_ms` stands for int(dt.timestamp() * 1000). A loop over a list is structural recursion
-- over it, in the list's order. The two endless loops of the server, run_consumer and run_trimmer, run
-- for a number of rounds, or for a list of times; those of the listener that list containers and
-- sample metrics run for a list of cycles, each with what its commands return or raise. A round of
-- the consumer takes up to a batch of items, so that as many rounds as the list has items are enough
-- to empty it. `follow_cursors` is a client that takes page after page, for at most a number of
-- pages; a page that is not the last has at least one entry, so that one page more than there are
-- entries is enough. Python's sort by a key is stable, and is modelled by insertion; comparing datetimes may
-- raise (Server/Records/Sort). What is logged, and how long a coroutine sleeps, is left out.
--
-- Not modelled: `configure_logging` and the wrapper of the records logger (logging_setup.py), which set
-- structlog up; the entry point of the server (its __main__.py), which hands the app to uvicorn; the
-- routing of FastAPI and the loading of the settings, which libraries do.
pub mod Base
pub mod Common
pub mod Journey
pub mod Listener
pub mod Server
