-- ===== src/Lib.antt =====
-- CA-DNS: the services of the carbon-aware DNS resolver (services/src/cadns).
--
-- BIND answers A and AAAA queries and reports its client responses by dnstap over a Frame Streams
-- socket. The collector reads that stream, sorts the responses into hits (answered from the database)
-- and misses (answered by recursion), gathers them in batches, and puts the missed domains on the
-- measurement queue, a PostgreSQL table. Workers claim jobs from the queue, ask a pool of resolvers for
-- A and AAAA records, classify the answers into the outcome of a measurement, and store its records and
-- the locations of its addresses. The monitor puts domains whose records expire back on the queue, keeps
-- the carbon signals of their regions current, and deletes what nobody asks for.
--
-- Parts, with the files that model them and the code they stand for:
--   Prelude                      lists, Boolean tests, text, sorting; no code of the program
--   Collector/FrameStreams       collector/framestreams.py: control frames, frames, serve_connection
--   Collector/Dnstap             collector/dnstap.py: _varint, iter_fields, decode_client_response,
--                                classify, is_ignored
--   Collector/Batches            collector/service.py: Batch, write_batch, on_frame, flush
--   Queue                        queue/pg.py: enqueue, claim, complete, fail, release on the table
--                                cadns.measurement_queue of db/migrations/0001_init.sql
--   Queue/Spec                   the same queue without tables: a state per domain
--   Queue/Entries, Refine        the tables read as such states; the refinement
--   Resolvers                    resolvers/pool.py: parse_response, ResolverPool
--   Worker/Pipeline              worker/pipeline.py: classify and Outcome
--   Worker/Store                 worker/store.py: store_measurement on cadns.domains, cadns.endpoints
--                                and cadns.rrset_records
--   Worker/Endpoints             worker/pipeline.py: _locate, _endpoints
--   Worker/Regions               worker/store.py: cached_regions, save_region, regions_needing_signal
--   Worker/Assign                worker/pipeline.py: _assign_regions, _refresh_signals
--   Worker/Measure               worker/pipeline.py: normalize_domain, measure
--   Worker/Service               worker/service.py: Worker, with the queue
--   Monitor                      monitor/tasks.py: expiring_domains, scan_expiring, regions_due,
--                                refresh_carbon, collect_garbage; save_signal of worker/store.py
--   Monitor/Schedules            monitor/service.py: Monitor.run, _run_job
--   Monitor/Jobs                 cli.py: run_monitor's policies, carbon job and schedules
--   Carbon                       carbon/watttime.py: RateLimiter, _login, _get, region_for,
--                                current_moer
--   Config                       config.py: the validators and the computed settings
--   Geo                          geo/ipinfo.py: Geolocator, ApiSource.lookup
--
-- Correspondence. Each operation is a function with the code's name, without a leading underscore;
-- it takes the state it changes and returns the new one. Exceptions are values: the error
-- constructors of the result types of FrameStreams and Dnstap, `none` in Resolvers and
-- Worker/Measure for an exception that is not caught, and in Worker/Store for one that rolls the
-- transaction back. A session is a function of all the bytes that the writer sends before it
-- disconnects, and of the handler of data frames as a function on a state. A statement of the queue
-- runs at one time `now`, in seconds (in the collector all times are nanoseconds), on the list of
-- the table's rows; the domains whose rows other transactions have locked, which SKIP LOCKED passes
-- over, are a parameter of `claim`. Strings are lists of code points.
--
-- Bounds. Machine integers are natural numbers: Python's do not overflow, and the four-byte words
-- of Frame Streams are bytes with their range. Loops that consume bytes run on fuel, as many rounds
-- as there are bytes, since each round takes one at least. The loop over CNAMEs has the code's own
-- bound of 17 rounds, and the loop of `_get` its own of 4. `_delete_in_batches` has as many rounds
-- as there are rows and one more, which is enough for a positive batch size; `Monitor.run` is
-- followed for as many rounds as one asks.
--
-- Parameters for code of others: `from_wire` of dnspython with what the code reads of a message,
-- dnspython's names, RRset lookups and queries, the rounding of coordinates, `str.strip` and
-- `ipaddress.ip_address`, the event loop's clocks, jobs and sleep, whether the database can be
-- reached, and how late a request leaves after the rate limiter's sleep. A batch's statements are
-- taken to fail only by the constraint on domain names, those of a measurement only by the primary
-- key of the records.
--
-- Left out: floats (times of events are nanoseconds, without rounding), the socket server and the
-- collector's loop, logging, heartbeats and metrics, what the IPinfo and WattTime clients read from
-- bodies, the ranges of settings, and of the command line all but the monitor's jobs.
pub mod Prelude
pub mod Collector
pub mod Queue
pub mod Resolvers
pub mod Worker
pub mod Carbon
pub mod Config
pub mod Geo
pub mod Monitor
