-- ===== src/Lib.antt =====
-- The service that keeps the exchange rate between the Euro and CCD on the Concordium chain up to date.
--
-- It runs one task per exchange (src/sources.rs), which asks the exchange for its rate, retries with
-- exponential backoff, and keeps the last readings, inverted and exact, in a history. The main loop
-- (src/main.rs) takes the median of the medians of the histories (src/helpers.rs), compares it with
-- the rate on chain, switches to a protected mode if it jumped too far, and otherwise sends it to a
-- node (src/node.rs) and waits until it is final. Both write metrics (src/prometheus.rs) and, if there
-- is one, a database (src/database.rs).
--
-- Base: the names shared by all files, Boolean tests on native numbers, lists measured by native
--   numbers, signed integers and results.
-- Rational: what the service uses of the crates num-rational and num-bigint, as an interface with
--   the laws of an ordered field (Rational.Laws), the 64-bit floats as a second interface
--   (Rational.Floats), and a concrete instance of each (Rational.Fractions).
-- Config: the constants of src/config.rs.
-- Helpers: src/helpers.rs. compute_average, compute_median, relative_change and
--   convert_big_fraction_to_exchange_rate have its names; a division by zero, which panics, is `none`.
--   The loop of the conversion runs on fuel, the sum of the magnitudes of numerator and denominator
--   plus one, which is enough because each round halves both. Helpers.UnitTests and Sources.UnitTests
--   have the unit tests of the two files, run on concrete fractions.
-- Sources: src/sources.rs. get_request and the sources in Sources, parse_response and
--   request_exchange_rate in Sources.Request, request_with_backoff in Sources.Backoff, and
--   pull_exchange_rate as a run of rounds in Sources.Pull, where a panic ends the task. JSON decoding
--   and HTTP are parameters.
-- Node: src/node.rs. send_update is a loop over a list with one item per tick of its interval: what
--   the node answers in it. If the list ends first the loop is still trying.
-- Prometheus, Database: src/prometheus.rs and src/database.rs as records of their values, with a
--   function per method; whether a call of a library succeeds is an argument. Prometheus.Server has
--   the route of the metrics, over the library's encoder; Database.Tables has create_tables over a
--   connection that runs SQL texts, and what MySQL documents of these texts as hypotheses.
-- Keys: src/secretsmanager.rs, with AWS, the files and JSON as parameters.
-- TestExchange: test_exchange/src/main.rs, the queue behind its routes; in TestExchange.Session, the
--   exchange answers the requests of a task of src/sources.rs.
-- Main: src/main.rs. Main.Options has the options and the checks before the loop; Main.Start goes from
--   the checks over create_tables and the loading of the keys to the variables of the loop, with the
--   libraries' answers as the record Setup; Main.Cycle has one
--   cycle of the loop, main_cycle, as a function of the histories and of what happens around it, and a
--   run of several, main_loop. The functions after main_cycle are the parts of its body in order:
--   derive_rate and judge (both in Main.Cycle.Rate), protect, submit_loop, after_submission, confirm.
-- System: the tasks of src/sources.rs and the main loop of src/main.rs together, as a step relation
--   over their interleavings (Step, Reach). `spawn` is the state as the loop is entered, `pulled` a
--   round of one task, `looked` the read of one history under its lock, and `acted` the rest of the
--   main loop's cycle, as one step. The tasks share the metrics and the database with the loop
--   (Sources.Pull.Effect has what a round does to them); a task that panicked takes no more rounds.
--   System.Program and System.FirstUpdate put the start before it, with everything that the loop takes
--   from the options;
--   System.Refinement compares it with the abstract protocol of Main.Cycle.Protocol, whose state is
--   the signer and the last rate on chain.
--
-- Not modelled: logging, the timers, the web servers, the parsing of the command line,
-- the SDK and the database behind their calls.
pub mod Base
pub mod Rational
pub mod Helpers
pub mod Config
pub mod Prometheus
pub mod Sources
pub mod Database
pub mod Node
pub mod Keys
pub mod TestExchange
pub mod Main
pub mod System
