-- ===== src/Lib.antt =====
-- cppmetrics, a C++ library of application metrics: counters, gauges, meters, histograms and timers in
-- a registry, and reporters that print them or send them to a Graphite server on a schedule.
--
-- The program's parts, their files here, and the code that they are about:
--
--   Counter        core/counter.h: an atomic 64-bit count; Interleaving has the calls of many threads
--   Snapshot       core/snapshot.cpp: the statistics of a sorted copy of a sample (Order,
--                  Quantile, Moments, and for all of them Statistics)
--   Ewma           core/ewma.cpp: a moving average of a rate, in ticks of five seconds (Decay), and
--                  its calls by several threads, step by step (Threads, Alone, Linear, Taken)
--   Meter          core/meter.cpp: a count with its mean rate and three moving averages (Ticks, Counting,
--                  Alignment); Threads has `tickIfNecessary` and Marks has `mark` under contention, step by step
--   Metered        core/metered.h: the interface of meters and timers, and the class of core/meter.h
--   Random         the generator and the distributions of Boost.Random, a parameter
--   UniformSample  core/uniform_sample.cpp: Vitter's reservoir (Updates, Reservoir), and its updates by
--                  several threads, step by step (Threads, Recorded)
--   ExpDecaySample core/exp_decay_sample.cpp: the forward-decaying priority reservoir (Lengths, Validity,
--                  and for what it keeps Kept, Priorities and Greatest)
--   Histogram      core/histogram.cpp: a count and one of the two reservoirs (Recording, Kept)
--   Timer          core/timer.cpp, core/timer_context.cpp: a histogram of durations and a meter of their
--                  rate (Durations), and the context that measures one (Contexts)
--   Table          the hash maps and sets with string keys that the registry is made of
--   OrderedMap     the ordered maps that its getters return
--   Registry       core/metric_registry.cpp: the metrics by name. Calls has the casts and the maps that
--                  are returned (Maps), Interface the class of core/metric_registry.h. What the class
--                  promises is Directory, for one call, and Catalog, for whole programs; Removal,
--                  Refinement, Restores, Histories, Sharing and Simulation are about its calls and runs
--   Sender         graphite/graphite_sender.h, an interface, and graphite/graphite_sender_tcp.cpp: the
--                  connection to the Graphite server
--   Graphite       graphite/graphite_reporter.cpp: the lines of a report (Names, Reports, Writes,
--                  Settled), and the units of core/scheduled_reporter.cpp (Units)
--   Executor       concurrent/simple_scheduled_thread_pool_executor.cpp, and the start and stop of
--                  core/scheduled_reporter.cpp: timers that run tasks (Waits, Life)
--   Console        core/console_reporter.cpp: the text of a report (Banner, Sections, Endings)
--   Reporter       core/scheduled_reporter.cpp: a report over a registry, from the maps to the reporter
--                  (Values, Reading, Told, Reported, Completes)
--   ThreadPool     concurrent/simple_thread_pool_executor.cpp: tasks run by threads (Orders, Done,
--                  Completion, Drains)
--   WallClock      core/utils.h: the time since the epoch (Zones)
--   Prelude, Outcome, Double, Tests
--                  shared helpers, the results of calls, the numbers of type `double`, and runs of the
--                  model with the theorems at concrete inputs
--
-- All paths are below src/cppmetrics. A class is a record with its fields' names, and a method is a
-- function with the method's name in snake case that takes the object and returns the changed one. A
-- timer calls its histogram and its meter, a histogram its reservoir, and a reservoir makes a
-- snapshot, as in the code; the registry makes all of them, and a report reads them through it and
-- hands them to one of the two reporters, of which one writes to a `GraphiteSender`.
--
-- A call returns an `Outcome`: it returns, throws one of the standard exceptions, or runs into
-- undefined behaviour, such as an index out of range, signed overflow or a conversion that does not
-- fit. Integers of 32 and 64 bits wrap where the code's do; the arithmetic of `ExpDecaySample.update`
-- on the time stamps that it is given is undefined where it leaves 64 bits. The clock's reading, the
-- seed of a generator, and the answers of the network are arguments of the calls that read them.
--
-- `double` is a parameter with the laws of rounding to nearest as hypotheses (`Double.Laws`), which ask
-- for finite numbers where an infinity breaks them; `Milli` is a format in thousandths in which they
-- hold. Boost.Random is a parameter (`Rng`) with the range of `uniform_int_distribution` as its
-- hypothesis, and Boost.Asio is one (`Network`) with none.
--
-- Fuel: the loop that draws a priority in `ExpDecaySample.update` ends only when a number drawn gives
-- no NaN, so it runs on fuel: one unit for each number drawn, up to the first such number, is enough. The
-- other loops are structural.
--
-- A call under a mutex is one step. `UniformSample` and `Meter` change an atomic count outside of it;
-- their runs here are sequences of whole calls, except for `update` in UniformSample.Threads,
-- `tickIfNecessary` in Meter.Threads, `mark` in Meter.Marks, and `update` and `tick` of `EWMA` in
-- Ewma.Threads.
--
-- The two executors are step relations: any of their calls, and what the threads of Boost.Asio do, in
-- any order. A handler of the scheduled one is two steps, since its task runs without a lock and may
-- call the executor. Of the scheduled one, the end of the threads, which the shutdowns wait for, is
-- left out; of both, a task that throws or is interrupted.
--
-- A report reads all metrics first, one after the other, where the code reads each value just before
-- it prints or sends it; no other thread changes the metrics meanwhile.
--
-- Not modelled: the text of time stamps in core/utils.h, and that of numbers, which is a parameter of
-- the reporters; the tests and the build files.
pub mod Prelude
pub mod Outcome
pub mod Double
pub mod Snapshot
pub mod Tests
pub mod Counter
pub mod Ewma
pub mod Meter
pub mod Random
pub mod UniformSample
pub mod ExpDecaySample
pub mod Histogram
pub mod Timer
pub mod Metered
pub mod OrderedMap
pub mod Table
pub mod Registry
pub mod Sender
pub mod Graphite
pub mod Executor
pub mod Console
pub mod Reporter
pub mod ThreadPool
pub mod WallClock
