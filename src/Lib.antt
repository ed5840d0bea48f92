-- ===== src/Lib.antt =====
-- Verification of the pre-trade risk control library (src/pretrade_risk).
--
-- The program decides whether an order may be sent. An engine (engine.py) walks 24 controls over
-- an order and its context (order.py), in a fixed order, and the first control to object wins. A
-- limit set (limits.py) arms and disarms the controls. The engine keeps counters of the trading
-- day (clock.py), two trailing windows of recent messages (windows.py), and cached operator
-- overrides. It saves the counters to a key-value store (store.py) under fixed keys (keys.py) in
-- one text encoding (encoding.py). The operator's functions (controls.py) write the same store.
--
-- Common holds the shared names, Python's `int` over the native numbers, and a `dict` as a list of
-- items. Float is Python's `float` as an interface: its operations, and in `IsBinary64` the laws
-- of IEEE-754 that a proof may use, which hold with NaN and infinities. Float.Whole meets them.
-- Python is the rest of the standard library that is called: `datetime`, `sorted`, `str.strip`.
--
-- Encoding is encoding.py: `_NUMBER_RE` is the matcher `is_number` over code points; `%.17g` and
-- `float()` belong to the interface, and `IsRoundTrip` in Encoding.Printf says what C and Python
-- document of them: the form of the text that `printf` writes, and that it reads back. Clock,
-- Decision, Order, Limits and Keys are the modules of those names. Windows.Rate and
-- Windows.Duplicate are the two classes of windows.py, each with its history in a child module.
-- Store is the contract of store.py as an interface with laws, and Store.Memory and
-- Store.Sequential are its two classes. Store.Sqlite is sqlite_store.py, over the interface
-- Database: aiosqlite's connections, the statements by their texts, and in `IsDatabase` what
-- SQLite documents of them; Database.Plain meets it. A write is the list of the calls on the
-- database that `set_many` makes, in order, which `run_calls` performs; Store.Sqlite.Atomic cuts
-- that list off, as a crash does. Engine has a child for each part of the class: State
-- (constructor and roll), Derived (loss limit, bypass, caps), Readings (the public readings, most
-- of which roll the day), Counters and Lifecycle (the recording methods in memory, and with the
-- store; Crash puts Lifecycle over Store.Sqlite, and Torn over Store.Sequential, when a write is
-- cut short), Checks (the 24 checks by family), Messages (the sentences), Sequence (the table and
-- `evaluate`) and Session (the calls of one engine in any order, with other writers of the store
-- in between; Sends, Release and Cap set the throttles against the orders sent, Tally the counts
-- against the calls). Operator is controls.py. Encoding.Grammar is the grammar that the comment of
-- encoding.py writes out, over characters of its own and not the matcher's tests of them, and
-- Order.Fingerprint is about the `|` between the fields of a fingerprint. Examples runs the
-- definitions and applies the theorems at concrete inputs.
--
-- A method is a function from the object to the object and its result. A coroutine is such a
-- function of the store, since nothing else runs between its awaits. Each reading of the clock is
-- an argument, and so is `Path.exists`, which may raise for a path. Limit sets are those that
-- passed `__post_init__`, so the guard of `trading_day` is modelled in Clock and not repeated in
-- the engine. A check that would compare with an unset limit, or whose path test fails, raises in
-- Python: that is the outcome `raises`. The text `str.strip` leaves, and what counts as
-- whitespace, are the interface's. Sets are lists of their members. Every loop is a structural
-- recursion, so there is no fuel, except in the decimal texts of the example interface, where the
-- number itself is enough.
--
-- Not modelled: readings of the clock outside the years 1 to 9999, at which `datetime` raises (a
-- theorem for every instant is one for those that have a date); what SQLite does behind its
-- statements, and errors of aiosqlite other than as an interruption, its limit on the parameters
-- of one query included; `SystemClock`, which reads the host's clock; overflow of `float(n)` for
-- integers beyond the range of binary64; the package root, which re-exports, and examples/demo.py,
-- a script that prints.
pub mod Common
pub mod Float
pub mod Encoding
pub mod Python
pub mod Clock
pub mod Decision
pub mod Order
pub mod Limits
pub mod Windows
pub mod Keys
pub mod Database
pub mod Store
pub mod Engine
pub mod Operator
mod Examples
