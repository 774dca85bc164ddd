-- ===== src/Lib.antt =====
-- A verification library of rust-trader, an exchange that matches orders by price and time, reports to
-- FIX sessions and publishes market data to readers.
--
-- The program. The engine (src/core/exchange/mod.rs) owns an order book per instrument
-- (src/core/orderbook.rs), which holds orders (src/core/order.rs) in price levels, a registry of
-- instruments (src/core/instrument.rs), the records and report queues of its sessions (src/queue.rs),
-- and the publisher of snapshots (src/market_data.rs, src/core/stats.rs). A request is checked, changes
-- a book, is recorded in the statistics, published, and reported to the sessions.
--
-- Which file models which part:
--   Base           what the standard library gives: Boolean tests, lists, integers, texts, maps as
--                  association lists, results and panics, and an index beside a table.
--   Decimal        the interface to rust_decimal, an external crate: the operations are a parameter
--                  `DecimalOps`, and the laws that a theorem needs are its named hypotheses, `IsOrdered`
--                  (the order), `IsExact` (sums and differences without rounding) and `IsHalving`
--                  (halves). Decimal/Whole has the whole numbers as an instance of all of them.
--                  `DecimalText` of Fix/Codec is its printing and parsing, with the hypothesis
--                  `IsReadBack` that a printed number is read as itself.
--   Queue          src/queue.rs: the bounded queue with its failure flag, over a model of the standard
--                  library's `sync_channel`. Queue/Delivery is about runs of both of its ends.
--   Core/Orders    src/core/order.rs, and `apply_fill` of src/core/orderbook.rs.
--   Core/Levels    `PriceLevel` of src/core/orderbook.rs. Its children hold the invariant between the
--                  table of orders and the index, fills, and the running total.
--   Core/Books     `OrderBook` of src/core/orderbook.rs with the loop of `match_trades`; Core/Books/Entry
--                  has `add`, `remove`, `insert_only`, `execute` and the snapshot. The specification is
--                  in Core/Books/Priority: two queues of orders, matched head against head.
--   Core/Market    src/core/instrument.rs, src/core/stats.rs and src/market_data.rs. Core/Market/Registry
--                  is about the two directions of the registry, Core/Market/Loading about the file
--                  of instruments, which is a list of lines that may fail to be read.
--   Core/Tiers     the plan of synthetic fills, from src/core/exchange/mod.rs.
--   Core/Engine    `Engine` of src/core/exchange/mod.rs: Reports, Publishing, Validation, Booking (the
--                  calls of the books), Entry (`create_order`, `cancel_order`), Replace
--                  (`modify_order`), Quoting (`quote`) and Sessions (register, disconnect, expiry,
--                  instruments). Stray is about requests for an order that its book does not have.
--   Fix/Messages   `FixMessage` of src/fix/frame.rs and the required fields of src/fix/session.rs.
--   Fix/Frames     src/fix/frame.rs: `frame` and `parse_wire`. Fix/Frames/Reader is `FrameReader`, which
--                  takes messages out of a stream; Retries is about calls that end in a timeout.
--   Fix/Headers    the checks of headers, logons, resend ranges and configurations of
--                  src/fix/session.rs.
--   Fix/Codec      src/fix/codec.rs: Builders has the `build_` functions, Tables the lists of fields,
--                  Profiles `validate_profile` and Decoding `decode`. Delivered follows an order from
--                  its builder through the frame, the header and the sequence number to `decode`.
--   Fix/Sequences  `SequenceState` of src/fix/session.rs: gaps, duplicates and resets.
--   Fix/WireIds    `WireIdMap` of src/fix/session.rs: a client's identifiers against the engine's.
--   Fix/Business   `handle_business` of src/fix/session.rs: the requests of a client against the engine
--                  and the identifiers, with the messages that answer them. Tasks has the steps.
--   Fix/Writer     `writer_loop` of src/fix/session.rs: the numbers and the frames of what is sent.
--                  Numbers is about whole runs, Resync about a gap fill and its receiver,
--                  whose checks, `decode` included, it passes.
--   Tests          concrete inputs.
--
-- How state and operations correspond. A struct is a record with the fields of the source, an enum a
-- data type. A `&mut self` method returns the new state. A method of the engine is a `Run`: it ends
-- `done` with a result, `failed` with an error, both with the engine as it is then, or `panicked`. In the
-- book, `none` or `panics` is a panic of the source, such as an `unwrap` or an `assert!`. A `BTreeMap` is
-- the list of its entries in order, a side of the book from the best price to the worst; a `HashMap` is
-- an association list in the order of insertion, on which no theorem depends. A text is a list of bytes.
-- Machine counters wrap or saturate as they do in a release build (Core/Wrapping); the priorities of a
-- level count up to the largest `i64`, where the source panics.
--
-- The operations of `DecimalOps` are total. Those of rust_decimal panic where a result is too large, and no
-- check of a price or a quantity sets an upper bound: `total += order.remaining` of `PriceLevel::push_back`
-- and the products of `apply_fill` can panic in this way. That is outside the model, so that "does not
-- panic" is said below for computations in which no decimal overflows. In the same way `parse_wire` is
-- modelled for a header of two bytes or more, which is what `read_message` hands to it.
--
-- The byte stream of a `FrameReader` is the bytes that will arrive with a list of how each read ends: a
-- chunk of at most some size, an interruption, or a failure such as a timeout. `NaiveDateTime` of chrono
-- is the parameter `TimeOps`, a function from a text and a format to an instant. A message that a builder
-- makes takes the time and the identifiers that the source reads from the clock as arguments.
--
-- The mailbox of a FIX session is the queue to which the engine reports: `handle_business` reads its
-- flag there, and the one message that a request can be answered with is its result. A turn of the
-- writer is what it reads of its surroundings.
--
-- Bounds and fuel. Each round of `match_trades` takes at least one order out, so the loop runs on the
-- number of orders in the book. The lots of a plan run on the limit of 256; `tier_fill_plan` refuses
-- what needs more. The search for a free identifier in `WireIdMap` runs on the numbers that are left up
-- to the largest `i32`, where the source fails as well. `read_message` runs on the list of reads; that
-- enough of them bring a whole message is a theorem, with every byte of the frame to come. A 64-bit number prints in at most 20 digits.
--
-- Not modelled: the texts of errors and log lines (an error is a constructor of a data type), and the
-- lock and the threads around the engine, which runs one method at a time. Of src/fix/session.rs the
-- sockets, the threads and the loops that read messages are not modelled. The configuration file, the
-- message store, src/rest.rs, src/runtime.rs and src/bin are not either.
pub mod Base
pub mod Decimal
pub mod Queue
pub mod Core
pub mod Fix
mod Tests
