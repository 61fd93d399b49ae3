-- ===== src/Lib.antt =====
-- The strategy core of kimp_arb_cpp, a bot that buys a coin for KRW on a Korean venue, sells it for USDT on a
-- foreign one and relays it between them. Tickers update a cache of prices, every update recomputes the cached
-- entry of its symbol, entries that pass the gate signal an entry, and open positions signal their exit. The order
-- manager carries a signal out in splits, each a short abroad and a purchase in Korea, and closes them again.
--
-- Files, with the code that they model (paths from the repository's root, below kimp_arb_cpp/):
--
--   Types, Types/*: include/kimp/core/types.hpp: venues, `SymbolId` with its text formats and hash, positions,
--     order status, the trading constants and the entry gate. Characters are their codes.
--   Memory/Bitset: include/kimp/memory/atomic_bitset.hpp: `AtomicBitset`, a list of 64-bit words. A call is one
--     step; the loop over the set bits of a word has fuel 64, and a round clears a bit.
--   Memory/Spsc: include/kimp/memory/ring_buffer.hpp: `SPSCRingBuffer` of capacity `2 ^ k`, a call being one step.
--   Memory/Mpmc: `MPMCRingBuffer` of the same file. A turn is one access of a thread to shared memory, or a load of a
--     sequence with the reload of the position that follows it, and a run is any
--     list of turns. Held has what a thread relies on, Others and Sound why the steps keep it, Turns and Run the rest.
--   Strategy/Quote: `spread_pct`, `quote_is_fresh_with_limit` and `quote_pair_is_usable` of
--     src/strategy/arbitrage_engine.cpp, and the copy of the guard in src/execution/order_manager.cpp.
--   Strategy/Premium: `PremiumCalculator` of include/kimp/strategy/arbitrage_engine.hpp.
--   Strategy/SimdPremium: `SIMDPremiumCalculator` of include/kimp/core/simd_premium.hpp: the builds for AVX2, NEON and
--     neither. Batch compares each with a loop over the rows.
--   Strategy/PositionTracker: `PositionTracker` of include/kimp/strategy/arbitrage_engine.hpp, and
--     `update_position` of `ArbitrageEngine`.
--   Strategy/CapitalTracker: `CapitalTracker` of the same file.
--   Strategy/PriceCache: `PriceCache` of the same file: the prices in 64 shards and the USDT rates. Routes has the
--     withdrawal fees and deposit networks, Routes/Chains `normalize_chain`, Routes/Finalize the snapshot, and
--     Routes/Clear the functions that clear a venue's data.
--   Strategy/EntrySelection: include/kimp/strategy/entry_selection_bitmap.hpp. `std::sort` is a parameter with its
--     contract `IsSort`, which insertion_sort meets.
--   Strategy/Engine: `ArbitrageEngine` of src/strategy/arbitrage_engine.cpp: Entry has `update_symbol_entry`, Fire
--     `fire_entry_from_cache`, Exit the exit checks, Events `on_usdt_update` and `on_ticker_update`, Report
--     `calculate_premium`, and Premiums `get_all_premiums`. Engine/Preserved, Engine/FireKept and Engine/Steps carry the
--     invariant of Engine/Invariant through them, and Engine/Reachable has the state machine.
--   Execution/Lifecycle: include/kimp/execution/lifecycle_executor.hpp: `LifecycleExecutor`. Its callers and workers take
--     turns, and its queue is a bounded list, a push or a pop being one step.
--   Execution/OrderManager: `OrderManager` of src/execution/order_manager.cpp. Orders has the single orders and the
--     queries of their fills, Snapshot the position snapshots and `trigger_critical_stop`, Market what a pass of a loop
--     reads and computes, Hedge the two legs of a split, Entry `execute_spot_relay_entry`, Exit
--     `execute_spot_relay_exit`, and Blacklist the symbols held outside the bot. A member function is an `Action`, which
--     changes the manager. The venues' clients are the interface `Venues`, whose answers may be any. A loop runs over a
--     list of rounds; a round is what other threads do before a pass: their changes of the engine, the clocks and a
--     request to shut down. A loop gives no result only if its rounds end first, and a shutdown in one of them is enough
--     for a result. A fill query runs where it is dispatched. The text of an error is a value of `Message`.
--   Double: the numbers of type `double`, as a record of operations. The theorems that need IEEE 754 take its laws as
--     the hypothesis `IsIeee`; Double/Fixed is a decimal type with a NaN that has these laws.
--   Prelude: helpers on lists, bits, ranges, dictionaries and integers.
--
-- How the model reads the code: an object is a record, and a method a function on it. A call runs to its end, so a
-- lock and an atomic operation do not show. The clock is an argument, one reading for each call of it. A loop over a
-- container is a recursion over its list. A signal is added to a list in the engine where the code calls a callback
-- and pushes to a queue. Unsigned subtraction that can wrap is written with its modulus.
--
-- Not modelled: the threads but for those of the multi-producer queue and of the executor, and memory orders; the
-- venues' clients, which are network calls and JSON; configuration, logging, the latency probe, and the export of
-- premiums to JSON.
pub mod Double
pub mod Execution
pub mod Memory
pub mod Prelude
pub mod Strategy
pub mod Types
