-- ===== src/Lib.antt =====
-- Models of the parts of cytadel-scan that decide: which versions are vulnerable, what the
-- knowledge base of a host holds, which ports are scanned, and what reaches a report.
--
-- The scanner expands the targets (Target: src/net) and turns a port specification into a list
-- of ports (PortRange: src/net/port_range.c), probes them, and keeps what plugins and probes
-- find in a knowledge base per host (Kb: src/kb/kb.c, src/kb/kb_validate.c). Threads share the
-- targets (WorkerPool: src/core/worker_pool.c), and the plugins run on each host in the order of
-- their dependencies (Plugin: src/plugin; DepGraph: src/plugin/depgraph.c), each where the
-- knowledge base holds its keys. A detected version is held against the rows of the
-- vulnerability database (Cpe: src/match/cpe_match.c) by a comparison of versions (Version:
-- src/match/version_compare.c). Whatever a report shows goes through an escaper (Escape:
-- src/report/escape.c).
--
-- Conventions. A byte is a natural number, a buffer with its length the list of its bytes, and a
-- position in a buffer the suffix that starts there. A C string is the list of the bytes before
-- its NUL. A null pointer is `none`, or a constructor `null` that keeps the length passed with
-- it. Whether an allocation succeeds is an argument. Functions have the source's names without
-- the prefix `cytadel_`; a loop of the source is a function whose name ends in `_loop`.
--
-- - Version: `version_compare` and its helpers. Scan is the tokenizer, Digits and Alpha compare
--   two components, Residual reads what one side has left, Compare puts them together. The loops
--   take a number of rounds that the lengths bound, since each round reads a byte at least;
--   Total is about that bound. The other files hold theorems.
-- - Cpe: `match_evaluate`, which takes a row of the table and a detected version. A
--   result of `none` is a read through a null pointer. Range describes the answer for a row with
--   bounds by a three-valued conjunction, Order by sets of bounds; Matches says which rows match.
-- - Kb: Key and Utf8 are the validators, Table the hash table. Chain, Push, Grow and Store carry
--   the invariant `IsTable`, Api the laws of the operations, Walk those of `foreach`, `count`
--   and `get_str`. Numbers of 64 bits wrap; an `int64_t` stands as its bit pattern. The list of
--   a chain stands for its links, so that ownership of memory and `cytadel_kb_free` are not
--   modelled.
-- - PortRange: tokens, the bitmap and the two passes over it. Grammar describes what a token is
--   and Commas what a specification is, with no use of the parser. Error texts are not modelled.
-- - Escape: the bytes that each byte becomes. Buffer is the growable buffer and the escapers,
--   Grow and Loop what they leave in it; `doubling_loop` takes 65 rounds, enough for 64 bits.
--   Html, Json and Url hold readers of the output, and SafeUrl what a link may be.
-- - DepGraph (src/plugin/depgraph.c): the order in which plugins run. `place_loop` takes one
--   round for each node, as the source's loop does. Degree and Order carry what the counters
--   mean, Sound and Missing are about the results.
-- - Plugin: Register is the grammar of `required_keys` (src/plugin/register.c), Registry loads a
--   directory (src/plugin/registry.c), Scheduler runs a host's plugins (src/plugin/scheduler.c).
--   What a file registers and what a plugin does are parameters. A port is an `Option`, `none`
--   where the source passes -1. Wildcard is about the key with the star, Order, Firsts
--   and Loaded about the registry, Ports, Dispatch and Follow about the runs and their reports.
-- - Target: Cidr is a block of addresses (src/net/cidr.c), Single one target (src/net/target.c),
--   File the targets file (src/net/targets_file.c), Expand and Dedup the list
--   (src/net/target_list.c). The loop over a block takes the block's number of rounds. The
--   network library, `qsort` and the reads of the file are parameters; `Sorts` is what `qsort`
--   promises, and Sort has a function that keeps it. Block, Hosts, Order, Flags, Reference,
--   First, Bounds and Listed hold theorems.
-- - Plugin.FdTracker: the descriptors of a plugin's run (src/plugin/fd_tracker.c, and the closing
--   of a socket in src/plugin/api_socket.c). The context of the run is there. Held, Close, Open
--   and Once are about `FdStep`, the relation of what can happen in a run. A descriptor has the
--   name of its opening, so that a number that is given out again is another one.
-- - WorkerPool (src/core/worker_pool.c): `Step` is a relation on the state that the threads
--   share. A thread's fetch with its test, and the write of its result, are one step each;
--   creation of a thread works or fails. The cursor wraps at 64 bits. Weights and Claim carry the
--   invariant of the cursor and the slots, Drain what holds when every thread has left. The
--   joins wait for the threads and change nothing, so they are no steps.
--
-- Not modelled: the clamp of timeouts, the command line, the names that banners give, the
-- ingestion of feeds; and sockets, TLS, SQLite, cJSON, the Lua interface itself, logging and the
-- programs' glue, which are input and output in the main.
pub mod Base
pub mod Version
pub mod Cpe
pub mod Kb
pub mod PortRange
pub mod Escape
pub mod DepGraph
pub mod Plugin
pub mod Target
pub mod WorkerPool
