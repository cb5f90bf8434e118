-- ===== src/Lib.antt =====
-- VictoryDB: a verification library for the storage engine's in-memory write and read path.
--
-- The program keeps internal keys (a user key and a trailer of sequence number and operation) in a
-- skip list whose nodes live in an arena; a write batch encodes the operations to apply, and writing
-- threads queue up behind a leader in the write thread.
--
-- Key models crates/engine/src/key: Key.InternalKey is internal_key.rs and encode_into of mod.rs
--   (pack_trailer, encode_trailer, unpack_trailer, InternalKeyRef::from is internal_key_ref);
--   Key.Comparator is comparator.rs, a comparator being a record whose compare is none where the
--   code panics; Key.Buffers is inner_key.rs, iter_key.rs and lookup_key.rs, with the prefixes
--   inner, iter and lookup for the three types.
-- Codec models crates/engine/src/utils (Codec.VarInt is var_int.rs, Codec.Memory is mod.rs) and
--   crates/engine/src/db/write_batch.rs (Codec.Batch; put is put_key, the type's own new and
--   put_bytes keep their names).
-- Arena models crates/mem/src/arena.rs and allocator.rs. A pointer is a chunk's index and an offset.
--   Arena.Concurrent is alloc_raw_fallback by any number of threads: alloc_step is one access of a
--   request, with try_new_chunk under the mutex of the chunks.
-- SkipList models crates/engine/src/memtable/skip_list.rs: SkipList.Node is Node with its loads and
--   stores, SkipList.Level the choice of a height, SkipList.Search the search, SkipList.Insert both
--   insertions, SkipList.Iter the iterators. It uses a Comparator, of which its lemmas ask what
--   Key.Comparator.IsLawful says. SkipList.Concurrent is insert and insert_with by any number of
--   threads: insert_step is one access of an insertion to the list, Pc where it is (its search, the
--   store into its own tower, the exchange), and Reach any interleaving of such accesses. The first
--   search of an insert, up to placing, stands for search_node as well, which makes
--   the same accesses. The returns on a searched_node, which no search sets, are left out there.
-- Memtable models crates/engine/src/memtable/memtable.rs: MemtableInner with its arena and skip
--   list, get, the insertions (memtable_insert is insert), and in Memtable.Iterator the iterator,
--   whose operations carry the prefix iterator where a name is taken. It uses the internal
--   comparator. Memtable.Writes and what follows describe a memtable by the writes made to it,
--   Memtable.Returns what a lookup says of an entry, Memtable.Regions where the nodes stand in the
--   arena.
-- Writer models crates/engine/src/db/writer.rs: a writer and its wait, for which the loads of the
--   state by its thread, before and after it sets LOCKED_WAITING, are an argument, since other
--   threads write it.
-- WriteThread models crates/engine/src/db/write_thread.rs: link_step is one access of link_writer to
--   shared memory; WriteThread.Joining lets any number of threads take such steps in any order, and
--   link_writer is one thread's run of them. WriteThread.Grouping is set_new_links, EnterBatchGroup
--   (enter_batch_group, up to the todo!() at its end) and join.
-- Hazard models crates/mem/src/hazard/domain.rs: the available records of a domain, of which
--   acquire_step is one access to the list by try_acquire_available; release is release_many of one
--   record. Hazard.Pointer is the protection of a pointer in hazard_ptr.rs, for which the loads of
--   the source are an argument, each a function of what the record holds when it is made.
-- Base holds what these share: tests, lists, bits, byte slices, and Run, the result of code that may
--   panic, have undefined behaviour (fault) or use up its fuel.
--
-- Numbers are natural numbers with the wrap-around of the machine's widths written out; usize is
-- 64 bits wide and the machine little-endian. Checks that exist in debug builds only are left out,
-- except where the operation behind them panics as well, and in the write thread, where an argument
-- tells whether they are there.
--
-- Fuel: a loop of the skip list takes one unit for each node it looks at, and more units than the
-- list has entries are enough. A loop of the arena takes one unit for a spurious failure of the
-- weak compare-and-swap and one for a new chunk, so more units than the failures and the bytes left
-- below the capacity are enough. A thread that links a writer takes one unit for each access and
-- one to return, two more for each spurious failure; a blocked writer takes one for each load of
-- its state. The accesses of the concurrent insertions are steps and take no fuel. An acquisition of hazard records
-- takes four units, a protection one for each load of the source. The loop of VarInt::new takes one
-- unit for each byte, and a 32-bit number has at most five, the last of which does not fit the
-- buffer. All other loops are structural.
--
-- Memory: the arena, the heap of nodes, the writers and the buffers are separate. A node's address
-- is the one that the arena gave and is an argument of the insertion; where the system puts the
-- arena's chunks is an argument of the memtable, and that they do not overlap is a named
-- hypothesis. Memtable.Regions says
-- where the bytes of a memtable's nodes stand in its arena. Threads interleave in the allocations of an arena, in the insertions
-- into a skip list, in the write thread's queue and in the acquisition of hazard records, each
-- access at once; everything else runs in one thread, one operation after the other. The choice of
-- a height and the node that no other thread can see yet are one step. Orderings of atomic
-- operations are not modelled.
--
-- Not modelled: the typestate around the memtable, retirement and arrays of hazard pointers,
-- options, thread contexts and scratch buffers; iterators, versions and the front end, which
-- declare types without behaviour; formatting; the system's allocator, which is taken to succeed;
-- parking and unparking of threads, beyond that a parked thread goes on at some time.
pub mod Base
pub mod Key
pub mod Codec
pub mod Arena
pub mod SkipList
pub mod Memtable
pub mod Writer
pub mod WriteThread
pub mod Hazard
