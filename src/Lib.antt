-- ===== src/Lib.antt =====
-- LimniFS reader: the formats of an image and the cache of decoded drops.
--
-- The program. An image is a manifest (a header and counted sections), slabs (files of drops, each a
-- header and records), and a metadata blob (inodes and directory nodes). limnifs-core parses all of
-- it through one cursor over bytes it does not trust, and reads decoded drops through a bounded
-- cache. limnifs-write builds images, limni is the command line.
--
-- What is modelled, file by file:
--   Error               limnifs-core/src/error.rs
--   Cursor              limnifs-core/src/cursor.rs: the bounded reads; below it the reasoning on what
--                       a parser consumes (Steps, Rules, Reads, Guards, Loops, Unique)
--   Format              limnifs-format/src/lib.rs: slab ids, tiers, representations
--   Manifest/Header, FeatureFlags, Locator, SlabIndex, History, EcParams, DeltaLinkage, DmsPolicy,
--   MetadataReference
--                       header.rs, feature_flags.rs, locator.rs, slab_index.rs, history.rs,
--                       ec_params.rs, delta_linkage.rs, dms_policy.rs,
--                       metadata_reference.rs of limnifs-core/src
--   Slab/Header, Slab/Record
--                       limnifs-core/src/slab.rs and drop_record.rs
--   Slab/Reader         limnifs-core/src/slab_reader.rs: SlabView and parse_slab
--   Slab/Store          limnifs-core/src/slab_store.rs: SlabStore::from_bytes and the reads by drop id
--   Merkle              limnifs-core/src/merkle.rs
--   Epoch               limnifs-core/src/epoch: Header, Ops and Drops are its files, with the writers
--                       and the parsers; Identity is on the id of an epoch
--   Seekable            limnifs-core/src/seekable.rs: the container of frames
--   Paged               limnifs-core/src/paged_slab.rs: PageCache and PagedBytes, with the loops of a
--                       read in Cache, Run, Fill and Assemble; Paged/Slab: parse_slab_record_table
--                       and PagedSlab
--   Codec               what limnifs-core/src/codec promises, an interface
--   Tree/Directory      limnifs-core/src/directory_node.rs
--   Tree/Inode          limnifs-core/src/inode.rs: attributes, content handles, the length of a file
--   Cache               limnifs-core/src/slab_cache.rs: SieveCache, CachedSlabStore::decoded
--   Tests               the theorems at concrete inputs
--
-- How it corresponds. A parser takes a cursor (the bytes and a position) and gives an error or a value
-- with the cursor behind it. An early return is `reject`, `ok_or` is `or_fail`, a `for` loop over a
-- count is `parse_list`, whose body sees the entries already read. A function with a ceiling takes it
-- as an argument, as in the source. Beside each parser, RoundTrip describes the wire layout on its own
-- (`encode`, and `IsWellFormed` for what the format asks) and relates the parser to it: what is laid out
-- well parses to itself, and what parses is well formed and was laid out so.
--
-- Bounds and fuel. usize has 64 bits, so `usize::try_from` of a u32 never fails and is left out;
-- `checked_mul` fails from 2 ^ 64. Strings are their UTF-8 bytes, 32-byte arrays lists of bytes. An
-- error keeps its section and its kind, not the numbers in its text. The eviction loop runs on fuel of
-- twice the queue's length and one, which is enough: each round evicts a slot or clears a visited
-- bit that only a lookup sets again (Cache/Evict). The counters of hits and misses do not wrap.
--
-- The loops of chunks_from, fill, walk_records and walk_table run on fuel of the bytes, the pages and
-- the slab's length, which are enough, since a round takes at least one of them; the theorems on
-- these functions give results, not only what holds of a result.
--
-- u64 arithmetic that the source does not check (`off + len` of a range read, the ends of pages) wraps
-- as in a release build: wrap_add, wrap_sub and wrap_mul of the Prelude. A debug build panics there. A
-- slice or an index that wrapped values put out of bounds, where the program panics, is the error
-- Fault.panic. The theorems on range reads ask that `off + len` fits 64 bits, the one on reads through
-- the page cache that the last page of the range ends within them. Sums that cannot leave 64 bits (of
-- u32 lengths, of positions in a slice) are plain sums.
--
-- Slabs. SlabView reads a slab in memory, PagedSlab the same slab through the page cache. The state
-- of PagedBytes (the length, if it is known, and the cache) is passed on by each read, also by one
-- that fails. The transport is the parameter `reader`, and the theorems ask that it is `pread` on a
-- file.
--
-- Not modelled: codecs, cryptography, network and file I/O, the writer and the command line. The
-- codecs are an argument of the type Codec, with the laws IsLossless as a hypothesis of the theorems
-- on decoding. BLAKE3 is the parameter `blake3`. The store behind the cache of drops is the parameter
-- `fetch` of `decoded`: a function of the key, since slabs do not change, as `plaintext_for` of
-- Slab/Store is. Locks are left out: an
-- operation of a cache runs under its mutex, so it is one step, and the reads of one PagedBytes
-- are taken one after the other. The decompression of an inline metadata blob (limnifs-core/src/codec
-- over its libraries) is the parameter `decompress`, and the load of an external one is file I/O.
-- Reads of ranges and frames through the cache of drops are not modelled either.
pub mod Prelude
pub mod Error
pub mod Cursor
pub mod Format
pub mod Manifest
pub mod Slab
pub mod Tree
pub mod Cache
pub mod Codec
pub mod Merkle
pub mod Epoch
pub mod Seekable
pub mod Paged
pub mod Tests
