-- ===== src/Lib.antt =====
-- Taco-DB: a verification library for the parts of the database system that lay out, write and
-- read records, keep the volatile catalog, load its initial data, own resources, access files on
-- disk, name operators, compute the built-in types, look up and extend the catalog, and carry
-- values.
--
-- The program. A schema (src/catalog/Schema.cpp) is created from the types of its fields, computes
-- a layout once, and then writes the values of a record into a payload and reads them back. The
-- catalog (src/catalog/VolatileCatCache.cpp) keeps such payloads as records in files in memory and
-- names them by record IDs (include/storage/Record.h). Above these files, the catalog cache
-- (include/catalog/CatCacheBase.h) searches the system tables, keeps rows and table descriptors
-- (src/catalog/TableDesc.cpp) that it has made, gives out object IDs and adds tables. Values are
-- passed around as Datums (include/base/datum.h). The built-in functions of the types
-- (src/utils/typsupp) work on the values. The initial contents of the system tables come from a
-- text file (src/catalog/InitDataFileReader.cpp), whose table lines give a schema and whose data
-- lines are written as payloads by it. All of them use the alignment and arithmetic helpers of
-- include/base/tdb_base.h and include/utils/misc.h.
--
-- The files.
--   Common    shared names, tests, lists, bytes, bit masks and the result type.
--   Base      TYPEALIGN, MAXALIGN and AddWithCheck of include/base/tdb_base.h.
--   Schema    Schema::Schema, Create and ComputeLayoutImpl: Defs has the state, Layout the body of
--             the first loop, Compute the rest, and Names the getters. Kinds and Laid say what a
--             layout is; Trace, Visit, Order, Sections and Bits carry the proof, Established ends
--             it, and NullIds draws the conclusions on null bits.
--   Payload   Write has WritePayloadToBufferImpl, Read has GetOffsetAndLength, FieldIsNull,
--             GetField and DissemblePayload. Steady, Results and Wraps are about the writer, Flags
--             and Nulls about null bits, and Places, Fixed, Stores and RoundTrip about writing and
--             reading back.
--   Types     Call has the NULL tests, Signed the integers of C++, Integer the operators of any
--             integer type, Files those of the eight files int1.cpp to uint8.cpp and the
--             comparisons of oid.cpp, Boolean bool.cpp, and Text varchar.cpp and char.cpp.
--   Storage   RecordId, its comparisons and its hash.
--   Volatile  the heap files of VolatileCatCache and their iterators.
--   Catalog   CatCacheBase and TableDesc: Interface has the file access that the cache takes, as a
--             record that Volatile fills by VolatileCatCache, and the generated code of the system
--             tables; Oids is AllocateOid step by step, State the cache, Search the scan of a
--             system table, Find the lookups and FindTableDesc, Descriptor TableDesc::Create,
--             Insert AddTable, and Load CreateDBMeta and LoadInitFile. Allocate and Returns are
--             about AllocateOid, Matches and Lookups about the scans and lookups, Descriptor/Fill,
--             Rows and TableRows about descriptors and new rows, and Loaded, Blocks and LoadedFiles
--             about the initial data.
--   Datum     Datum, DatumRef and NullableDatumRef: Cells has their functions, Program the calls
--             that a program makes, Ownership and References are about these.
--   Utils     logn_floor and logn_ceil.
--   Guard     include/utils/ResourceGuard.h: Sentinel and Flagged are its two movable templates,
--             Cells the interface that both implement, and Program the calls that a program makes.
--   File      FSFile of src/storage/FSFile.cpp: System has the calls of the operating system, as a
--             parameter, with the result of fallocate_zerofill_fast among them, Calls has the
--             functions, and Sizes and Stale are about the size that a file remembers.
--   Query     OpTypes is src/query/expr/optypes.cpp, and IdxTypes is src/index/idxtyps.cpp.
--   Reader    InitDataFileReader of src/catalog: Tokens has FindNextToken, State the reader and its
--             stream, and Next the function next. Escapes and Quotes are about one token, Fields
--             and ReadBack about a data line, Layouts about the schema that is kept, and Progress,
--             Termination and Ends about the loops.
-- The modules called Tests have the theorems at concrete values.
--
-- Conventions. Assertions are enabled, so one that fails throws a fatal error, as LOG does at
-- kError and above. A call comes to a value, to such an exception or a std::length_error, or to
-- behaviour that C++ leaves undefined. A FieldOffset is its 16-bit pattern, and every conversion is written out as a
-- remainder. The length of a record in VolatileCatCache is not negative. Loops are recursion on a
-- list or on the number of rounds that the loop can make at most, so that no fuel runs out: the
-- loops over a line in Reader are given the line's length as fuel, and Reader/Termination shows
-- that this is enough. The scans in Catalog take any fuel, and are shown to end where it is more
-- than the entries of the file. FindTableDesc is given the depth to which it calls itself; these
-- calls are for Table, Column and Type, whose descriptors the initialization caches.
--
-- Parameters. The lookup of a type in the catalog, the call of a type's length or input function,
-- the table of built-in functions, and absl::SimpleAtob and SimpleAtoi are arguments of the
-- definitions that use them; so are the calls of the operating system that a file makes, the
-- structs of the rows of the system tables and their object IDs, which the build generates, and the
-- pointers that an allocation returns.
--
-- Not modelled: FSFile::Flush, which does nothing; the latches and the template of resource guards
-- for references; text input and output of numbers and the comparison of strings,
-- which absl and libc do; floating point; in the catalog cache FinishInitCatalog,
-- LoadMinCache, index descriptors, AddIndex and FindAllIndexesOfTable; the bootstrap catalog
-- cache; logging and start-up, which are system calls; and the code that the build generates.
pub mod Common
pub mod Base
pub mod Schema
pub mod Payload
pub mod Types
pub mod Storage
pub mod Volatile
pub mod Utils
pub mod Catalog
pub mod File
pub mod Guard
pub mod Datum
pub mod Query
pub mod Reader
