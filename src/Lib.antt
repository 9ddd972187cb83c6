-- ===== src/Lib.antt =====
-- A model of the core of the Bigtable emulator: what a column family stores, how its cells are
-- written, deleted and collected, the sets of ranges that reads select with, the views of a map
-- that skip what is not selected, the transactions and the schema of a table, the messages that a
-- read writes, and the tables of a cluster.
--
-- The parts. A table of the emulator has column families; a column family (`ColumnFamily`) is a
-- sorted map from row keys to rows (`ColumnFamilyRow`), a row one from qualifiers to columns, and a
-- column (`ColumnRow`) one from time stamps to values, the freshest first. A read selects rows,
-- columns and cells by sets of disjoint ranges (range_set.h), through the views of filtered_map.h.
--
-- Files, with the code that each is about:
--   Common, StdMap, Status, External: shared names; `std::map` as a sorted list of entries;
--     `Status` and `StatusOr`; the big-endian codec and the comparison of row keys, which are not
--     of the repository, as records of operations with the documented laws.
--   ColumnRow: `class ColumnRow` of column_family.h and column_family.cc. A method that changes the
--     object takes the cells and returns the new cells with its result; the two overloads of
--     `ReadModifyWrite` are `increment` and `append`.
--   GcRule: `CheckGCRuleIsValid` and its helpers, and `ColumnRow::RunGC`. A rule is a tree of the
--     protobuf's cases; its size in bytes and the length of a duration are parameters. One reading
--     of the clock stands for all that a run of the garbage collection makes.
--   ColumnFamilyRow, ColumnFamily: the classes of these names, with the helper in place of
--     `columns_[q]` and `rows_[r]`. ColumnFamily/History has the sequences of calls.
--   RangeSet: the two templates of range_set.cc, over a record with the operations of a range type.
--     RangeSet/Laws is the interface that StringRangeSet and TimestampRangeSet fill.
--   FilteredMap: the three views. An iterator is the list of the entries from its position on.
--   CellView, RowStreamer: the classes of these names. What the gRPC writer answers is a parameter, a
--     function of the messages so far; `stream_all` is the end of `Table::ReadRows`.
--     RowStreamer/Client is a client of the protocol, which is not of the repository.
--   RowTransaction: the class of this name in table.h and table.cc. A reference to a column family is
--     its key in the table's map; a call of the storage is recorded. RowTransaction/ReadModifyWrite
--     has `ReadModifyWriteRow`, each rule with the clock's reading at its turn.
--   Table: `Table::DoMutationsWithPossibleRollback` of table.cc, on the column families of the table,
--     each mutation with the clock's reading at its turn. Table/Drop is `DropRowRange`, Table/RowSet
--     `CreateStringRangeSet`, Table/Schema `Construct` and `Update`, and Table/Modify
--     `ModifyColumnFamilies`, where `shared` stands for a pointer to a column family that the table
--     had before. The functions on field masks are a record of operations. Table/Requests has the
--     sequences of requests that change a table, each one step.
--   Cluster: the class of this name in cluster.h and cluster.cc, a table being its schema with its
--     column families, and the schemas that were stored a list.
--   Storage: the class of this name in storage.h and storage.cc, its calls for cells. RocksDB is a
--     record of operations with the documented effect of each on a read; `Storage/Rollback` joins it
--     to the calls that a `RowTransaction` records.
--   Examples: concrete parameters, and the theorems applied at concrete inputs.
--
-- A mutation of a row (`RowTransaction`) finds its column family by name, changes it, and pushes what
-- takes the change back on the undo log, which a transaction that is not committed runs from its top.
-- A read passes its cells to a `RowStreamer`, which writes them as chunks. The `Cluster` finds the
-- table of a request by name. The column families of a table are those in memory; with a storage, what
-- a transaction writes goes there too, and reads are served from it (`CreateCellStream`), so that
-- what a table reads in memory is what its clients read only without one.
--
-- The bounds. The loop of `RangeSetIntersectImpl` runs for at most as many rounds as the set has
-- ranges, since each round passes or erases one. An iteration through a view has a round for each
-- entry of the map and one for the end. All other loops are by recursion on the data. Versions are
-- counted in ℕ; the sum of two 64-bit integers wraps around (`add_int64`); the clock's reading is an
-- argument of what reads it.
--
-- Not modelled: error messages and metadata; the iterators that other classes hold into a column
-- family, and its streams; filters (filter.cc), and what needs them of a table (`CheckAndMutateRow`,
-- `SampleRowKeys`, the limit on rows of `ReadRows`); the thread that collects garbage; the server
-- (server.cc), which passes requests on; the storage's rows of schemas, its scans and its opening
-- (storage.cc), and failures of RocksDB.
pub mod Common
pub mod StdMap
pub mod Status
pub mod External
pub mod ColumnRow
pub mod GcRule
pub mod ColumnFamilyRow
pub mod ColumnFamily
pub mod RangeSet
pub mod TimestampRangeSet
pub mod StringRangeSet
pub mod FilteredMap
pub mod CellView
pub mod RowStreamer
pub mod RowTransaction
pub mod Table
pub mod Cluster
pub mod Storage
pub mod Examples
