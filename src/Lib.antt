-- ===== src/Lib.antt =====
-- A verification library for VictoriaMetrics, a time series database: the codecs of its storage, the
-- names, ids and headers that they carry, and the parsers of the rows that it takes in.
--
-- A block of rows of one time series is kept as two encoded arrays of int64, the timestamps and the
-- values (lib/encoding), under a header (lib/storage/block_header.go) that carries the series' id
-- (lib/storage/tsid.go), the kinds and the first items of the arrays, and a precision. The headers of
-- a run of blocks make an index block, and a row of the metaindex (lib/storage/metaindex_row.go) sums
-- one index block up. Two blocks of a series are brought to one scale (lib/decimal) and merged by
-- their timestamps (lib/storage/merge.go). A series' name (lib/storage/metric_name.go) is its group
-- and its tags, kept as bytes with escaped separators; rows arrive with the name in a raw form of its
-- own. The index of the names is a set of byte strings (lib/mergeset) in sorted blocks of 64 KB, under
-- headers and metaindex rows of their own, that streams of parts are merged into. Rows come in as
-- lines of three protocols (app/vminsert), and queries name them (app/vmselect/promql).
--
-- Files and the code they model, by folder:
--   Base            numbers, tests, lists, words of fixed width, outcomes and bit laws that all share
--   Encoding/Fixed  lib/encoding/int.go: MarshalUint16 … UnmarshalInt64, big endian, with zig-zag
--   Encoding/Varint lib/encoding/int.go: the varints (MarshalVarInt64s …) and MarshalBytes
--   Encoding/Delta  lib/encoding/nearest_delta.go and nearest_delta2.go: differences of an array, and
--                   of these, with trailing bits dropped below 64 precision bits
--   Encoding/Array  lib/encoding/encoding.go and compress.go: marshalInt64Array, which picks a kind,
--                   and unmarshalInt64Array
--   Encoding/Sequence  lib/encoding/encoding.go: EnsureNonDecreasingSequence
--   Storage/TagValue   lib/storage/metric_name.go: marshalTagValue, unmarshalTagValue and Tag
--   Storage/MetricName lib/storage/metric_name.go: MetricName, its filters and its codec; Raw has
--                      MarshalMetricNameRaw and unmarshalRaw, and Raw/Named the name that labels
--                      stand for
--   Storage/Tsid, Storage/BlockHeader, Storage/Metaindex  the files of lib/storage of these names
--   Storage/Block      lib/storage/block.go and merge.go: a block of rows and mergeBlocks
--   Decimal            lib/decimal/decimal.go: CalibrateScale and maxUpExponent
--   Mergeset/Block, Mergeset/Codec  lib/mergeset/encoding.go: the block of items in memory (Prefix: its
--                      common prefix, Order: its sorting) and its plain and zstd encodings
--   Mergeset/Merge     lib/mergeset/merge.go: streams of blocks merged; Heap, Feed, Round
--                      and Correct prove it, Stored reads its blocks back
--   Mergeset/Header, Mergeset/Metaindex  lib/mergeset/block_header.go and metaindex_row.go
--   Mergeset/Search    lib/mergeset/part_search.go: binarySearchKey and tryFastSeek
--   Mergeset/Parts     lib/mergeset/table.go: getPartsToMerge and appendPartsToMerge
--   Insert/Lines       the loops over lines and tags that the three parsers below share
--   Insert/Graphite, Insert/Opentsdb, Insert/Influx  parser.go of app/vminsert/graphite, opentsdb and
--                      influx: a batch of lines to rows; Influx/Text has the escapes and the quotes
--   Insert/Floats      what the parsers use of the package fastfloat
--   Promql/Ident       app/vmselect/promql/lexer.go: identifiers of queries, their escapes and scanning
-- A folder's Examples have runs on small inputs and the theorems at concrete inputs.
--
-- How the code corresponds. A slice of bytes is a list of numbers; a function that appends to `dst`
-- takes and returns the list. An intN or uintN is a number below 2^N, a signed one by its two's
-- complement pattern, with the wrap-around written out (Base/Words). A Go error is `err` with a value
-- that tells the errors apart without their text; `panic` is logger.Panicf or an index out of range
-- (Base/Outcome). The method that changes its receiver returns the new one.
--
-- Bounds and fuel. A varint takes ten bytes at most, and the reader counts them as the code does. The
-- loops `for len(src) > 0` run on fuel `len(src)`, which is enough since each round takes a byte at
-- least; the merge of two blocks runs on the number of rows and two rounds more, since each
-- round but the first takes a row. A loop that is out of fuel gives `panic`. A merge of streams has a
-- round for each item and one more, since each takes an item at least.
--
-- Parameters. The package fastfloat is third-party code: a record `Floats` of its functions, of which
-- nothing is asked; float64 in the choice of parts is a record `Ratios`, of which nothing is asked
-- either. zstd is third-party code: `Zstd` is a pair of functions, and what is asked of it is
-- `IsLossless`, that decompressing what was compressed gives it back. The comparison of two sizes
-- with the float 0.9 is the comparison of ten times one with nine times the other.
--
-- Not modelled: the pools of buffers, which save allocations; sortTags, since sort.Sort fixes no
-- order between equal keys; floats, and so the conversions of decimals; files, goroutines and caches;
-- the merge of streams of blocks of rows, Seek and NextItem of the search in parts, the index database,
-- and of the query language all but its identifiers.
pub mod Base
pub mod Encoding
pub mod Decimal
pub mod Insert
pub mod Mergeset
pub mod Promql
pub mod Storage
