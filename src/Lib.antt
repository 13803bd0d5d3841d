-- ===== src/Lib.antt =====
-- A verification library of lettydb, a small relational database in C++: its buffer pool, its
-- slotted pages, its allocation maps, its row format, its lexer and parser, and the pure parts
-- of its executor.
--
-- The program. Pages of 4096 bytes live in a file (src/storage/disk_manager.h) and are cached
-- in the frames of the buffer pool (src/buffer/buffer_pool_manager.cpp), which asks a
-- replacement policy (src/buffer/page_replacer.h, lru_replacer.cpp) for a frame to evict when
-- none is free. Rows are kept in slotted pages (src/storage/slotted_page.cpp). Extents of eight
-- pages are handed out from bitmaps (src/storage/extent_manager.cpp) and listed for each table
-- in IAM pages (src/storage/storage_def.h). Tables, the catalog and SQL stand on these.
--
-- Buffer/Replacer.antt is the interface PageReplacer with the documented effects of its calls,
-- and Buffer/Lru.antt is LRUPageReplacer: the std::list as nodes with addresses, the map from
-- frames to iterators as a map to addresses. Lru/Queue.antt and Lru/Refines.antt relate it to a
-- plain queue and make it an instance of the interface.
--
-- Buffer/Pool.antt and Pool/Flush.antt are BufferPoolManager over any replacer and any disk:
-- `Pool` has the fields of the class, and each function carries the name of its method. What a
-- method returns as a pointer to a page is the number of the frame, nullptr and std::nullopt
-- are `none`, and a failed write or read is a result of the disk. The counters are uint64_t and
-- wrap. A method holds the latch from start to end, so it is one step (`checkpoint` holds it
-- only while it flushes). The files below Pool have its theorems: Invariant (what holds between
-- calls, and what a caller sees of a page), Acquire and Frames (acquire_frame), Install and
-- Calls (fetching and creating), Pinning and Updates (unpinning, writing, deleting), Durable
-- and Checkpoint (flushing), Start (the constructor), Service (when fetching fails), Run and
-- Refines (all calls against an abstract pool).
--
-- Storage/Disk.antt is the interface IDiskManager: a write touches no other page, a read
-- returns what the file holds, a failed write leaves its own page in any state.
-- Storage/DiskManager.antt is src/storage/disk_manager.cpp over the system calls, whose
-- documented effects are the record OsFile, and fills the interface. Storage/Config.antt has
-- the constants of src/storage/config.h. Storage/Bytes.antt is a page buffer, byte by byte,
-- with 16-bit fields. Storage/SlottedPage.antt is src/storage/slotted_page.cpp on such a
-- buffer: the fields of the header and of the slots are read from and written to the bytes that
-- the rows are in. Below it are Layout (what keeps the regions apart), Insert, Rows and
-- Contract (insert_tuple, get_tuple), Delete (delete_tuple, is_empty), RowList and Compact
-- (init, compact) and Run (sequences of calls).
--
-- Storage/Bitmap.antt and Storage/IamPage.antt are the classes Bitmap and IAMPage of
-- src/storage/storage_def.h, an array of bytes and an array of extents; IamPage/Entries.antt
-- has their list. Storage/Extents.antt is what src/storage/extent_manager.cpp does with one GAM
-- page: the position of the page in the chain is an argument, an exception is a result
-- (Extents/Allocate has the theorems). Extents/Manager.antt is its walk along the chain of GAM
-- pages, over the buffer pool, without the creation of new GAM pages. Storage/IamManager.antt
-- is the search for a page with room of src/storage/iam_manager.cpp, over the buffer pool and
-- the bytes of the IAM pages (IamManager/Reference has the search in the contents of the pages
-- that it is compared with, Pages and Search the proofs). Its walk along the chain has the
-- number of IAM pages as fuel: as many as the chain has are enough, and the source does not end
-- on a chain that leads back into itself. Storage/Tuple.antt is src/storage/tuple.cpp: rows to
-- bytes and back, the exceptions as `none` (Tuple/Fields for one value, Tuple/Nulls for the
-- null bitmap, Tuple/Roundtrip for rows).
--
-- Sql/Token.antt has the tokens and keywords (src/sql/token.h, token_type_utils.h),
-- Sql/Lexer.antt is src/sql/lexer.cpp on the characters that are left (Lexer/Progress for the
-- end of its loop, Lexer/Keywords and Lexer/Shapes for the reserved words and date formats as
-- they are written, Lexer/Spelled and Lexer/Roundtrip for tokens that are written out).
-- Sql/Ast.antt is src/sql/ast.h, Sql/Parser.antt and Parser/Expressions, Lists, Select, Insert,
-- Create and Commands are src/sql/parser.cpp: each function has the name of its method and
-- returns the tokens that are left. Parser/Grammar is the grammar of expressions, Parser/Sound
-- and Parser/Accepts relate the code to it, Parser/Printer prints expressions, Parser/Keeps has
-- what every method keeps and Parser/Safety what follows for whole statements.
--
-- Catalog.antt has the columns of src/catalog/column.h. Sql/Executor.antt is the evaluation of
-- conditions in src/sql/executor.cpp (Executor/Names has what names and literals stand for,
-- Executor/Where has the types and the three-valued logic, Where/Logic the theorem),
-- Executor/Rows its rows for INSERT and its columns for CREATE TABLE, Executor/Select its
-- SELECT on the rows that a scan returns. An ExecutionResult::error and an exception are both a
-- `Failure`.
--
-- Common has the shared names, integers, maps and list lemmas. The files Tests have concrete
-- pools, pages, rows and queries.
--
-- Bounds. The loops run over the slots of a page or the frames and entries of a pool, and are
-- structural recursion on their number, so no fuel is needed. pin_count is an int and is taken
-- to be a natural number; page ids are int32_t and taken to be integers.
--
-- The search of a GAM page and of an IAM page run over their bits and entries in the same way.
-- The lexer's loop over tokens has fuel, one more than there are characters, since a token
-- takes one at least. The walk along the GAM pages is given the number of pages that it may
-- visit.
--
-- A nested expression of the parser has fewer tokens and at most four calls stand between two
-- of them, so four units of fuel for each token and four more are enough; a round of a loop
-- over a list takes a comma.
--
-- Not modelled: opening and closing the file, the creation of GAM pages, the growth of the
-- chains of IAM pages, tables, the system tables of the catalog, the calls of the executor into
-- them, the command line, logging. Threads are modelled by one step per call.
pub mod Buffer
pub mod Catalog
pub mod Common
pub mod Sql
pub mod Storage
