-- ===== src/Lib.antt =====
-- FBBS: the parts of the bulletin board system that keep data in memory and in files of their own.
--
-- - Vector (lib/vector.c): the growable array. `Vector` is `vector_t`, its block a list of bytes or
--   none. `reserve`, `grow`, `erase_range`, `erase`, `at` and `free` are `vector_reserve` and so on.
-- - Parcel (lib/parcel.c): the serialised form of records, written to a buffer that doubles and read
--   back. `write_varint64`, `read_varint64` and so on are the functions `parcel_...`.
-- - ReadMark (lib/boardrc.c): the posts that a user has read. `Brc` and `Buf` are the two static
--   variables `brc` and `brc_buf`; ReadMark has the marks of one board, ReadMark.Record a record as
--   bytes, ReadMark.Buffer the buffer of all boards and the way to the user's file.
-- - Hash (lib/hash.c): the hash table with chains. `hash_set`, `hash_get` and `expand` are the functions
--   of these names; what malloc finds is given to each call.
-- - Terminal (src/terminal.c): the buffers of a session at the terminal. Terminal.Output is
--   `output_buffer` with `flush`, `putchar` and `write_cached`; Terminal.Input is the way of the bytes
--   from `get_raw_ch` through `handle_iac` and `handle_esc` to `igetch`.
-- - XmlPost (fcgi/parse.c): a post as XML. Ansi, Paragraph, Body and Header have `print_ansi_text`,
--   `print_paragraph`, `print_body` and `print_header`, which write what they print to a list. Content
--   is a grammar of elements that does not look at references, since a short link is printed as it is.
-- - Records (lib/record.c): files of records of one length; a file is the list of its records. Records
--   has `record_apply` (with `remove`, `record_delete`), `record_foreach` and `record_reverse_foreach`,
--   Records.Change has `record_merge`, `insert_record` and `delete_record`, Records.Search
--   `record_search_copy`, and Records.Numbered the functions that number records from 1. The
--   record_callback_t is a parameter, as are the order of the file and the C library's qsort.
-- - Time (lib/time.c): `valid_date`.
-- - Text (lib/string.c): strings in UTF-8 and GBK. `next_wchar`, `string_cp`, `fb_wcwidth` and
--   `validate_width_and_length` are the functions of these names; `encode` is the encoding of the
--   Unicode standard, against which they are compared. Text.Case, Text.Trim, Text.Gbk and Text.Pstring
--   have the other functions, `strcasestr_gbk`, `trim`, `valid_gbk`, `pstring_append_string` and so on.
-- - Common: lists and tests on the native numbers, blocks of memory (Memory), C strings (CString),
--   byte order (Endian), the results of C code (Run) and the allocator (Alloc).
--
-- XmlPost calls Text.Case for the comparison that ignores case; otherwise the parts do not call each
-- other and share the model of memory. An operation whose behaviour the C
-- standard leaves open, such as an access outside a block, a copy by memcpy of overlapping bytes or a
-- shift of a negative integer, is a fault of the type `Run` where the model reaches it, and so is a loop
-- that runs out of fuel.
--
-- Numbers. Machine integers are natural numbers, and the arithmetic that can wrap is reduced by a
-- power of two where it stands, but for offsets in record files: `offset * rlen` is an int product, and
-- these files are taken to be shorter than 2^31 bytes. `vector_size_t` and the items of a read mark have 32 bits, `size_t` 64.
-- A signed integer in a parcel is its bit pattern, and its shift to the left is a fault for a negative
-- one or one that is too large.
--
-- Fuel. The doubling of a capacity has 64 rounds in a parcel and 29 in a vector, which reach 2^63 and
-- 2^31. The varint writer has ten rounds for 64 bits and the reader eleven, one more than it can make
-- before it shifts too far. The loops over the buffer of read marks have one round for each of its bytes. The search for the
-- next slot of a hash table has two rounds more than `max`. The
-- loop of `brc_clear` has 61. A write to the terminal has two rounds more than bytes, the rounding of
-- a pstring 30, one more than it takes to reach 0, and each loop over a post or over the input one more
-- than bytes are left. The loops over a string have one round more than it has bytes, and the
-- binary search one more than the table has entries. The walk over a file has two rounds more than
-- the file has records, one to go back and one that reads none; the walk from its end and the merge
-- have one more than there are records.
--
-- What the pool of lib/pool.c gives is a parameter of the calls. The allocator is a parameter with the behaviour the C standard documents, `IsAllocator`. The file of
-- read marks is a value that a session gets and leaves; `brc_save` is taken to open it. The bytes of a
-- buffer that C leaves without a value are taken as zeros.
--
-- Not modelled: the terminal and web interfaces, the games and utilities, the clients of the database
-- and of the cache server, system calls, the memory pool and the copied SSH library. The wait for
-- input by select is left out, and the bytes that reads give are a parameter; so are what iconv,
-- mktime, strftime and vsnprintf give. The opening and locking of record files, and a failure to map one,
-- are left out, and so are `apply_record` and a negative offset, but for `record_search_copy`, where it is none.
pub mod Common
pub mod Vector
pub mod Parcel
pub mod ReadMark
pub mod Text
pub mod Hash
pub mod Terminal
pub mod Records
pub mod Time
pub mod XmlPost
