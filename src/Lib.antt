-- ===== src/Lib.antt =====
-- libtrading: the byte buffers, the FAST field coders, the FIX messages and the order book of the
-- library.
--
-- The program. libtrading is a C library of trading protocols. Every protocol reads and writes a
-- `struct buffer` (lib/buffer.c, include/libtrading/buffer.h): a window from `start` to `end` of an
-- allocation of `capacity` bytes. FAST (lib/proto/fast_message.c,
-- include/libtrading/proto/fast_message.h) sends a message as a presence map and the values of its
-- fields. Integers go out in septets, the last with the stop bit. A field has an operator (none, copy,
-- increment, delta, default, constant) and a presence, which decide whether a value is on the wire,
-- whether a bit of the presence map tells so, and what stands for a missing value; both ends remember
-- the previous value of each field.
-- FIX (lib/proto/fix_message.c, include/libtrading/proto/fix_message.h) sends a message as text: fields
-- `tag=value` that end in a SOH byte, with the length of the body in the second and a sum of all bytes in the
-- last. fix_message_unparse writes them with the printers of lib/itoa.c, and fix_message_parse looks for
-- a message whose first three fields and sum are right and stores its fields by the types that a
-- dialect gives to their tags. A session (lib/proto/fix_session.c) numbers what it sends and counts what it
-- receives.
-- The order book (lib/order_book.c, include/libtrading/order_book.h) keeps a price level for each side and
-- price in a hash table, a tree and a sorted list of GLib, which share pointers to the levels.
--
-- The files.
--   Base            Boolean tests, lists, bits of small numbers and 64-bit words over the native ℕ.
--   Buffer          `struct buffer` and the operations of buffer.h and buffer.c that work on memory;
--                   Buffer/Contents says what a valid buffer holds and how reads and writes move it,
--                   Buffer/Moves how buffer_compact, buffer_find, buffer_sum and buffer_append act on it,
--                   Buffer/Numbers what the little-endian getters read.
--   Fast/Codec      parse_uint, parse_int, transfer_uint, transfer_int and their sizes; Groups, Unsigned,
--                   Signed and Outcome are about what they do to a buffer.
--   Fast/Pmap       `struct fast_pmap`, pmap_is_set, pmap_set and parse_pmap; proofs in Laws and Parse.
--   Fast/Field      `struct fast_field` and the steps of the operators that the coders of every type
--                   repeat: use_previous, use_reset and decode_constant for the decoders, and for the
--                   encoders encode_always, encode_expected, encode_default and encode_constant, which
--                   end in one of the labels that the C code jumps to (the type Exit).
--   Fast/Integer    fast_decode_uint, fast_decode_int, fast_encode_uint, fast_encode_int. Channel is
--                   the interface of a septet codec and of the shift of nullable values, which
--                   Encoding, Decoding, Operators and RoundTrip take as parameters.
--   Fast/Text       parse_string, parse_bytes, transfer_string, fast_decode_unicode, fast_decode_ascii,
--                   fast_decode_string, fast_encode_string; proofs in Arrays and Wire.
--   Fast/Vector     fast_decode_vector.
--   Fast/Decimal    fast_decode_decimal_atomic, fast_decode_decimal_individ, fast_decode_decimal, and in
--                   Encoders the three encoders; proofs in Bounds and Individ.
--   Fast/Message    `struct fast_message`, `struct fast_sequence` and the loop over the fields of a message;
--                   Elements has fast_decode_sequence, Decode fast_get_msg, fast_message_decode and
--                   `struct fast_session`, Encode fast_message_encode, Reset fast_message_reset. Marks,
--                   Fields and Runs follow the presence map and the bytes through the fields,
--                   Wire and Maps the presence map through the buffer, Arrival and RoundTrip the message;
--                   Cut, CutFields, CutMap, Pauses, Resume and Split are about a part of its bytes.
--   Fast/Session    fast_session_recv, fast_session_send, fast_session_reset
--                   (lib/proto/fast_session.c) and fast_message_send.
--   Fast/Book       decimal_to_int and price_align (lib/proto/fast_book.c); Prices has what becomes of a price.
--                   Entries has md_increment and md_snapshot, which apply an entry to an OrderBook;
--                   Increments has the update of the levels that an increment is, and Kept is about what
--                   is in the book before a snapshot.
--   Itoa            uitoa, itoa, i64toa and checksumtoa; Digits has the decimal digits of a number, Print and
--                   Signed what is left in memory.
--   Fix/Scan        fix_uatoi, fix_atoi64, parse_tag, parse_value, next_tag, match_field and parse_field;
--                   Memory, Numbers and Fields are about the bytes, numbers and fields that they meet,
--                   Moves about how far they move a buffer of any bytes.
--   Fix/Kind        the types of messages, fix_msg_types and fix_msg_type_parse.
--   Fix/Field       `struct fix_field`, fix_tag_type and fix_field_unparse; Written has the bytes of a field.
--   Fix/Message     `struct fix_message`, fix_message_unparse, fix_message_parse and what it calls,
--                   fix_message_add_field and fix_get_field. Unparsed has the bytes of a message, Typed
--                   the fields that keep their values, Rest
--                   the loop of rest_of_message, Checked the first three fields, Sum the checksum, and
--                   Conveyed and RoundTrip both ends together; Steps and Returns are about any bytes.
--   Fix/Text        fix_get_string; Copied has what it leaves in the caller's buffer.
--   Fix/Session     `struct fix_session`, fix_session_send, fix_session_recv (lib/proto/fix_session.c),
--                   fix_message_send and buffer_recv; Receiving is about any bytes that arrive, Delivery
--                   about a message from one session to another.
--   Fix/Protocol    tools/fix/fix_common.c on these sessions: fix_session_keepalive, fix_do_unexpected,
--                   fix_session_admin and what they send. Numbers is about the numbers of what is received,
--                   Alive about a silent peer.
--   OrderBook       `struct order_book`, ob_clear, ob_level_lookup, ob_level_modify and ob_level_delete.
--                   Containers is the interface of GLib's tables, trees and lists with the documented laws
--                   that the proofs use; Spec is the abstract map from sides and prices to levels;
--                   the proofs are in Invariant, Implements, Modifying, Deleting and
--                   Refinement.
--   Tests           modules of that name run the definitions and apply the theorems to concrete values.
--
-- How the state is modelled. A function that changes its arguments returns their new values: a decoder
-- the record Decoded (return code, buffer, presence map, field), an encoder the record Encoded. A u64,
-- an i64 and an unsigned long are numbers below 2 ^ 64, signed ones as their bit pattern, and all
-- arithmetic on them wraps, also where C leaves the overflow of a signed number undefined. Memory is a
-- function from offsets to bytes; a `char` is read modulo 256. An array such as `string_value` is a
-- function too, so a write behind its end, which in C is undefined, writes there. The levels of an order book
-- lie in a heap, a function from pointers to levels; the pointer that calloc returns, or none, is an
-- argument.
--
-- A pointer into a buffer is an offset into its memory. A message that is unparsed holds its strings as lists
-- of characters, none of which is NUL; one that is parsed holds the offsets that the parser stores. The
-- fields of a message are a list of `nr_fields` elements; the C array has FIX_MAX_FIELD_NUMBER, and a
-- parser that would write behind it gives `overrun`. sprintf,
-- strtod and modp_dtoa2 are parameters (the record Externals), and so is the function that gives tags their
-- types, for which fix_tag_type is one choice. io_sendmsg and io_recv are arguments of what calls them: the result for
-- the bytes that are handed over, and the bytes that are stored for a count that is asked for.
-- An entry of a market data message is the fields that fast_get_field finds under the four names that are asked
-- for; each has the members of its union as they would be read.
--
-- Loops. The loops of parse_uint, parse_int, parse_string and parse_pmap run over the rounds that the
-- code allows (9, 10, `size - 1` and FAST_PMAP_MAX_BYTES), buffer_find and buffer_sum over the size of the
-- window. fix_uatoi and fix_atoi64 run over the bytes of the allocation, uitoa_general over the four rounds
-- that ten digits need, rest_of_message and fix_message_parse over one round for each unread byte and one
-- more: a round that is followed by another takes a byte. A loop that is not over after its rounds gives
-- `unfinished` (the type Run of Fix/Message), which no result can be taken for, and Fix/Message/Returns
-- is about that.
--
-- Not modelled. The templates, the rest of the order book and the feeds of FAST, what allocates, copies and frees its
-- messages, its sessions on a file, the templates and dialect tables of FIX, the clocks and the set-up of its sessions, fix_session_logon and
-- fix_session_logout of tools/fix/fix_common.c, which wait by the clock (a logout is an argument of
-- fix_session_admin), the getters of a FIX message but fix_get_string, modp_litoa10_zpad,
-- the readers of the binary protocols, and the tools; the operations of buffer.c that call the
-- system (but buffer_recv), zlib or vsnprintf; a failing malloc in buffer_new. Null arguments, and what
-- becomes of freed memory, are left out too. `field->type` is a type parameter V of the field, and
-- FAST_FIELD_FLAGS_UNICODE and FAST_FIELD_FLAGS_DECIMAL_INDIVID are Boolean arguments.
pub mod Base
pub mod Buffer
pub mod Fast
pub mod OrderBook
pub mod Itoa
pub mod Fix
