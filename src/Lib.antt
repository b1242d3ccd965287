-- ===== src/Lib.antt =====
-- zproto's C codec: the message class that the generator writes from a protocol model, in the
-- form in which the repository holds it, src/zproto_example.c with include/zproto_example.h.
-- The object holds one message; zproto_example_send and _encode write it into frames by the PUT_*
-- macros, zproto_example_recv reads it back by the GET_* macros, and the getters, setters and
-- zproto_example_dup move its fields. zproto_example_zpl writes it into a tree of configuration items,
-- of which zproto_example_new_zpl makes an object again, and zproto_example_print logs it.
--
-- The files and what they model:
--   Base             names, tests on numbers, lists, lookup in a list of pairs.
--   Czmq             what the program calls of CZMQ and libzmq (zlist, zhash, zchunk, zuuid,
--                    zframe, zmsg, sockets): a record of operations with the behaviour that their
--                    documentation promises. It is an instance argument of all that follows.
--   CharArray        the `char [256]` fields, strlen, memcpy, strncpy, and how GET_STRING and the
--                    setters fill such a field. Laws has the lemmas.
--   Put, Put/Writes  the PUT_* macros over a frame split at self->needle, and what each appends.
--   Get, Get/Runs    the GET_* macros over the bytes from self->needle to self->ceiling, the early
--                    exit `goto malformed` with the value that `rc` has there, and what each reads
--                    back. Get/Cuts and Breaks: what they do on a part of it; Get/Safe: on any bytes;
--                    Get/Costs: what they take of them.
--   Example          struct _zproto_example_t, _new, the message ids. Example/View: the abstract
--                    message that an object stands for, and the ranges of the C types.
--   Encode           frame_size and the serializing switch of _encode. Encode/Image is the layout
--                    of each message as a specification, Encode/Exact compares the two.
--   Send, Send/Parts _send: the calls on the socket with their flags, against a message of parts.
--   Recv             _recv, statement by statement. Recv/Fields, Structures, Binary and RoundTrip
--                    read back each message, Arrived is the whole call; Safe and AnyFrames take any
--                    frames, Costs and Bounded tell what is kept of them; Cut and CutBinary take a
--                    frame that ends too early, Refused one of another protocol, and TooFew and Extra a
--                    message of fewer and of more frames than it should have.
--   Delivery         _send on one side and _recv on the other.
--   Access, Dup      the getters and setters, with the string setters together in
--                    Access/StringFields, and _dup.
--   Hex              the macros BYTES_FROM_STR and STR_FROM_BYTES of the configuration format, with
--                    sscanf "%x" and sprintf "%02x" on the two characters that they see; Hex/RoundTrip
--                    is one behind the other, Hex/Strings takes other strings.
--   Decimal          printf of "%ld" and "%zu", and strtoll; Decimal/RoundTrip is one behind the
--                    other.
--   Zconfig          what the configuration format uses of CZMQ besides Czmq: the tree of items of
--                    zconfig as one store, and text and frame forms of the containers, as a second
--                    record of operations with their documented behaviour. Zconfig/Puts: lists of
--                    puts.
--   Zpl              zproto_example_zpl, statement by statement: the message as a tree of items. Its
--                    children say what the tree then holds.
--   NewZpl           zproto_example_new_zpl, with every early return; its children read back each
--                    field, and each list of fields. NewZpl/AnyTree takes any tree.
--   ConfigFormat     _zpl and then _new_zpl: Log, Structures, Binary and Types.
--   Print            zproto_example_print: the lines of its output; Print/Tells compares outputs.
--   Network          two connected sockets: the queue of messages behind the receiving one, as a
--                    third record of operations with their documented behaviour, and the runs of
--                    _send and _recv on them as a relation. Network/Kept and Carried: one call of
--                    _recv; Fifo: any run; Extra: a message with more frames than it should have.
--   SelfTest         zproto_example_test: SelfTest/Exchange has what it does with each message,
--                    Steps the messages and the assertions, Rounds one message behind the other, and
--                    Passes the whole run. What it uses of CZMQ besides is a fourth record, Inspect.
--   Lifetime         the calls on an object from its creation on, as a relation of steps (the
--                    getters, _print and _zpl change no object and are no steps); Lifetime/Safe has
--                    what holds of every object that they lead to.
--   Destroy          zproto_example_destroy, as the list of what it frees. Destroy/Transfers: any get and
--                    set functions one behind the other, with an account of the containers; Owned:
--                    destroy at the end of them.
--   Tests            a concrete Czmq, Zconfig, Network and Inspect, messages, and the theorems
--                    at them.
--
-- How the code is read. A byte is a number below 256 and a block or C string a list of bytes; the
-- pointer self->needle is the place where a list is split. The number types are kept as numbers,
-- with `% 2 ^ w` where the code converts or stores fewer bits; an int is its 32-bit pattern. size_t
-- is 64 bits wide, and the sum of the sizes of blocks that are in memory at once is taken to be
-- below 2 ^ 64, so frame_size does not wrap; the counter nbr_frames is kept with its wrap. A pointer
-- that may be NULL is an Option. Undefined behaviour (a read or write past a block) is a value of
-- its own, `none` or `fault`, so that its absence is a theorem. The field `data` is called `text`.
-- The loops of _recv count down from the number that was read, the others walk a list; only the
-- digits of a number are printed with a bound, 20 steps, which is enough below 2 ^ 64.
--
-- Of the configuration format the branch for CZMQ 4 is modelled. A path of zconfig_put, _get and
-- _locate is taken to name a child only where it has no slash, so the laws tell nothing of others.
-- new_zpl assigns a pointer to the array `flags`, to which C gives no meaning and which a compiler has
-- to report: what that does is the parameter `assign_array`, any function of the four bytes and the
-- string. What memory that is not initialised holds (of zframe_new, of zmq_msg_init_size and of an array on the
-- stack) is a parameter, one for each of the three, of which only the size is known.
--
-- Not modelled: the heap, and so what set_data, _recv and the temporaries free, running out of memory,
-- the set-up of the sockets in the self test and its output, the Zyre peer example (glue over an
-- engine that is generated), and the code generators (the .gsl scripts) with the bindings for other
-- languages.
pub mod Base
pub mod Czmq
pub mod CharArray
pub mod Put
pub mod Get
pub mod Example
pub mod Encode
pub mod Send
pub mod Recv
pub mod Delivery
pub mod Access
pub mod Dup
pub mod Hex
pub mod Decimal
pub mod Zconfig
pub mod Zpl
pub mod NewZpl
pub mod ConfigFormat
pub mod Print
pub mod Lifetime
pub mod Network
pub mod SelfTest
pub mod Destroy
pub mod Tests
