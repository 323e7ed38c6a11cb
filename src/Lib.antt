-- ===== src/Lib.antt =====
-- ruminate: run-time reflection for C. A program links with the library, which asks a debugger process
-- over Ice for the types of the program's own data; util/ruminate-jansson writes such data as JSON and
-- reads it back.
--
-- The parts, and the files that model them:
--
--   Errors          src/errors.c, src/common.cpp, include/private/common.h: a call of the library has a
--                   value (ok), sets a GError (raised), fails an assertion (aborted) or goes through NULL
--                   (crashed); gxx_call makes one of a remote call's answer.
--   Glib, Jansson, Backend
--                   the libraries GLib and jansson and the debugger behind ice/type.ice and
--                   ice/type_member.ice, as records that every definition takes, with what their
--                   documentation says of the calls in use.
--   RString         src/string.cpp.
--   RType           src/type.cpp and the files of each kind of type: r_type_new and its parts. An RType is
--                   one record; what the subclasses add is its Extension. RType/Alloc has r_type_unref
--                   and what it frees, RType/Query every question put to a type and what is remembered of
--                   the answers: a question returns the object as it is left, with the answer.
--   Member          src/type_member.cpp, src/aggregate_member.cpp, src/enum_member.cpp, the same way.
--                   Member/Alloc has their references, Member/ByName the search for a name.
--   RMemory         src/memory.cpp: blocks with their type, size and references; with the question of
--                   src/ruminate.cpp for the type of a variable, which r_mem_malloc puts. Fresh, Count,
--                   Typed, Zeroed and Pending have its theorems.
--   Frame           src/frame.cpp: the frames of a call stack and their list. Asked has what a frame answers,
--                   Count the references of the list and its frames, Owed those that a frame hands out.
--   Port            read_child_port of src/ruminate.cpp, over the results of read(2).
--   Process         ruminate_init and ruminate_destroy of src/ruminate.cpp, over what the system, GLib and Ice
--                   answer during a call; the static pointer, the children, the pipes and the communicators
--                   are the state. Init has the steps against their outcome, Owns every order of calls, Close
--                   the end after the start, Ask the questions after it.
--   Lookup          ruminate_get_types_by_name, ruminate_get_function_name and ruminate_backtrace of
--                   src/ruminate.cpp.
--   Words           lemmas on the bytes of a number in memory.
--   World           the state that the C code of util/ruminate-jansson runs in: the memory of the process,
--                   for types, members, strings and JSON values how many references the running code has
--                   taken and not given back, and the blocks of RMemory. A run is done, with a value and
--                   the error set on the way, or ends in a failed assertion, in a use of NULL, or without
--                   fuel.
--   Json            util/ruminate-jansson: json_state.c and the types of its headers, and below it
--     Serialize     serialize.c, a definition for each function and each loop. `serialize_value` is
--                   _json_serialize, json_serialize is json_serialize.
--     Shape, Fits   what a value in memory is, apart from the code: a tree of its parts; its JSON (encode),
--                   what it costs in references, and when the debugger and the memory agree with it.
--     Encoding      the serializer against encode, a file for each kind of type; Faulty, Rounds and
--                   Faults structs for which the debugger fails.
--     State         the references of a JsonState.
--     History       a JsonState after any sequence of calls: the hooks and the flags that are found.
--     Deserialize   deserialize.c, the same way: `deserialize_value` is _json_deserialize. Scalar and
--                   RoundTrip have integers read and written again; Fields, Members, Stored and StructTrip
--                   structs of them, Items and ArrayTrip arrays, Invert values that say their own type;
--                   Null pointers that are NULL, Overrun the bytes that an enum is read to, Refused the
--                   kinds that are not read.
--   Tests           a GLib, a jansson, a debugger and a process to run the definitions on, a shape for
--                   them, and the theorems at concrete inputs.
--
-- Numbers: integers in memory are little-endian, of 1, 2, 4 and 8 bytes, read with their sign; addresses
-- are below 2 ^ 64 and `advance` wraps; reference counts are the 32 bits of a gint, and the laws of the
-- atomic operations are used below 2 ^ 31 only. Sizes of blocks are a size_t, and r_memory_new has its
-- sum wrap around. A text has a character for each byte of the C string or the std::string.
--
-- Fuel: the loops of the source run over the members of a type and are recursions on that number.
-- _json_serialize and _json_deserialize call themselves on the parts of a value; their fuel is the depth
-- of the calls, and for the first the height of a value's shape is enough. A cyclic structure has no
-- shape, and the source does not return on one. read_child_port has a round for each read(2), and
-- ruminate_init follows it for the rounds that its Services say.
--
-- Not modelled: the debugger itself (python/), and the system call of src/gettid.c. The data pointer of a
-- hook is its own to capture; a hook is any function of the continuation, the type and the address.
pub mod Base
pub mod Errors
pub mod Glib
pub mod Backend
pub mod RString
pub mod RType
pub mod Member
pub mod World
pub mod Words
pub mod RMemory
pub mod Lookup
pub mod Frame
pub mod Port
pub mod Process
pub mod Jansson
pub mod Json
mod Tests
