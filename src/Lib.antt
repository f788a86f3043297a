-- ===== src/Lib.antt =====
-- fossil-network: a portable C library for sockets and for HTTP requests over them.
--
-- The parts of the program, and the modules that model them:
-- - code/logic/fossil/network/request.h, code/logic/request.c: requests and responses as structs of
--   char arrays. Request models the structs and the calls that fill and read them; Request.Fields
--   is their specification as a list of fields and Request.Table the refinement. Url models
--   fossil__url_parse, with Url.Spec as its specification on strings. Http.Build models the
--   serializer fossil__http_build_request, with Http.Build.Spec as the text that it is to print,
--   Http.Parse the parser fossil__http_parse_response, and Http.Send fossil_net_request_send, which
--   joins both over a socket.
-- - code/logic/fossil/network/socket.h, code/logic/socket.c: Socket models the struct and the calls
--   that create, close, bind, connect and use a socket, Address the addresses and their texts, Poll
--   the poll sets and fossil_net_socket_poll, and Mac the MAC addresses.
-- - Windows models the branches of code/logic/socket.c behind _WIN32 that do something of their
--   own, over Winsock, and Windows.Mode the mode of a socket there.
-- - code/logic/client.c and code/logic/server.c: Client and Server, each of which owns a socket;
--   Server.Meet joins the two.
-- - The C++ classes at the end of the four header files: Cpp.Owner models what the classes Client
--   and Server share, an object that holds one pointer to a C struct and may be moved, over a store
--   of blocks and over the C calls of the class; Cpp.Client and Cpp.Server give those calls, and
--   their Accounts what the calls open and close. Cpp.Socket and Cpp.Request model the classes
--   whose objects hold the C struct itself, and Cpp.Socket.Program the programs on sockets, copies
--   included.
-- - Os is the operating system: a record of the calls that the code makes, over a state that every
--   call passes on, with the flags, families and byte orders of Linux. Os.Demo is one such system,
--   and Os.Ledger puts a ledger of the descriptors that are opened and closed on any of them.
-- - Cstr holds char arrays, C strings and the functions of the C library that the code calls
--   (string.h, %u and %s of printf, atoi, the conversions of sscanf), and fossil__safe_copy.
-- - Base holds lists over the native numbers, Boolean tests and C's int.
--
-- How state and calls correspond: a struct is a record, a char array the list of all its bytes, and
-- a pointer that may be NULL an option. A call that writes through a pointer returns the new value
-- with its result. A pointer into an array is an offset or the rest of the array from there. A
-- std::string is the list of its bytes, of which c_str() shows those before the first NUL. The
-- objects of a class that are alive are a list of their pointers, or a value for a class that holds
-- its struct. A wrap-around of uint16_t and uint32_t is written out. malloc is an argument that
-- says for which sizes it gives a block. Reading or writing outside an array, and passing NULL to
-- strstr, is the result `fault`.
--
-- Fuel: the header loop of the parser runs on fuel, one more than the length of the text, of which
-- each round takes off at least two bytes; Http.Parse.Total shows that it is enough.
--
-- Documented behaviour of calls that are not in the repository stands in named laws: FlagLaws for
-- fcntl and accept, ModeLaws for Winsock's modes, NtopLaws for inet_ntop, HostLaws for
-- gethostbyname, and Reads for what inet_pton makes of a text.
--
-- Not modelled: FormatMessageA behind error_string on Windows, and native_handle of the C++
-- classes, which gives the pointer away. The bytes behind the NUL that a local array holds before
-- its first use are an argument where a copy could leave them visible; output to a buffer of a
-- failed serialization is kept but nobody reads it.
mod Base
pub mod Cstr
pub mod Request
pub mod Url
pub mod Http
pub mod Poll
pub mod Mac
pub mod Os
pub mod Address
pub mod Socket
pub mod Client
pub mod Server
pub mod Cpp
pub mod Windows
