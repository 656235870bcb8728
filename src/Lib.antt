-- ===== src/Lib.antt =====
-- nativepg, a PostgreSQL client library in C++, in its sans-io core. The library talks to a server
-- over one connection; what it does is decided by state machines that take messages, codes and
-- byte counts and answer with the next action, and the coroutines around them do the input and
-- output. The modules follow the parts:
--
-- Protocol: the error codes (include/nativepg/client_errc.hpp), the tags of the server's messages
-- (include/nativepg/protocol/any_backend_message.hpp), the message types of a request
-- (include/nativepg/request.hpp) and the messages of a response handler
-- (include/nativepg/responses/response_handler.hpp). A std::error_code is an Option: none is
-- success. A parsed message is its tag and the bytes of its body.
--
-- CheckRequest: check_request and setup_request (src/nativepg_internal/check_request.hpp), and
-- get_expected_rfqs of the multiplexer. Nothing is sent that check_request refuses.
--
-- ReadResponse: read_response_fsm (src/read_response_fsm.cpp and
-- include/nativepg/protocol/read_response_fsm.hpp), one function for each handler and, in
-- handle_execute and handle_query, one for each case of the switch over the state. The calls to
-- the response handler are kept in the state, in their order. A read of the messages behind their
-- end has a result of its own, out_of_range, which the theorems exclude.
--
-- Multiplexer: read_response_stream_fsm and multiplexer
-- (src/nativepg_internal/multiplexed_connection/multiplexer.hpp), which run many requests over one
-- connection with a ReadResponse machine for the request at the front. The queue is a list, an
-- element's address is a handle that add hands out, and handlers and callbacks are names; what the
-- callbacks are called with is kept, and the handler of the machine is that of the request it
-- reads. A null pointer or an iterator outside the queue is none. Multiplexer.Accounts lists whom
-- the server owes answers, independently of how on_message counts them.
--
-- ReadBuffer: read_buffer (include/nativepg/protocol/detail/read_buffer.hpp) over its block of
-- memory. What operator new hands out is an argument. Sizes wrap at 2 ^ 64, and bit_ceil has 64
-- doublings, which reach every power of two that a std::size_t holds. A buffer always has its
-- block: one that was moved from is not modelled, so that the test of prepare for a null block is
-- left out.
--
-- Pool: the connection pool (src/nativepg_internal/connection_pool). Pool.Node is the machine of
-- one connection (sansio_connection_node.hpp), Pool the rest (connection_node.hpp,
-- connection_pool_impl.hpp and check_pool_params.hpp). A coroutine is cut at its waits, and
-- Pool.Lifetime lets the pieces run in every order, with the number of the calls of get_connection
-- that wait. num_running_connections, which only says when run may return, is left out.
--
-- NotificationQueue: src/nativepg_internal/notification_queue.hpp, the events of a multiplexed
-- connection, cut at its waits likewise.
--
-- Base64: src/nativepg_internal/base64.cpp, which the SCRAM messages use. Whether char is signed
-- is an argument.
--
-- Wire: serialization_context (include/nativepg/protocol/detail/serialization_context.hpp), the
-- serialize functions of src/messages.cpp, bind with its parameters in Wire.Bind, and parse_header
-- and message_missing_bytes, which find the end of a message of the server. The functions of
-- boost::endian are an argument with the laws that they document; Wire.Integers has functions for
-- which the laws hold.
--
-- CharConv: std::from_chars into an unsigned integer, which Scram and Parse call.
--
-- Parse: parse_context (src/parse_context.hpp), a reader of bytes that keeps its first error; the
-- parse functions of src/messages.cpp in Parse.Bodies and Parse.Fields, parse_any_message and
-- parse_message in Parse.Dispatch, and the views with their unchecked readers
-- (include/nativepg/protocol/views.hpp) in Parse.Views. Parse.CommandTag has
-- parse_command_complete_tag, and the numbers that std::errc stands for there are those of POSIX.
-- A pointer into a message is the bytes from there on; a read behind them is none. The loops
-- without a count take as many rounds as there are bytes, and one more, which are enough since
-- each takes a byte.
--
-- Exec: exec_fsm (src/exec_fsm.cpp), over ReadBuffer, Parse and ReadResponse. Exec.Stream is what it
-- stands for, one stream of bytes without a buffer. The fuel of its loop is the number of committed
-- bytes and one; each message takes five bytes at least.
--
-- Request: the request builder (include/nativepg/request.hpp and src/request.cpp) over the
-- serialize functions of Wire. An exception is a code, with the request that it leaves. What a
-- parameter does to the buffer is a function of its own. Request.Payload has the messages of the
-- protocol that each call stands for.
--
-- Startup: startup_fsm_impl (src/startup_fsm.cpp, include/nativepg/protocol/startup_fsm.hpp),
-- which authenticates a connection, with parse_sqlstate (include/nativepg/sqlstate.hpp). The
-- functions of the SCRAM machine are an argument over a state of their own, which Scram.Fsm fills;
-- what Connect asks of it about its memory is filled in Scram.InMemory.
--
-- Scram: scram_sha256_fsm (src/scram_sha256_fsm.cpp) in Scram.Fsm, its messages
-- (src/nativepg_internal/scram_sha256_messages.hpp) in Scram.Messages and the functions of RFC 5802
-- (src/nativepg_internal/scram_sha256_crypt.hpp) in Scram.Crypt. The calls of OpenSSL are an
-- argument over a state that stands for its objects, with the laws that they document. The span
-- that the machine keeps of its first message is two offsets into the write buffer that it shares
-- with its caller, read in the buffer as it is then.
--
-- Connect: startup_fsm (src/startup_fsm.cpp), which hands startup_fsm_impl the messages of the read
-- buffer in the way of Exec, with the same fuel, and connect_fsm (src/connect_fsm.cpp) around it.
--
-- Prelude: Boolean tests, lists over the native numbers, text as character codes, and the lemmas
-- that the parts share.
--
-- Not modelled: sockets, timers, TLS and the coroutines' scheduling; OpenSSL's cryptography; the
-- driver exec_some_fsm, which composes parts above; the types of fields, the response handlers and
-- diagnostics; and the accessors of any_backend_message, for which a match stands. An event of the
-- coroutine library is the flag that it documents. Handlers and callbacks are arguments or names,
-- so that nothing depends on what they do. remaining_rfq and the counters of the pool are
-- std::size_t, and their increments and decrements wrap at 2 ^ 64.
pub mod Prelude
pub mod Protocol
pub mod CharConv
pub mod Base64
pub mod CheckRequest
pub mod ReadResponse
pub mod Multiplexer
pub mod ReadBuffer
pub mod Wire
pub mod Parse
pub mod Request
pub mod Exec
pub mod Startup
pub mod Scram
pub mod Connect
pub mod Pool
pub mod NotificationQueue
