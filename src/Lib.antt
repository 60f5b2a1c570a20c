-- ===== src/Lib.antt =====
-- Verification of BreUtils, a header-only C++ utility library. Paths below are from the
-- repository's root.
--
-- Most components stand on their own, and share Prelude alone; Net/Session, Net/Sender and
-- Net/Receiver use Net/Header, the receiver reads what the sender has written, a session has a
-- BlockQueue, the server has sessions, RedisMgr works on
-- RedisPool, and Flag uses the white space of Json/Cursor.
--
-- Prelude: Boolean tests, lists over the native numbers, byte strings, results of code that may
--   throw, association lists, decimal texts of integers, bit operations.
-- Buffer: breUtils/Buffer.hpp. The vector and its two offsets as a record; an operation returns the
--   buffer it leaves, or the exception. Offsets are `size_t` and wrap round at 2 ^ 64. Buffer/Inv has
--   the invariant, Buffer/Read, Buffer/Until and Buffer/Refine say what each operation does to the
--   unread bytes, and Buffer/Run puts them together against a queue of bytes.
-- Uuid: breUtils/uuid/uuid.hpp. `SnowWorker` as a record, `Next` as a function of the time that the
--   clock shows, and the singleton `IdGenerator`.
-- Encoding/Hex: breUtils/encoding/HexCov.hpp, with `std::stoi` and the extraction from a stream as
--   the C++ standard has them. A number is written with at most eight digits, which is enough for
--   32 bits.
-- Encoding/Base64: breUtils/encoding/base64.hpp. Writes past the end of a string
--   that C++ leaves undefined are counted; a zero at the place `size()` is none.
-- PrefixTree: breUtils/prefixTree.hpp. A run that C++ leaves undefined is `none`.
-- BlockQueue: breUtils/BlockQueue.hpp. Threads take turns under the lock; an interleaving is the list
--   of turns, and a turn says whether the call waits or returns. `Close` throws away what is queued.
-- Ini: breUtils/configLoad/iniConfigLoad.hpp. A file is its text; a line is read into what it says, and
--   then applied. Ini/RoundTrip writes a configuration as a file.
-- Net/Header: breUtils/net/TCPHeader.hpp. Net/Session: the framing of messages in
--   breUtils/net/TCPSession.hpp, over the bytes that the socket delivers. A message takes 32 bytes or
--   more of them, so the number of bytes is fuel enough.
--   Net/Session/Writer has the session with its queue, over BlockQueue, and the header that its two
--   threads share with no lock: the statements of `GetHeaderData` and the assignments of `Parse` are
--   turns of their own. Net/Session/Log has what was written, as a log.
-- Net/Server: breUtils/net/TCPServer.hpp, TCP.hpp, NetLogic.hpp and AsioIOContextPool.hpp: the table of
--   sessions, what the logic is told and sends, and the choice of an io_context. The counter of the
--   session ids wraps at 2 ^ 64.
-- Net/Sender: `TCPSender` in breUtils/net/TCPManager.hpp. The sending thread stands at one of its writes
--   or waits, and an interleaving is the list of turns. Net/Sender/Frames says what is written and what
--   is still owed, Net/Sender/Drain what `Close` waits for.
-- Net/Receiver: `TCPReceiver` in the same file, over the connections that are accepted one after
--   another; the number of rounds is that after which the thread sees `Close`.
-- Net/Hosts: `HostInfo`, the own address and the table of hosts in breUtils/net/Finder.hpp, over the
--   rounds of the sending and the receiving thread. They share both members with no lock; a round reads
--   or writes the own address whole.
-- SqlPool: breUtils/database/MysqlPool.hpp. Callers and the check take turns under the lock; an event
--   says what the driver answers.
-- RedisPool: breUtils/database/RedisPool.hpp, in the same way.
-- RedisMgr: breUtils/database/RedisMgr.hpp, over RedisPool. A command takes a context, asks hiredis,
--   which is a parameter, reads the reply and frees it; other threads take turns while it waits for the
--   answer. RedisMgr/Contract has the scheme that all commands follow, RedisMgr/Verdicts what each makes
--   of a reply, RedisMgr/Sessions programs of calls
--   and what they lose and lend of each context.
-- Timer: breUtils/Timer.hpp, over a clock that is part of the state. Timer/Spacing and Timer/Cancel are
--   about `Timer`; Timer/Tasks is `MultiTaskTimer`.
-- Json/Value, Json/Access, Json/Iterator: breUtils/Json/json_value.hpp. A value is one constructor of a
--   data type; an `unordered_map` is a list of entries. Json/Members has the two members of the class,
--   the type and the variant, and what each call does to them. Json/Equality: `operator==` in
--   breUtils/Json/json_tool.hpp.
-- Json/Generator: breUtils/Json/json_generator.hpp. Json/Cursor, Json/Numbers, Json/Strings, Json/Parser
--   and Json/Clean: breUtils/Json/json_parse.hpp. The input behind the position is the state; a parser
--   returns a value and what is left, or the exception. The recursive descent has fuel, twice the
--   length of the input and one more: a value and a round of a loop cost one each, and between two
--   values a character is consumed. What the library makes of floating-point numbers is a parameter
--   (Json/Doubles).
-- Flag: breUtils/flag/flag.hpp. Flag/State has the flags and the memory of the variables that they
--   point to, Flag/Numbers the standard library's readings of integers, Flag/Parse the command line;
--   an end of the program is an error with its reason. Flag/Written has the texts that stand for a value.
-- Expression: breUtils/NifixExpression.hpp. The text that is written and the stack are the state of the
--   translation; Expression/Postfix has expressions as trees, with their values and postfix texts, and
--   Expression/Brackets and Expression/Infix the texts with brackets.
--
-- Not modelled: breUtils/signal is a copy of another library; breUtils/crypto calls OpenSSL and
-- has no logic of its own; breUtils/Math/big and breUtils/BinaryTree.hpp are mostly empty bodies;
-- logs, file access and sockets are input and output; the other
-- files of breUtils/net are left out.
--
-- What the C++ standard leaves undefined is an error value where a model can reach it; memory that
-- cannot be had is not modelled, except that a vector has at most 2 ^ 63 - 1 bytes.
pub mod Prelude
pub mod Buffer
pub mod Uuid
pub mod Encoding
pub mod PrefixTree
pub mod BlockQueue
pub mod Ini
pub mod Net
pub mod SqlPool
pub mod RedisMgr
pub mod RedisPool
pub mod Json
pub mod Flag
pub mod Expression
pub mod Timer
