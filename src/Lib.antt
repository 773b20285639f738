-- ===== src/Lib.antt =====
-- The VoltDB C++ client: its buffers and messages, the rows of a result, the routing of an invocation
-- to a partition, and the requests that wait for an answer.
--
-- An application declares a stored procedure (include/Procedure.hpp) with the types of its parameters
-- (include/ParameterSet.hpp, include/Parameter.hpp), adds a value for each, and hands it to the client.
-- The parameters are written to a buffer of their own as they are added, each behind its type
-- (include/WireType.h), all behind their count. The client asks the procedure for its size, makes a
-- buffer of that size and has the procedure write the message to it. Before that the client logs in
-- with a message of its own (include/AuthenticationRequest.hpp) and reads the answer
-- (include/AuthenticationResponse.hpp). All of them stand on one class, the byte buffer
-- (include/ByteBuffer.hpp), which checks every access against a limit and grows on demand.
--
-- Prelude: the native numbers, lists with lengths in them, and integers over them.
-- Action: a method that changes an object and may throw. The state comes back beside an error too,
-- since what a method wrote before it threw stays written.
-- Wire: the byte order. A word is a number below 256 ^ n; an int16_t, int32_t or int64_t is an integer,
-- written by its two's complement, and each static_cast is a `cast` to a number of bytes.
-- Buffer: ByteBuffer and its subclasses. `expandable` tells ExpandableByteBuffer from the base class.
-- Its children have the invariant of all the methods, the checks of an access, what a write appends and a read takes, the range
-- of what is read, how a buffer grows and how the length prefix of a message is set.
-- WireType, Decimal: the type codes and the decimal on the wire.
-- Params, Procedure: ParameterSet and Procedure. Params/Values has the wire form of each value,
-- apart from the code, that the theorems compare the written bytes with.
-- Auth: the login request and the answer.
-- Hashinator: the ring of include/ElasticHashinator.h. Hashinator/Floor walks along the ring, apart from
-- the code, and Hashinator/Search compares the binary search with the walk.
-- Row, Table: include/Row.hpp, src/Table.cpp and include/TableIterator.h. Row/Cells has the values of a
-- row and their bytes, apart from the code, Row/ByName the getters by name, Table/Rows the iteration and Table/Parse a table's bytes.
-- RowBuilder: include/RowBuilder.h, which writes those bytes.
-- Response: include/InvocationResponse.hpp. Response/Parse has an answer of the server and its bytes, apart
-- from the code; Response/Optional and Response/Results are about its optional fields and its tables.
-- Distributer: src/Distributer.cpp; Distributer/Update has what it takes from the server's tables,
-- Distributer/Topology what it knows behind an update, and Distributer/Hosts and Distributer/Places the
-- hosts of the partitions.
-- Client: src/ClientImpl.cpp. Client has the state of the client, a response and the callbacks,
-- Client/Read the cutting of the input into responses, Client/Invoke the asynchronous invoke, Client/Run
-- the synchronous one and the event loop, Client/Affinity the client's own requests, Client/Connections the
-- connections won and lost, and Client/Authentication the logins. Client/Linked has the agreement of the
-- places where a connection stands, Client/Handling a response and its callback, Client/Book what the callbacks stand for, Client/Routed the connection
-- that affinity chooses, and Client/Read's children
-- the stream of responses, however it is cut, and the answers in it.
-- Pool: src/ConnectionPool.cpp, clients lent to threads. Pool/Holders counts who holds a client,
-- and Pool/Cleanup has what a thread leaves behind.
-- Tests: the code run on small inputs.
--
-- A response runs the callback that waits for it, which may call the client again, so the callbacks
-- are actions on the client's state, given by the user of the model (Client.Handlers). What libevent does
-- is given likewise (Client.Invoke.Network, Client.Authentication.Connector). A connection is a number.
--
-- Fuel: the doubling loop of ensureCapacity has 32 steps of it, enough for any capacity from 1 to
-- 2 ^ 30, and is undefined where the product would overflow the int32_t. The binary search has one step
-- more than there are tokens, and a loop over rows one more than there are rows. The loop that
-- chooses a connection turns as often as the event loop returns; its fuel is an argument.
--
-- An exception outside a method's exception specification is modelled as thrown, though C++ calls
-- std::unexpected for it. The offsets into the description of a ring wrap as uint32_t, the size_t index of
-- the next connection does not. Doubles are their 64-bit patterns. The bytes of a string are a list. A buffer owns its storage: a
-- slice, which shares it in the code, is modelled as a copy.
--
-- Not modelled: the printing of rows and tables, the text form of a decimal (the big integers are a third
-- party's), the log, the locks, the hash of the password, and interrupt and wakeup,
-- which only call libevent. The hash of src/MurmurHash3.cpp, a copy of another library, and the JSON reader
-- of Boost are parameters.
pub mod Prelude
pub mod Action
pub mod Wire
pub mod Buffer
pub mod WireType
pub mod Decimal
pub mod Params
pub mod Procedure
pub mod Auth
pub mod Hashinator
pub mod Row
pub mod RowBuilder
pub mod Table
pub mod Distributer
pub mod Response
pub mod Client
pub mod Pool
pub mod Tests
