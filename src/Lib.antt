-- ===== src/Lib.antt =====
-- Bavardage, a chat server with rooms, the server of its secure rooms, and the libraries of their
-- clients: the state that the servers keep, the requests that change it, the threads that serve them,
-- the command lines of the clients, and the keys and texts of the secure rooms.
--
-- Paths are from the root of the repository. The parts, from the ground up:
--   Prelude  Booleans, lists and integers that the parts share.
--   CString  C strings and `strcpy`. Run: what a run of C gives, a value or a fault, where a fault is
--            an access that C leaves undefined (an array overrun, an index out of bounds, a freed or
--            a NULL pointer). `Ensures` is about the value of a run, if it has one, `Ends` says that
--            it has one.
--   Wire     src/common/common.h: `message` and its codes, with those of src/common/commonsec.h.
--   Hash     `hash_user` and `hash_room_name` of src/common, `is_login_valid` of src/server/server.c.
--   Users    src/common/user_manager.c: the hash table of users. A `user` is an address in a heap of
--            structures, a bucket a list of nodes, and a freed node is marked and stays where a
--            pointer still leads to it.
--   Rooms    src/common/room_manager.c and room_manager_sec.c: the hash table of rooms, with a table
--            of users in each room.
--   Server   src/server/server.c. State has the globals, RoomOps `join_room`, `quit_room` and
--            `delete_room`, Requests and Leaving the cases of the `switch` of `handle_connexion`,
--            Connection one round of its loop, and System the threads, whose rounds come in any
--            order. The other files hold the proofs and are named for what they prove.
--   Client   src/client/libclient.c: command lines and the messages that they write.
--   Bytes    arrays of bytes, `memcpy` into them and `strtok`.
--   Stdin    how both terminal clients read a line: `fgets` with the size of its array, over the input
--            that is left, and the write that drops the last character.
--   KeyMessage  keys in the `content` of a message, as src/serversec/secure_server.c puts them there
--            and src/client/libclientsec.c takes them out.
--   Accounts src/common_server/mysqlite.c over a parameter for SQLite.
--   SecureServer  src/serversec/secure_server.c: RoomOps `join_room`, `quit_room` and `delete_room`,
--            Requests, Invitations and Access the cases of the `switch` of `handle_connexion`, Rounds
--            one round of its loop, System the threads.
--   SecureClient  src/client/libclientsec.c: Cipher `aes_encrypt`, `aes_decrypt` and `decrypt` over a
--            parameter for OpenSSL, State, RoomCommands, Texts and Commands `send_message_sec`
--            and what it calls, Receiving `receive_message_sec`.
--   SecureTerminal  src/client/clientsec-cli.c: a round of each of its three threads.
--   Sockets  src/common/SocketTCP.c over a parameter for the system calls.
--   Terminal src/client/client-cli.c: a round of each of its two threads, with what it prints.
--   Certificates  the checks of a certificate in src/common/commonsec.c, and `password_cb` of
--            src/client/libclientsec.c.
--   Tests    runs on small inputs.
--
-- How they meet: the server calls the tables, rooms call the table of users, both call the hash, and
-- all of them share one heap of users. A function of the source takes the state that it reads as an
-- argument and gives the new state with its result; `writeSocketTCP` adds to a list of messages with
-- the socket that each goes to. The secure server uses the same tables and the accounts; the secure
-- client sends some of its commands through the library of the chat client.
--
-- What C leaves open is an argument: the address that `malloc` returns, whether a freed node keeps its
-- `next`, the bytes of an array that was never written, and whether an array on the stack can be read
-- when its function has returned. `malloc` is taken to succeed. Loops are recursion on the list that
-- they walk; only those over `sqlite3_step` take fuel, which is enough if it is more than the number
-- of rows, and a run without enough ends in the fault `unfinished`. Characters are bytes and `char` is
-- signed; `int` is unbounded in the hash, whose sums fit in 32 bits. An array in a `message` is the
-- string before its first zero byte, and a received one is taken to have such a byte.
--
-- A thread is taken to start with no user, and a round to be one step, which the mutex gives the
-- cases of the `switch` of the chat server; the end of a broken connection takes no lock in the source,
-- and the secure server takes none at all. Statements about rounds leave out those with a fault.
--
-- SQLite and OpenSSL are records of the functions that the code calls. Theorems take as hypotheses
-- that a statement gives some rows and then ends, and that CBC decrypts whole blocks
-- (`SecureClient.Packet.IsCrypto`).
--
-- The system calls and the resolver are a record of functions too, of which
-- `Sockets.Descriptors.IsUnix` says what they do to the open descriptors.
--
-- Not modelled: TLS and threads themselves (`setup_server_ctx`, `setup_client_ctx`, `new_thread` and
-- `main`, the mutexes of OpenSSL in src/common/commonsec.c), which are calls of libraries; the set-up of
-- the terminal clients; the test program src/client/clientsectest.c; the old client
-- src/client/client.c, which no build file names and which includes a header that the repository does
-- not have; and the graphical client.
pub mod Prelude
pub mod CString
pub mod Run
pub mod Bytes
pub mod Stdin
pub mod Wire
pub mod Hash
pub mod Users
pub mod Rooms
pub mod Server
pub mod Client
pub mod KeyMessage
pub mod Accounts
pub mod SecureServer
pub mod SecureClient
pub mod SecureTerminal
pub mod Sockets
pub mod Terminal
pub mod Certificates
pub mod Tests
