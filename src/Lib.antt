-- ===== src/Lib.antt =====
-- socket_to_rdma runs a program's socket calls on a SmartNIC. The host's library (host/) takes the
-- place of the socket functions, lays each call's arguments into a request, writes the request into
-- the card's memory over RDMA with the descriptor as the immediate value, and polls its completion
-- queue for the return message. The card (snic/) makes the system call on its own kernel and writes
-- the return message into the host's memory.
--
-- The parts, the files that model them, and what stands for what:
--   Base       shared names; Base/Tests: Boolean tests and C's integers as bit patterns; Base/Lists:
--              lists over the native numbers; Base/Buffer: memory as a map from offsets to bytes, with
--              `store` and `load` for a `memcpy` of an integer (little-endian) and `write` and `read`
--              for one of bytes.
--   Hash       host/hash_delee.c and snic/hash_delee.c. Hash/Murmur: MurmurHash3 and hashFunction.
--              Hash/Table: createHashTable, insertByValue, searchByKey, searchByValue, deleteByKey,
--              deleteByValue, freeHashTable. Hash/Socket and Hash/Fd: the same with the prefixes
--              socket_ and fd_. A bucket's linked list is a list; an allocation's success is an
--              argument. Hash/Table/Entries, Invariant, Search and Values and Hash/Copies hold proofs.
--              Hash/Locked: the operations of snic/hash_delee.c with their lock, on the card's rdma_ht
--              and sock_ht. Hash/Locked/System: any number of threads that call them, as steps, over
--              a record of what pthread_rwlock promises; Hash/Locked/Late: the same
--              with a search's read behind its unlock as a step. Order, Unlocks, Stuck, Late/Kept and
--              Late/Reads hold proofs.
--   Message    host/rdma_common.h: enum RDMA_REQ_MSG, struct req_msg, struct rtn_msg.
--   Wire       the layouts of host/rdma_common.c and snic/rdma_common.c: Wire/Epoll, Wire/Select,
--              Wire/Poll, Wire/Fcntl, Wire/Sockopt have a serialize_ and a deserialize_ function
--              each by the source's name; the folders beside them hold the round trips. Wire/Card: the
--              card's text of the same functions, against the host's (Agrees, Differs), and the host's
--              readers that differ. Wire/Structs: the layouts that no call uses.
--   Rdma       what either side's set-up calls of the connection manager and the verbs library, as a
--              record, with process_rdma_cm_event and process_work_completion_events of
--              rdma_common.c. Rdma/Making: what a sequence of fallible calls makes; Rdma/Held: what
--              is held after a sequence of makings and destructions; Rdma/Ending: which sequences end.
--              Rdma/Card: the card's text of the two waits. Rdma/Buffers: rdma_buffer_alloc to
--              rdma_buffer_deregister. Rdma/Address: get_addr of either side, set_sockaddr and
--              set_server_r_info.
--   Card       Card/Env: the kernel and the posting of a work request, as a record. Card/Socket:
--              snic/socket.c, a function for each. Card/Server: post_write_rtn,
--              write_msg_to_client and rdma_req_event of snic/rdma_server.c. Card/Loop:
--              process_poll_cq_imm of the same file, its two loops as turns of one machine, over a
--              record of the verbs library. Card/Setup: start_thread, connect_client_r_info with
--              its parts, and disconnect_and_cleanup of snic/rdma_server.c, over the record of Rdma.
--              Card/Setup/Global: process_rdma_cm_event_with_global with the set-up that it calls.
--              Card/Threads: start_thread and the threads of all connections, with the set-up of a
--              connection where a request asks for it, up to where a thread waits for the end of its
--              own for ever.
--              Card/Setup/Apart: the functions that make a connection's resources one by one.
--              Card/Server/Replies, Errors and Work, Card/Loop/Order and Errors,
--              Card/Setup/Accept, Parts, Resources and Ends and Card/Setup/Global/Fails hold
--              proofs.
--   Host       Host/Verbs: what the host calls of the verbs library, as a record. Host/Client:
--              post_write_req, process_rdma_get_cq_event, process_poll_cq_imm and set_req_sock of
--              host/rdma_client.c. Host/Hook: req_sock to req_accept of host/hook.c; a function
--              whose name a request has already has the suffix _fd. Host/Calls: req_select to
--              req_getsockname, which lay more than a port into the request and fill objects of the
--              caller's. Host/Client/Polling, Exchange and Requests, Host/Hook/Registered and Data
--              and the folder Host/Calls hold proofs. Host/Setup: connect_server with its parts and
--              the disconnects of host/rdma_client.c, over the record of Rdma. Host/Threads:
--              get_r_info, req_pthread_exit and my_main of host/hook.c, over both records.
--              Host/Exported: the names that host/hook.c exports, INIT_ORIGINAL_FUNC and
--              is_called_from_rdma_client. Their children hold proofs. Host/Client/Link is the
--              interface between the host's device and the card; Host/Loopback fills it, for any kernel,
--              with a link that delivers at once, and with one whose card's device reads late.
--
-- A call's way, and the theorems along it: Host/Calls lays out the arguments (the round trips of
-- Wire), Host/Client posts the request and polls (Polling), the card takes it off its queue
-- (Card/Loop) and serves it with one function of Card/Socket and one reply (Work), and the host
-- takes the reply (Requests). Host/Hook/Data and Host/Calls join these from the caller to the
-- card's kernel and back.
--
-- Numbers are natural numbers; an `int` is its 32-bit pattern and an `int64_t` its 64-bit pattern,
-- with the wrap-around written out. The state of the kernel and of the device is passed on
-- explicitly.
--
-- The order of a reply: ibv_post_send returns before the card's device has read the message, and the
-- card zeroes errno_ and clears data without waiting for the post's completion. Link promises only
-- that each field and each byte of what arrives is the one at the post or the one that the card has
-- stored since (IsReadOf of Host/Client/Link). ReadsAtPost, that the device comes first, is a
-- hypothesis of the theorems that follow an errno or data to the host; nothing in the source sees to
-- it. set_req_sock-Plain_late does without it.
--
-- Sizes: the card's array of events has 100 places, the data of a message 600000 bytes, and the
-- offset in an array of pollfd is an int. The definitions stand for the code within these, and the
-- theorems say so; beyond them the source writes past its arrays.
--
-- Destroys: what is kept of the end of a connection is which destroys are called, and in which order.
-- A destroy that fails is printed and the source goes on; that its resource then stays is not kept.
-- An event that is acknowledged a second time, behind a wait that failed, is a fault, and the result
-- is none.
--
-- Fuel: write_msg_to_client takes one round more than the bytes to send, and each round sends at
-- least one. The host's process_poll_cq_imm polls without end in the source; it takes as much fuel
-- as is given, and two more than the number of other completions and empty polls is enough. The
-- card's loop takes one for each turn, and hands the thread back as it then stands. connect_server
-- polls for its two completions as long as its fuel lasts, and two rounds are enough where each
-- brings one. The card's connect_client_r_info polls for one completion, so one round is enough
-- where each brings one, and process_rdma_cm_event_with_global takes one for each event. The retries
-- of a post are four and the completions drained in each 32, as in the source.
--
-- Not modelled: global_disconnect_and_cleanup and server_disconnect_and_cleanup (the first waits for
-- a status that nothing stores, and passes rdma_destroy_qp a queue pair for an identifier) and the
-- deleteByKey behind it; the contents of the requests and keys that the set-ups fill in, the
-- functions that only set a structure to NULL, the entry of hook.c in place of the C library's, what
-- is printed, the pauses, snic/hash_delee.cpp and snic/rdma_sock_linker.c, which the build leaves out, and the
-- programs that only try the library. The threads are modelled where they share a table of the card,
-- in the data that get_r_info keeps for each, and on the card by their turns, each of which is one
-- step.
pub mod Base
pub mod Hash
pub mod Wire
pub mod Message
pub mod Rdma
pub mod Card
pub mod Host
