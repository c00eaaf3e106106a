-- ===== src/Lib.antt =====
-- A verification library for the gateway: a program that takes measurements from a serial line, sends
-- them on as CoAP messages, serves CoAP requests, and takes its address table by TFTP.
--
-- Parts of the program, and where they are modelled:
--   coapServer/microcoap.[ch], endpoints.c, coapServer.c   CoapServer
--   coapClient/picocoap.[ch], coapClient.c                 CoapClient
--   TFTPServer/tftputils.c, tftpserver.c                   Tftp
--   comm/list.c, queue.c and their headers                 Comm
--   uart/uart.c, and Insert_db of sqlite/sqlite.c          Uart
--   iptable/coap_iptable.[ch]                              IpTable
--   user/main.c, and Open_db of sqlite/sqlite.c              Gateway
--
-- CoapServer. `Packet` has the structs, `Parse` coap_parse with the functions that it calls, `Build`
-- coap_build, `Respond` coap_findOptions and coap_make_response, `Endpoints` the table, its handlers,
-- build_rsp and coap_handle_req, `Serve` one round of the loop of CoapServ, and `Loop` CoapServ with all
-- of its rounds; whether printf takes NULL is an argument (`prints_null`). `Format` is the message
-- format of RFC 7252, written down independently. A function keeps its name without the prefix coap_.
-- A constant byte pointer is the list of the bytes that can be read from it on, a buffer that is
-- written from its start on is the list of what is written; a read or a write outside is the outcome
-- `fault`. A byte is a number below 256, and casts to narrower types are written out as remainders.
-- The values of variables that the code leaves uninitialised are parameters (`junk`, `stale`).
--
-- Comm. `Heap` has the memory of list elements, a partial function from addresses, and `LinkedList` the
-- functions of list.c and queue.c under their names; an access to an address that holds no element is
-- the outcome `fault`. The address that `malloc` returns is an argument (`fresh`; 0 if there is none).
-- Data pointers are numbers, and the calls of `destroy` are a log. `Cells` says when the memory holds a
-- list.
--
-- Uart. `Reader` has the loop of Uart_ReadThread as a function on a stream of bytes, each with the
-- text that ctime gives for its time, and the statement that Insert_db makes; what the thread hands to
-- the database and to the queue is a list of frames. `Copies` has what the sender needs of them.
--
-- IpTable. `Lines` has the struct of an entry and what ParsTxt does with one line, `Table` its loop over
-- the file, and the clearing of the old list. The table is the list of Comm together with a memory of
-- the blocks that its data pointers point to. `Print` writes the lines of a table down independently.
-- What `malloc` returns in a round, and what an uninitialised block holds, are arguments (`Alloc`). The
-- addresses are unused once the old list is freed, so that `malloc` may give again what it held
-- (`AreFresh`). Fuel above the number of the lines, or above the length of the file, is enough.
--
-- Gateway. `Fifo` has GetfifoName, `Clients` CreatCoapclient and UpdateCoapclient in the main process:
-- what fork, access, mkfifo and open give is an argument, and fork, open, kill and wait are a log.
-- `Threads` has the thread of the serial line from the copy of a frame on and TransMsgThread, as a
-- step relation on the queue, the copies, the semaphore, the mutex and the place of each thread. Every
-- call that touches shared state is a step of its own, and the steps of the two threads interleave
-- freely. The table stays as it is while these steps run, memory for a queue element is found, and a
-- write to a pipe takes all its bytes; fuel above the number of entries is enough to walk the table
-- (`IsRunning`). `Interrupt` has a round of TransMsgThread in which the signal handler replaces the
-- table, before a write or between a write and the step to the next element, and `Main` has `main` up to
-- its idle loop. `TableFile` joins a TFTP write request with the update of the clients. `Process` has
-- what a forked client does from its set-up on, and `Readings` joins it with the threads: what a client
-- reads is what was written to the descriptor of its block.
--
-- CoapClient. `Pdu` has the structs. The bytes of the buffer are all in one list, with offsets for
-- pointers; an access behind its end is a fault (`Base.Writes`). `Decode`, `Getters`, `Setters` and
-- `Options` have the functions of picocoap under their names without coap_, `Client` the message that a
-- round of CoapClient builds, and `Rounds` the loop of the client, with what read and rand give as
-- arguments. The sizes wrap at 2 ^ 64, option numbers and lengths at 2 ^ 16. The bytes of a token stand
-- in memory with the lowest first. The messages of the client and of the server meet in
-- CoapServer.Format.
--
-- Tftp. `Messages` has the functions of tftputils.c under their names without tftp_, and the packets that
-- tftpserver.c sends; `Transfer` has tftp_process_read and tftp_process_write with the file handle, the
-- connection block, the socket and the packets sent as the state; what fopen, malloc, fwrite and
-- recvfrom give is an argument. The place for the address that recvfrom stores is a pointer of 8 bytes:
-- whether the bytes behind it hold no other variable is an argument (`spare`). `Request` has
-- process_tftp_request with tftp_extract_filename, and a round of the loop of tftpd_init; `Server` has
-- tftpd_init with the rounds on the files, which are a function from names.
--
-- Loops of the server run on the lists that they walk through, or on the number of array entries that
-- are left, so none of them needs fuel. The loops of picocoap follow the packet and have fuel: a round
-- for every option and one more is enough where a theorem says so.
--
-- Not modelled: printing and logging but for the payload that CoapServ prints, the calls of the sockets
-- and of the serial line, the database library, and the debug dumps of packets. The child processes are
-- modelled by what they run.
pub mod Base
pub mod CoapServer
pub mod Comm
pub mod Uart
pub mod IpTable
pub mod Gateway
pub mod CoapClient
pub mod Tftp
