-- ===== src/Lib.antt =====
-- FileHopZ: transfers of files between two hosts over UDP.
--
-- The program sends a directory from one host to another. Under the file transfer stands
-- ProtoStream, a stream of chunks; under it ProtoHopZ, the transport, which numbers packets,
-- encrypts them, resends them until they are acknowledged and limits how many are in flight.
-- Coroutines meet at two small synchronisers, Async_queue and Async_value, and Crypto_context
-- holds the keys.
--
-- Files and the code that they model:
--   Errors          src/errors/filehopz_error.cpp: the codes, their error values and messages.
--   Packet          include/protohopz/protohopz_packet.hpp: constants, packet types, the packed
--                   header, and the bytes of a datagram.
--   AsyncQueue      include/utils/async_queue.hpp: push, pop, cancellation.
--   AsyncValue      include/utils/async_value.hpp: get, set, update, notify_one, wait.
--   Crypto          src/utils/crypto_context.cpp: init, set_peer_public_key, encrypt_data,
--                   decrypt_data.
--   Transport       src/protohopz/protohopz.cpp: the state, start_loops, stop_loops,
--                   handle_loop_result, store_loop_error; its children Send (send_packet,
--                   resend_packet), Receive (receive_loop, receive_packet), Ack (ack_handler,
--                   send_ack), Timeout (timeout_loop, wait_in_flight_drained), Handshake
--                   (handshake_initiator, handshake_responder) and Step (all events together).
--   Reorder         src/protohopz/protostream.cpp: receive_chunks_loop, which turns packets into
--                   the ordered stream.
--   Ftp             include/ftp_packet.hpp: the packets of the file transfer, and the symbolic
--                   links in them (Sender::path_handler, extract_symlink).
--   Sender          src/sender/sender.cpp: the packets of path_handler and start_transfer, and the
--                   announced size; its child Sites has each send of the two with its check of
--                   what the stream returns.
--   Receiver        src/receiver/receiver.cpp: handle_packet, start_transfer, over the builder of
--                   the files as an interface.
--   Confirmation    the dialogue before a transfer, transfer_confirmation of both sides.
--   FilePath        src/utils/file_builder.cpp: validate_relative_path.
--   Disk            the file system under it: directories, files, links, and the calls of
--                   std::filesystem and std::ofstream that it makes.
--   Builder         src/utils/file_builder.cpp: the constructor, create_directory, create_file,
--                   create_symlink, write, close_file, commit, cleanup.
--   Transfer        the sender's packets, the receiver and the builder of files together, and the
--                   three over the stream.
--   Walker          src/utils/file_walker.cpp: the constructor, next, relative_path, reset.
--   Main            src/main.cpp: the arguments and the exit code.
--   Progress        src/file_transfer.cpp: print_progress.
--   Stream          src/protohopz/protostream.cpp: the state, the packet of send, the errors; its
--                   children Calls (the constructors, send, receive, close, start_loops and a turn
--                   of receive_chunks_loop, from each wait to the next) and Machine (all events
--                   together, over the transport's own).
--   Host            what is taken from outside: floating point, endpoints, a cancellation's error.
--   Base            numbers, lists, bytes and unordered maps for all of them.
--
-- How state is modelled. A class is a record of its fields, and a method is a function from the
-- old state to the new one and to what it asks of its surroundings: datagrams for the socket,
-- waiters to wake, loops to cancel. A coroutine runs on the transport's strand and gives it up
-- only where it waits, so each stretch between two waits is one function (send_packet,
-- send_woken and send_completed are the three of ProtoHopZ::send_packet), and an interleaving of
-- coroutines is a list of events. An event may come at any time, also when the loops do not run;
-- the model has all behaviours of the program and more. What Async_value dispatches on its
-- strand runs at once, since all its callers are on that strand.
--
-- Data. Sequence numbers are 32 bits wide and sizes 16, with the wrap-around written out. An
-- unordered_map is a list with one entry a key, an unordered_set a list; the order in which the
-- program would iterate is unspecified, here it is the list's. A packet's payload and crypt_info
-- are one region, as payload_region treats them, and an object that a datagram is received into
-- keeps its old bytes beyond the datagram's end. An error_code is a number and a category.
--
-- Parameters. Crypto.Api.OpenSsl has the calls of OpenSSL, each of which may fail; laws of X25519
-- and of ChaCha20-Poly1305 are hypotheses, and Crypto.Toy has a stand-in at which they hold. Host
-- has doubles with the few facts of IEEE rounding that the congestion window needs; fixed point
-- numbers are its stand-in. Random bytes and the steady clock are arguments.
--
-- The file system. A location is the list of names from the root, and the tree is a list of
-- locations with what stands there, in the order of creation. Names are resolved as on Linux, part
-- by part, with "." and "..", and at most 40 links are followed. What rights and the device
-- decide, whether something may be created or removed, how much of a write arrives and whether a
-- close succeeds, is the parameter Device. A path is taken from the root; a write reaches the tree
-- at once, where the program's stream may keep it back until it is closed; and the iterator of
-- File_builder::commit gives the entries in the order of their creation, which has every directory
-- before what is in it, where the program's iterator chooses an order of its own. What
-- File_walker's iterator gives is an argument.
--
-- Fuel. Three loops are on fuel. The inner one of receive_chunks_loop, Reorder.flush: each round
-- takes one packet from the buffer, so the buffer's size is enough. Sender.read_chunks, the loop
-- over a file, takes at least one byte a round, so the file's length and one more is enough;
-- Sender.Sites.send_chunks is that loop with its sends, on the same fuel.
-- Walker.walk_all, the sender's loop over the walk, makes a turn for each entry and one more. The
-- digits of a number are on fuel too, which one more than the number is enough for.
--
-- Not modelled: the logging, the texts that are printed, the socket and the timers themselves, the
-- unused field bandwidth_bytes_per_second, and exceptions of the file system.
pub mod Base
pub mod Errors
pub mod Packet
pub mod AsyncQueue
pub mod AsyncValue
pub mod Crypto
pub mod Host
pub mod Transport
pub mod Reorder
pub mod Ftp
pub mod Progress
pub mod Receiver
pub mod Sender
pub mod FilePath
pub mod Stream
pub mod Disk
pub mod Builder
pub mod Transfer
pub mod Confirmation
pub mod Walker
pub mod Main
