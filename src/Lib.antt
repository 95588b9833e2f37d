-- ===== src/Lib.antt =====
-- mcchost, a server for the classic Minecraft protocol: the parts that the server's processes share
-- and the two ends of its connections.
--
-- Each connected player has a process of its own. The processes share files mapped into memory: among
-- them a queue of block changes for each level, a queue of chat lines and a queue of commands. Every
-- process writes to these queues under a lock, and reads them with a cursor of its own that nobody
-- else sees. What it reads goes to its player as packets; what the player sends comes in as a stream
-- of bytes, which it cuts into packets.
--
-- Where to find what:
--   Base        the helpers: Boolean tests, C arrays as lists, machine words as natural numbers with
--               their wrap-around written out, and signed numbers
--   Ring        the ring that queue_block.c, queue_chat.c and queue_cmd.c each spell out: Ring/Step
--               its steps, Ring/Feed what it promises a reader, Ring/Follow how a write moves the
--               readers' positions, Ring/Refine the refinement, Ring/Loop
--               the check of the header and the reading loop of the chat and command queues
--   BlockQueue  queue_block.c and, of shared.c, allocate_shared, create_block_queue and
--               check_block_queue: BlockQueue/State the data, Open and OpenLaws the file, Send the
--               writers, Drain the readers, Deliver, Broadcast and Collect what readers get
--   Packet      send_packet.c, with the lengths of packet.c, cpe_login.c and login.c: Packet/Config
--               the tables; Encode and Text the nb_ writers; Send, Define and Players a function for
--               each send function; Message the union of their calls; Ascii the table of cp437.c;
--               SentLen, BasicLengths, CpeLengths and Lengths the lengths
--   Receive     remote_received, sanitise_nbstring and convert_logon_packet of requestloop.c:
--               Receive/Frame and Text the code, Segments and Stream what it makes of a stream,
--               Clean what it makes of a text field
--   ChatQueue   queue_chat.c, with create_chat_queue of shared.c: Post the writers, Hear the reader,
--               Parts and Deliver what becomes of a message
--   CommandQueue  queue_cmd.c, with create_cmd_queue of shared.c
--   Request     process_client_message of requestloop.c, with the macros and records of packet.c:
--               Read the fields, Handle a function for each case, Frames and Lengths what it reads
--   Edit        update_block, grow_dirt_block and check_for_sand of queue_block.c: Level the data,
--               Sand and Place the code, Replay what the players hear, Count and Conserve what
--               becomes of the blocks, Rounds the end of the loop
--   Convert     block_convert of send_map_file.c: Bounds what a client gets
--   Dates       mktime_t.c: Integers the laws of sums from 0 on, Calendar the calendar by months,
--               Text the dates that iso8601_to_time_t reads
--   Spam        antispam.c: Deadline one event, Rate sequences of events
--   Websocket   websocket_translate and websocket_header of websocket.c: Mask, Frames and Headers the
--               parts of one frame, Stream several, Drip a header in single bytes, Split a
--               packet in two reads
--   Outgoing    write_to_remote, flush_to_remote and bytes_queued_to_send of requestloop.c: Room the
--               memory, Queue the order of the bytes
--   Inbound     the use of websocket_translate and remote_received in do_select of requestloop.c:
--               Packets the packets that come in frames
--   Chat        chat_message.c: Colour and Paste the colours of a message, Wrap the lines of post_chat;
--               ColourLaws and PasteLaws what becomes of a text, Stages, Bytewise and WrapLaws of a line
--   Players     check_other_users and despawn_all_players of client_list.c: Slot one id, Pass all of
--               them, View the client; Heard, Mirror, Quiet, PassLaws and Despawn what it shows, Places
--               and Placed where, Coordinates the bytes of a place, Delivered with the packets that
--               are written
--   Sessions    start_user of client_list.c: Slots the code, Scanned and Rounds the loop,
--               Started the table, Admitted who gets in
--   Negotiate   process_extentry of cpe_login.c, with PKID_EXTINFO and PKID_CUSTBLOCK of requestloop.c:
--               Entries; the limits of send_block_definitions: Definitions; Grown the flags, Agreed the limits,
--               Sent the numbers that a client reads, Enabled which extensions are enabled
--   StringLists  in_strlist and add_strlist of strops.c: Search the answer, and when there is none
--   Tests       the theorems at concrete inputs, and runs of the code
--
-- The model and the code. A function has the name of the C function; a function of several parts has
-- a helper for each part, with a name that says what it does. A lock is held over each write and each
-- read of an entry, so these come one after the other, in any order: Ring/Refine takes every such
-- order; the theorems on whole calls take a call of a reader with no write in between. An unsigned
-- 32-bit counter is a natural number below 2 ^ 32 that wraps; an `int` in a packet is an integer cut
-- to its low bits where it is written, and the sums and products of Dates and Spam are cut to 32 bits.
-- `last_id` and `last_generation` of a process are a cursor. Where the C code stops the process
-- (`fatal`) the model has a result of its own.
--
-- Bounds. A reader of a ring compares generations modulo 2 ^ 32, so the theorems count fewer than
-- 2 ^ 32 writes between two looks of a reader. The loop of send_queued_blocks has the 1024 rounds that
-- the code gives it. The loop of fetch_queued_blocks has no bound in the code; here it has
-- `queue_len` rounds, and the theorem about it shows that they are enough. The loops of
-- the chat and command queues have `queue_len` rounds in the same way. The loop of
-- nb_string_write that drops colour marks has 64 rounds, one for each byte. The loop of
-- check_for_sand has a round for each height above the bottom, with the
-- theorem that these are enough. The loop of f_block_convert has the four tries of the code; that of
-- websocket_translate two rounds for each byte of a read, and two more; that of write_to_remote a
-- round for each byte that is to fit, since the memory at least grows in each. The loop of post_chat has
-- rounds by fuel, with the theorem on how many are enough; that of in_strlist too, with the theorem on
-- when no number is.
--
-- Parameters. The page size, the success of each allocation and of `realloc`, the time, and
-- bytes_queued_to_send are arguments, as are the block conversion, which Convert models, and the
-- conversion of a block's speed, which the encoder calls; the handler of packets in Receive, which
-- Request models; process_ipc_cmd, which the command queue calls; and atoi, which reads dates. The test
-- for a process with kill, the table of colours and the printing of a number are arguments too. A
-- chat line that is heard is listed, in place of the call of post_chat. The handlers that
-- process_client_message calls, and the packets that an edit sends, are listed in the same way.
--
-- Of allocate_shared the branch with posix_fallocate is modelled, which is built where the system
-- declares it.
--
-- Not modelled: that function's other branch, with ftruncate; the mutexes and files of the system,
-- sockets and logs; the login; the handshake of websockets; the map files and generators; user files, permissions and commands; the order of rows
-- that reorder_visible_users makes for more users than ids; the guess of the client in process_extentry.
pub mod Base
pub mod Ring
pub mod BlockQueue
pub mod ChatQueue
pub mod CommandQueue
pub mod Packet
pub mod Receive
pub mod Tests
pub mod Chat
pub mod Convert
pub mod Dates
pub mod Edit
pub mod Inbound
pub mod Negotiate
pub mod Outgoing
pub mod Players
pub mod Request
pub mod Sessions
pub mod Spam
pub mod StringLists
pub mod Websocket
