-- ===== src/Lib.antt =====
-- A model of OCServer, a server that receives packets over TCP, reads the tagged values in them and
-- posts them as messages.
--
-- Parts and files (paths from the repository's root):
--   Common      Boolean tests and lists over the native numbers, with their lemmas.
--   Wire        src/net_base.h: Int32ToChar, CharToInt32, Int64ToChar, CharToInt64, NetPacketToChar
--               and CharToNetPacket, under the same names in snake case. A byte is a number below 256,
--               a machine integer its bit pattern.
--   PacketSync  src/PacketSync.h and src/PacketSync.cpp. The state is the record PacketSync; recvdata is
--               cut at its `continue` and `return` into one function per stage (find_head,
--               check_header, begin_packet, collect, finish), and recv_loop runs the rounds. A buffer is
--               the bytes that were written to it and its capacity. Frames tells what a frame of a
--               stream is, without buffers; Refinement shows that recvdata finds them.
--   Proto       Core/src/proto.h and Core/src/proto.cpp. Out has one function for each
--               ProtoOut::write, giving the bytes; In and In.Values have one for each ProtoIn::read, in a
--               monad over a string stream that a ProtoError or a std::length_error ends. In.Skip has tell,
--               seek, skipField, skipToStructEnd and skipToTag; Display is ProtoDisplay, as the text that
--               it puts out.
--   GameProto   src/gameproto.h and src/gameproto.cpp: ParsePacket and bufFromMsg.
--   Server      src/uv_net.h and src/uv_net.cpp. Writes: sendinl, AfterSend and the pool of write
--               requests. Clients: on_new_connection, RecycleTcpHandle, SubClientClosed and the destructor, with the
--               pool, the map and the allocation of the contexts of clients.
--               Reading: alloc_buffer, read_header and the closing of a client, with the calls of
--               recvdata and of GetPacket, whose exceptions nothing catches; Reading.Tls: on_hd_complete,
--               evt_on_rd and uv_rd_cb; Reading.Ended joins it with ParsePacket. Binding: bind_net,
--               getNetAddrType and GetUVError. Running: the constructors, the settings, set_srvcert, Start
--               and run_loop. Ending: StartThread when the loop has ended, Close and CloseWalkCB.
--   Dispatch    src/ev_dispatch.cpp: postMsg, afterpost_cb, checkQueue and proc_msg over the queue and the
--               messages that are allocated. Services: the services in Core/src/jImpl.cpp
--               (loadJavaSrvConf, loadJavaSrv, load_allAvaJavaSrvs, getService, execTransact).
--   Paths       Core/src/mfilesystem.cpp: the map FILENAMES with init_user_dir, update_datadir,
--               update_pathname and get_pathname; Listing has GetFilesInDirectory and check_logs.
--   Log         Core/src/debug.h and Core/src/debug.cpp: DebugLog, its levels and classes, and DebugFile with
--               the text that goes to each stream.
--   Args        src/main.cpp: the loop over the arguments with its handlers, the help text, and what main does
--               up to the signal handler.
--   Charsets    Core/src/charutils.cpp: utf8_to_wstr, wstr_to_utf8 and str_split.
--   Config      Core/src/config.h and Core/src/config.cpp: the constructor of Configure and writeConf, and the
--               monad of calls that log and may throw.
--   Java        Core/src/jImpl.h and Core/src/jImpl.cpp: jUtils, and JCommChannel without its services;
--               Bridge has the native methods of Core/src/jni.cpp.
--   Main        src/main.cpp: what main does behind the signal handler, up to the start of the server.
--   Crypt       Core/src/cryptoutils.h and Core/src/cryptoutils.cpp: Pair has Gen_ECDH_KeyPair, the digests, the
--               keys in PEM and the texts of keys, Shared both Gen_Shared_Key, in a monad over the objects of
--               OpenSSL that are allocated, the strings passed by reference and the log.
--   Util        Core/src/util.cpp: Buffer2String and String2Buffer; sprintf and sscanf are Formats.
-- The server hands the bytes it reads to PacketSync::recvdata, whose callback hands each packet to
-- ParsePacket, which reads it with ProtoIn and posts it to the dispatcher, which hands it to a service.
-- main names the directories, reads the arguments and opens the log before it makes these parts.
--
-- Fuel: recv_loop takes one unit for each byte that is held or arrives, and ten more; each round but the
-- last takes a byte out of the stream, so that this is enough.
-- parse_args takes one unit for each argument, of which each turn takes one at least; pop_zeros one for
-- each byte. Skipping takes fuel for fields in fields and for the turns of its loops, and do_display for
-- both together: these are loops that may not end in the code, and a skip tells if its fuel was enough.
-- afterpost_cb takes one unit for each message.
--
-- Parameters: what an uninitialised `char` holds (u), how the standard library prints numbers (Printer,
-- Printers, Formats, decimal), reads them (atoi) and converts a float to a double, what libuv, the file
-- system, the environment, the TLS library and the Java machine (Machine) answer, the libraries OpenSSL
-- (Openssl, with what it documents of a curve in IsEcdh) and json.hpp (JsonLibrary), the conversions of the
-- locale and the longest strings (Locale), the protocol's ParsePacket in Server.Reading (throws), and the
-- current time.
-- An int has 32 bits and a long 64; the host is little-endian and `char` is signed. The parts that differ by
-- platform are those of Linux.
--
-- Not modelled: the texts of a ProtoError, but for the write behind the array they are made in; what is
-- asked of a ProtoOut behind a string of 2 ^ 31 bytes or more, with which its stream goes bad;
-- what evt_tls writes, and its callbacks for that; the destructor of uvnet but for the pool
-- of contexts; the threads and
-- the loop of libuv; the insertions that operator[] of json.hpp makes; Base64, which is a copy
-- of another project's code, as are json.hpp, xxtea and evt_tls. A lock makes what it protects one
-- step. A context's address is not given out again after it is freed. Outside Config, Crypt, Java, Main,
-- Server.Running and Server.Ending the messages below D_ERROR are left out, which change nothing else.
pub mod Common
pub mod Wire
pub mod PacketSync
pub mod Proto
pub mod Server
pub mod GameProto
pub mod Util
pub mod Paths
pub mod Log
pub mod Args
pub mod Dispatch
pub mod Crypt
pub mod Config
pub mod Java
pub mod Main
pub mod Charsets
