-- ===== src/GameProto.antt =====
-- src/gameproto.h and src/gameproto.cpp, class GameTCPProtocol: from a packet's data to a message.
-- A message that is posted is the result; what `postMsg` does with it is in Dispatch.
pub mod Messages
mod Tests
use ocserver.Common.{
  store, ℕ, zero, suc, ◌+◌, ◌-◌, ◌^◌, Bool, true, false, List, [], ◌∷◌, take, ◌==◌, ◌&&◌,
  if◌then◌else◌,
}
use ocserver.Wire.{NetPacket}
use ocserver.Proto.Stream.{Stream, Result, ok, proto_error, length_error, P, ◌>>=◌, return, at}
use ocserver.Server.Writes.{Writes, Sending, sendinl}
use ocserver.Proto.In.Values.{Printer, read_unsigned, read_string, read_map}

-- `std::unordered_map<std::string, std::string>`: one value for each key.
abbrev pub HashMap : Type 0
HashMap = List (List ℕ × List ℕ)

pub record FromMsg : Type 0 where
  pub attributes : HashMap
  pub error_msg : List ℕ
  pub from_version : ℕ
  pub msg_cookie : ℕ
  pub result_code : ℕ
  pub service_cmd : List ℕ
  pub pack_seq : ℕ
  pub uin : List ℕ
  pub net_buffer : List ℕ
  pub packet_type : ℕ
  pub client : ℕ

-- The constructor, and what ParsePacket stores before it reads the data.
unfoldable pub new_msg : ℕ → NetPacket → List ℕ → FromMsg
new_msg client packet buf = record {
  attributes = [];
  error_msg = [];
  from_version = packet.version;
  msg_cookie = 0;
  result_code = 1000;
  service_cmd = [];
  pack_seq = 2 ^ 32 - 1;
  uin = [];
  net_buffer = take packet.datalen buf;
  packet_type = packet.type;
  client = client;
}

-- The message is posted or deleted, or an exception that is no `ProtoError` leaves ParsePacket.
pub data Parsed : Type 0 where
  posted : FromMsg → Parsed
  deleted thrown : Parsed

module _ (u : ℕ) (printer : Printer) where
  open printer use {print_unsigned}

  -- The reads of bufFromMsg; their tags are not looked at.
  unfoldable pub read_fields : FromMsg → P FromMsg
  unfolding read_unsigned read_string read_map
  read_fields msg = do
    (t, uid) ← read_unsigned u
    (t1, cmd) ← read_string u printer
    (t2, pack_seq) ← read_unsigned u
    (t3, attrib) ← read_map (read_string u printer) (read_string u printer) store u []
    return (record msg {
      uin = print_unsigned uid;
      service_cmd = cmd;
      pack_seq = pack_seq;
      attributes = attrib;
    })

  abbrev pub parsed : Result FromMsg → Parsed
  parsed (ok msg s) = posted msg
  parsed (proto_error s) = deleted
  parsed length_error = thrown

  -- A stream on the packet's data.
  unfoldable pub buf_from_msg : NetPacket → List ℕ → FromMsg → Parsed
  unfolding read_fields
  buf_from_msg packet buf msg =
      parsed (read_fields msg (at (take packet.datalen buf) 0 (take packet.datalen buf)))

  unfoldable pub parse_packet : ℕ → NetPacket → List ℕ → Parsed
  unfolding buf_from_msg new_msg
  parse_packet client packet buf = buf_from_msg packet buf (new_msg client packet buf)

-- sendMsg, by sendinl of the client's server; `accepts` is whether libuv takes the request.
unfoldable pub send_msg : Bool → List ℕ → ℕ → Writes → Sending
unfolding sendinl
send_msg accepts net_buffer client s = sendinl accepts s net_buffer client
