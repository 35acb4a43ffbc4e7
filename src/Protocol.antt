-- ===== src/Protocol.antt =====
-- Packets (module/protocol/src). Google's protocol buffers are a record of the operations that are called.
use social_gaming_platform.Prelude.{
  ℕ, ◌≡◌, ap, ◌∙◌, Bool, true, Option, none, some, List, Text, codes, text_eq, text_eq_iff,
  if◌then◌else◌,
}
use social_gaming_platform.Run.{Run, Exception, ok, threw, library_exception}

-- PacketException.
pub data PacketError : Type 0 where
  malformed illegal_cast : PacketError

unfoldable pub packet_what : PacketError → Text
packet_what malformed = codes "Malformed or invalid packet."
packet_what illegal_cast = codes "Illegal conversion between packet types."

abbrev pub packet_exception : PacketError → Exception
packet_exception k = library_exception (packet_what k)

pub record TextPacket : Type 0 where
  pub text : Text

-- Socket::Data.
abbrev pub Bytes : Type 0
Bytes = List ℕ

-- TextPacket::from_bytes and to_bytes: a text is its bytes.
unfoldable pub text_from_bytes : Bytes → TextPacket
text_from_bytes bytes = record { text = bytes }

unfoldable pub text_to_bytes : TextPacket → Bytes
text_to_bytes p = p.text

-- `Any` and the message type `T`: the name of `T`, `type_url()`, ParseAnyTypeUrl, UnpackTo, PackFrom,
-- MessageToJsonString and JsonStringToMessage.
pub record Protobuf (Any T : Type 0) : Type 0 where
  pub full_name : Text
  pub type_url : Any → Text
  pub type_name : Text → Text
  pub unpack : Any → T
  pub pack : T → Any
  pub to_json : Any → Text
  pub of_json : Text → Any

module _ {Any T : Type 0} (buf : Protobuf Any T) where
  -- JsonPacket, whose only field is its Any.
  unfoldable pub packet_of : T → Any
  packet_of message = buf.pack message

  unfoldable pub packet_type : Any → Text
  packet_type p = buf.type_url p

  unfoldable pub is_packet : Any → Bool
  is_packet p = text_eq (buf.type_name (buf.type_url p)) buf.full_name

  unfoldable pub try_downcast : Any → Option T
  unfolding is_packet
  try_downcast p = if is_packet p then some (buf.unpack p) else none

  abbrev pub or_illegal : {W : Type 0} → Option T → Run W T
  or_illegal none w = threw (packet_exception illegal_cast) w
  or_illegal (some m) w = ok m w

  unfoldable pub downcast : {W : Type 0} → Any → Run W T
  unfolding try_downcast packet_what
  downcast p = or_illegal (try_downcast p)

  unfoldable pub from_json_bytes : Bytes → Any
  from_json_bytes bytes = buf.of_json bytes

  unfoldable pub to_json_bytes : Any → Bytes
  to_json_bytes p = buf.to_json p

  -- A message that is sent as a packet in JSON arrives: of a library that packs and prints without loss,
  -- and gives a packed message the address of its type.
  pub downcast-sent :
      {W : Type 0} (message : T) (w : W)
      → buf.type_name (buf.type_url (buf.pack message)) ≡ buf.full_name
      → buf.unpack (buf.pack message) ≡ message
      → buf.of_json (buf.to_json (buf.pack message)) ≡ buf.pack message
      → downcast (from_json_bytes (to_json_bytes (packet_of message))) w ≡ ok message w
  unfolding downcast from_json_bytes to_json_bytes packet_of
  downcast-sent message w named unpacked printed =
      let arrives = ap (λ p. downcast p w) printed in
      let same : is_packet (buf.pack message) ≡ true = is_packet-named (buf.pack message) named in
      arrives
      ∙ ap (λ b. or_illegal (if b then some (buf.unpack (buf.pack message)) else none) w) same
      ∙ ap (λ m. ok m w) unpacked
    where
      is_packet-named :
          (p : Any) → buf.type_name (buf.type_url p) ≡ buf.full_name → is_packet p ≡ true
      is_packet-named p h = (text_eq_iff (buf.type_name (buf.type_url p)) buf.full_name).1 h
