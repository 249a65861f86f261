-- ===== src/Ping/EchoResponse.antt =====
-- What is read from a socket: lib/include/pingfs/ping/ip_v4_stream.hpp, lib/src/ping/ip_v4.cc,
-- lib/src/ping/icmp_header.cc and lib/src/ping/echo_response.cc.
use pingfs.Base.{
  ℕ, ◌==◌, ltb, Bool, false, if◌then◌else◌, [], ◌∷◌, Bytes, length, drop, Result, ok, fail, Failure,
  ◌>>=◌,
}
use Failure.{thrown, undefined}
use pingfs.Ping.Shorts.{network_short}

-- A `std::istream` over a text: what is left of it, and its failure bit.
pub record IpV4Stream : Type 0 where
  pub rest : Bytes
  pub failed : Bool

-- A value whose read fails is never initialised.
unfoldable pub read_byte : IpV4Stream → Result (ℕ × IpV4Stream)
read_byte stream =
    if stream.failed
    then fail undefined
    else elim stream.rest [ [] ↦ fail undefined | b ∷ rest ↦ ok (b, record stream { rest = rest }) ]

take_short : Bytes → Result (ℕ × IpV4Stream)
take_short (a ∷ b ∷ rest) = ok (network_short a b, record { rest = rest; failed = false })
take_short _ = fail undefined

unfoldable pub read_unsigned_short : IpV4Stream → Result (ℕ × IpV4Stream)
unfolding take_short
read_unsigned_short stream = if stream.failed then fail undefined else take_short stream.rest

-- `read_bytes` reads and forgets; a short read sets the failure bit.
unfoldable pub read_bytes : ℕ → IpV4Stream → IpV4Stream
read_bytes num_bytes stream =
    if stream.failed
    then stream
    else record { rest = drop num_bytes stream.rest; failed = ltb (length stream.rest) num_bytes }

unfoldable pub consume_ip_header : IpV4Stream → IpV4Stream
unfolding read_bytes
consume_ip_header = read_bytes 20

pub record IpV4 : Type 0 where
  pub length_ : ℕ
  pub proto : ℕ

abbrev pub min_size : ℕ
min_size = 20

unfoldable pub get_total_length : IpV4Stream → Result (ℕ × IpV4Stream)
unfolding read_unsigned_short
get_total_length istream = do
  (_, istream') ← read_unsigned_short istream
  read_unsigned_short istream'

unfoldable pub get_proto : IpV4Stream → Result (ℕ × IpV4Stream)
unfolding read_unsigned_short read_byte
get_proto istream = do
  (_, s1) ← read_unsigned_short istream
  (_, s2) ← read_unsigned_short s1
  (_, s3) ← read_byte s2
  read_byte s3

-- The constructor of `IpV4` from a stream whose text has `len` bytes.
unfoldable pub read_ip_v4 : IpV4Stream → ℕ → Result (IpV4 × IpV4Stream)
unfolding get_total_length get_proto
read_ip_v4 istream len = do
  (total, s1) ← get_total_length istream
  (proto, s2) ← get_proto s1
  (_, s3) ← (if ltb len min_size then fail thrown else read_unsigned_short s2)
  (_, s4) ← read_unsigned_short s3
  (_, s5) ← read_unsigned_short s4
  (_, s6) ← read_unsigned_short s5
  (_, s7) ← read_unsigned_short s6
  ok (record { length_ = total; proto = proto }, s7)

unfoldable pub is_icmp : IpV4 → Bool
is_icmp ip_v4 = ip_v4.proto == 1

pub record IcmpHeader : Type 0 where
  pub type : ℕ
  pub code : ℕ
  pub checksum : ℕ
  pub identifier : ℕ
  pub sequence_number : ℕ

unfoldable pub read_icmp_header : IpV4Stream → Result (IcmpHeader × IpV4Stream)
unfolding read_byte read_unsigned_short
read_icmp_header istream = do
  (type, s1) ← read_byte istream
  (code, s2) ← read_byte s1
  (checksum, s3) ← read_unsigned_short s2
  (identifier, s4) ← read_unsigned_short s3
  (sequence_number, s5) ← read_unsigned_short s4
  ok (
    record {
      type = type;
      code = code;
      checksum = checksum;
      identifier = identifier;
      sequence_number = sequence_number;
    },
    s5,
  )

pub record EchoResponse : Type 0 where
  pub identifier : ℕ
  pub sequence_number : ℕ
  pub data_ : Bytes

-- The type and the code of an echo reply.
abbrev pub echo_reply_type : ℕ
echo_reply_type = 0

abbrev pub echo_reply_code : ℕ
echo_reply_code = 0

-- The constructor of `EchoResponse` from a stream. `to_str` reads on whatever the failure bit.
unfoldable pub of_stream : IpV4Stream → Result EchoResponse
unfolding consume_ip_header read_bytes read_unsigned_short
of_stream stream = do
  (identifier, s1) ← read_unsigned_short (read_bytes 4 (consume_ip_header stream))
  (sequence_number, s2) ← read_unsigned_short s1
  ok (record { identifier = identifier; sequence_number = sequence_number; data_ = s2.rest })
