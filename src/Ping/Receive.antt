-- ===== src/Ping/Receive.antt =====
-- lib/src/ping/data_buffer.cc and the receiving half of lib/src/ping/ping.cc: bytes from the socket
-- are kept until they make up a packet, and each echo reply becomes a task of the `io_service`.
pub mod Framing
pub mod Endless
use pingfs.Base.{
  ◌+◌, ℕ, zero, suc, ◌-◌, ◌==◌, ltb, Bool, true, false, not, ◌&&◌, if◌then◌else◌, List, [], ◌∷◌,
  ◌++◌, Bytes, length, take, drop, Result, ok, fail, Failure, ◌>>=◌,
}
use Failure.{thrown, length_error, out_of_fuel}
use pingfs.Ping.EchoResponse.{
  IpV4Stream, IpV4, IcmpHeader, EchoResponse, min_size, read_ip_v4, is_icmp, read_icmp_header,
  echo_reply_type, echo_reply_code, read_byte, read_unsigned_short,
}
use pingfs.Ping.EchoRequest.{icmp_header_size_bytes}

-- The methods of `DataBuffer`, each a critical section.
unfoldable pub discard : ℕ → Bytes → Bytes
discard bytes_to_remove buffer = drop bytes_to_remove buffer

unfoldable pub append : Bytes → Bytes → Bytes
append to_append buffer = buffer ++ to_append

-- What `Ping` posts to the `io_service`: `internal_check_notify`, or `notify` of a response.
pub data Task : Type 0 where
  check : Task
  notify : EchoResponse → Task

pub record Ping : Type 0 where
  pub data_buffer : Bytes
  pub posted : List Task

unfoldable pub post : Task → Ping → Ping
post t ping = record ping { posted = ping.posted ++ t ∷ [] }

-- `istream::read` into a buffer of zeros: what is not read stays zero.
unfoldable pub read_into : ℕ → Bytes → Bytes
read_into zero rest = []
read_into (suc n) [] = 0 ∷ read_into n []
read_into (suc n) (b ∷ rest) = b ∷ read_into n rest

-- The data of an echo reply. A length below both headers wraps around and is no size of a vector.
unfoldable pub read_data : ℕ → IpV4Stream → Result Bytes
unfolding read_into
read_data len stream =
    if ltb len (min_size + icmp_header_size_bytes)
    then fail length_error
    else ok (read_into (len - min_size - icmp_header_size_bytes) stream.rest)

-- The part of `check_notify` behind the removal of the packet from the buffer.
unfoldable pub notify_packet : IpV4 → IpV4Stream → Ping → Result (Bool × Ping)
unfolding is_icmp read_icmp_header read_data post
notify_packet ip_v4 stream ping =
    if not (is_icmp ip_v4)
    then ok (true, ping)
    else (read_icmp_header stream >>= λ (icmp_header, stream').
        if not (icmp_header.code == echo_reply_code)
        then ok (true, ping)
        else if not (icmp_header.type == echo_reply_type)
        then ok (true, ping)
        else (read_data ip_v4.length_ stream' >>= λ data'. ok (
          true,
          post
              (notify (record {
                identifier = icmp_header.identifier;
                sequence_number = icmp_header.sequence_number;
                data_ = data';
              }))
              ping,
        )))

-- Takes one packet from the buffer; `false` says that none is complete.
unfoldable pub check_notify : Ping → Result (Bool × Ping)
unfolding read_ip_v4 notify_packet discard
check_notify ping =
    if ltb (length ping.data_buffer) min_size
    then ok (false, ping)
    else (read_ip_v4 (record { rest = ping.data_buffer; failed = false }) (length ping.data_buffer)
        >>= λ (ip_v4, stream).
            if ltb (length ping.data_buffer) ip_v4.length_
            then ok (false, ping)
            else notify_packet ip_v4 stream
                (record ping { data_buffer = discard ip_v4.length_ ping.data_buffer }))

-- `while (check_notify() && (data_buffer_.size() != 0)) { }`
unfoldable pub internal_check_notify : ℕ → Ping → Result Ping
unfolding check_notify
internal_check_notify zero ping = fail out_of_fuel
internal_check_notify (suc fuel) ping = check_notify ping >>= λ (again, ping').
    let rest = internal_check_notify fuel ping' in
    if again && not (length ping'.data_buffer == 0) then rest else ok ping'

-- The handler of `async_receive`: `code` is 0 on success, and the first `len` bytes of the buffer
-- were received.
unfoldable pub handle_receive : ℕ → Bytes → ℕ → Ping → Result Ping
unfolding append post
handle_receive code reply_buffer len ping =
    if not (code == 0)
    then fail thrown
    else ok
        (post check (record ping { data_buffer = append (take len reply_buffer) ping.data_buffer }))
