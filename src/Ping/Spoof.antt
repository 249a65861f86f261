-- ===== src/Ping/Spoof.antt =====
-- lib/src/ping/spoof: an echo request behind an IP header of one's own, with any source. The machine
-- is little-endian. Addresses are those of boost::asio, as the four bytes that `to_bytes` gives.
pub mod Header
use pingfs.Base.{ℕ, ◌+◌, ◌*◌, ◌/◌, ◌%◌, ◌^◌, List, [], ◌∷◌, ◌++◌, Bytes}
use pingfs.Ping.EchoRequest
use pingfs.Ping.EchoRequest.{EchoRequest, echo_request, byte_size}

pub record Address : Type 0 where
  pub b0 : ℕ
  pub b1 : ℕ
  pub b2 : ℕ
  pub b3 : ℕ

abbrev pub ip_header_length_bytes : ℕ
ip_header_length_bytes = 20

abbrev pub ip_header_length : ℕ
ip_header_length = 5

abbrev pub ipv4_version : ℕ
ipv4_version = 4

abbrev pub ip_protocol_icmp : ℕ
ip_protocol_icmp = 1

-- A value whose bytes in memory are those of the address in their order. Each `|=` sets bits that
-- are not set yet.
unfoldable pub boost_addr_to_binary : Address → ℕ
boost_addr_to_binary addr =
    (addr.b3 * 2 ^ 24 + addr.b2 * 2 ^ 16 + addr.b1 * 2 ^ 8 + addr.b0) % 2 ^ 32

pub record SpoofedIpV4 : Type 0 where
  pub src : Address
  pub dst : Address
  pub request : EchoRequest

-- `struct iphdr`. The first byte holds `ihl` in its low half and `version` in its high half.
pub record IpHdr : Type 0 where
  pub ihl : ℕ
  pub version : ℕ
  pub tos : ℕ
  pub tot_len : ℕ
  pub id : ℕ
  pub frag_off : ℕ
  pub ttl : ℕ
  pub protocol : ℕ
  pub check : ℕ
  pub saddr : ℕ
  pub daddr : ℕ

-- `operator<<` up to the first write. The header starts out with whatever its memory holds: `tos`,
-- `id` and `frag_off` are never set. The length stays in the byte order of the machine.
unfoldable pub fill_header : IpHdr → SpoofedIpV4 → IpHdr
fill_header memory hdr = record memory {
  ihl = ip_header_length;
  version = ipv4_version;
  tot_len = (ip_header_length_bytes + byte_size hdr.request) % 2 ^ 16;
  protocol = ip_protocol_icmp;
  ttl = 148;
  saddr = boost_addr_to_binary hdr.src;
  daddr = boost_addr_to_binary hdr.dst;
  check = 0;
}

unfoldable pub short_bytes : ℕ → Bytes
short_bytes n = (n % 256) ∷ (n / 256) ∷ []

unfoldable pub long_bytes : ℕ → Bytes
long_bytes n = (n % 256) ∷ (n / 2 ^ 8 % 256) ∷ (n / 2 ^ 16 % 256) ∷ (n / 2 ^ 24) ∷ []

-- The bytes of the header in memory.
unfoldable pub header_bytes : IpHdr → Bytes
header_bytes h =
    (h.ihl + h.version * 16)
    ∷ h.tos
    ∷ (short_bytes h.tot_len
        ++ short_bytes h.id
        ++ short_bytes h.frag_off
        ++ h.ttl ∷ h.protocol ∷ (short_bytes h.check ++ long_bytes h.saddr ++ long_bytes h.daddr))

-- `operator<<`.
unfoldable pub spoofed_bytes : IpHdr → SpoofedIpV4 → Bytes
unfolding header_bytes fill_header
spoofed_bytes memory hdr = header_bytes (fill_header memory hdr) ++ EchoRequest.to_bytes hdr.request

-- What the socket has sent, with the endpoint that it was sent to.
pub record PingSpoof : Type 0 where
  pub sent : List (Bytes × Address)

unfoldable pub send : IpHdr → Bytes → ℕ → ℕ → Address → Address → PingSpoof → PingSpoof
unfolding spoofed_bytes
send memory content identifier sequence_number spoofed_src spoofed_target spoofer = record {
  sent =
      spoofer.sent
      ++ (
        spoofed_bytes memory (record {
          src = spoofed_src;
          dst = spoofed_target;
          request = echo_request identifier sequence_number content;
        }),
        spoofed_target,
      )
        ∷ [];
}

-- The overload that takes a request makes another from its parts.
unfoldable pub send_request : IpHdr → EchoRequest → Address → Address → PingSpoof → PingSpoof
unfolding send
send_request memory request spoofed_src spoofed_target spoofer =
    send memory request.body request.identifier request.sequence_number spoofed_src spoofed_target
      spoofer
