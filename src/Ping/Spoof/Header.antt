-- ===== src/Ping/Spoof/Header.antt =====
-- The header of lib/src/ping/spoof/spoofed_ip_v4.cc as a receiver reads it.
use pingfs.Base.{
  ℕ, ◌+◌, ◌*◌, ◌/◌, ◌%◌, ◌<◌, ◌≤◌, le→ltb-false, false, [], ◌∷◌, ◌++◌, Bytes, ok, take, drop,
  length, ◌≡◌, arith, ap,
}
use pingfs.Ping.Shorts.{swap_bytes, network_short}
use pingfs.Ping.EchoRequest
use pingfs.Ping.EchoRequest.{EchoRequest, byte_size}
use pingfs.Ping.EchoResponse.{read_ip_v4, min_size}
use pingfs.Ping.Spoof.{
  Address, IpHdr, boost_addr_to_binary, long_bytes, short_bytes, header_bytes, fill_header,
  spoofed_bytes,
}

abbrev pub IsAddress : Address → Type 0
IsAddress a = (a.b0 < 256) × (a.b1 < 256) × (a.b2 < 256) × (a.b3 < 256)

abbrev pub address_bytes : Address → Bytes
address_bytes a = a.b0 ∷ a.b1 ∷ a.b2 ∷ a.b3 ∷ []

long_bytes-boost_addr_to_binary :
    (a : Address) → IsAddress a → long_bytes (boost_addr_to_binary a) ≡ address_bytes a
unfolding long_bytes boost_addr_to_binary
long_bytes-boost_addr_to_binary a (h0, h1, h2, h3) =
    let n = a.b3 * 16777216 + a.b2 * 65536 + a.b1 * 256 + a.b0 in
    let small : n % 4294967296 ≡ n = omega arith in
    let e0 : n % 256 ≡ a.b0 = omega arith in
    let e1 : n / 256 % 256 ≡ a.b1 = omega arith in
    let e2 : n / 65536 % 256 ≡ a.b2 = omega arith in
    let e3 : n / 16777216 ≡ a.b3 = omega arith in rw (small, e0, e1, e2, e3)

-- A number that is read in network order from a machine of the other order.
swapped : (n : ℕ) → network_short (n % 256) (n / 256) ≡ swap_bytes n
unfolding network_short
swapped n = ap swap_bytes (omega arith)

-- The header that goes out is read as that of an ICMP packet, the bytes of the request follow it, and
-- its two addresses stand in it byte by byte; but its length is read with its two bytes exchanged, as
-- it is not put into network order. It is left to the kernel to write it anew. The packet has to be
-- shorter than 2^16 bytes.
pub read_ip_v4-spoofed_bytes :
    (memory : IpHdr) (src dst : Address) (request : EchoRequest) (len : ℕ)
    → IsAddress src
    → IsAddress dst
    → 28 + length request.body < 65536
    → 20 ≤ len
    → (read_ip_v4
          (record {
            rest = spoofed_bytes memory (record { src = src; dst = dst; request = request });
            failed = false;
          })
          len
        ≡ ok (
          record { length_ = swap_bytes (20 + byte_size request); proto = 1 },
          record { rest = EchoRequest.to_bytes request; failed = false },
        ))
      × (take 8
            (drop 12 (spoofed_bytes memory (record { src = src; dst = dst; request = request })))
          ≡ address_bytes src ++ address_bytes dst)
unfolding spoofed_bytes header_bytes fill_header short_bytes read_ip_v4 byte_size
read_ip_v4-spoofed_bytes memory src dst request len hs hd fits enough =
    let small : (20 + (8 + length request.body)) % 65536 ≡ 20 + (8 + length request.body) =
      omega arith in
    (
      rw
          (
            long_bytes-boost_addr_to_binary src hs,
            long_bytes-boost_addr_to_binary dst hd,
            le→ltb-false len min_size enough,
            small,
          )
          (ap
            (λ n. ok (
              record { length_ = n; proto = 1 },
              record { rest = EchoRequest.to_bytes request; failed = false },
            ))
            (swapped (20 + (8 + length request.body)))),
      rw (long_bytes-boost_addr_to_binary src hs, long_bytes-boost_addr_to_binary dst hd),
    )
