-- ===== src/PingService/Wire.antt =====
-- From the bytes of a request to the response that lib/src/ping/ping.cc reports.
use pingfs.Base.{ℕ, ◌+◌, ◌<◌, true, List, [], ◌∷◌, ◌++◌, Bytes, length, ok, ◌≡◌, arith}
use pingfs.Ping.EchoRequest.{echo_request, to_bytes, byte_size}
use pingfs.Ping.Receive.{Task, notify, check_notify}
use pingfs.Ping.Receive.Framing.{IpFields, with_header, ping_of, check_notify-packet, reply}
use pingfs.PingService.Circulate.{echo}

-- A host that answers turns the request into a reply: type 0, and a checksum of its own.
unfoldable pub answer_bytes : ℕ → ℕ → Bytes → Bytes
answer_bytes c1 c2 (type ∷ code ∷ r1 ∷ r2 ∷ rest) = 0 ∷ code ∷ c1 ∷ c2 ∷ rest
answer_bytes c1 c2 short = short

-- The bytes of a request, answered by a host and put behind an IP header, are received as the
-- response with the request's identifier, sequence number and body, whatever follows them, if
-- the two numbers have 16 bits and the length of the packet fits into 16 bits.
pub check_notify-to_bytes :
    (identifier sequence_number c1 c2 : ℕ) (body : Bytes) (h : IpFields) (rest : Bytes)
    (posted : List Task)
    → identifier < 65536
    → sequence_number < 65536
    → 28 + length body < 65536
    → check_notify (
        ping_of
          (with_header h
              (20 + byte_size (echo_request identifier sequence_number body))
              1
              (answer_bytes c1 c2 (to_bytes (echo_request identifier sequence_number body)))
            ++ rest)
          posted)
      ≡ ok (
        true,
        ping_of rest (posted ++ notify (echo (echo_request identifier sequence_number body)) ∷ []),
      )
unfolding to_bytes answer_bytes byte_size echo_request
check_notify-to_bytes i s c1 c2 body h rest posted hi hs fits =
    let e : 20 + (8 + length body) ≡ 28 + length body = omega arith in
    rw e (check_notify-packet (reply h c1 c2 i s body) rest posted (hi, hs, fits))
