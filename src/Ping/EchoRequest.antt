-- ===== src/Ping/EchoRequest.antt =====
-- lib/src/ping/echo_request.cc: an echo request, its checksum and its bytes.
pub mod Checksum
use pingfs.Base.{
  ℕ, suc, ◌+◌, ◌-◌, ◌*◌, ◌/◌, ◌%◌, ◌^◌, ◌==◌, Bool, ◌&&◌, if◌then◌else◌, List, [], ◌∷◌, ◌++◌, Bytes,
  length, list_beq, nat_eq,
}
use pingfs.Ping.Shorts.{swap_bytes, put_short}
use pingfs.Ping.EchoResponse.{EchoResponse}

abbrev pub echo_request_type : ℕ
echo_request_type = 8

abbrev pub echo_request_code : ℕ
echo_request_code = 0

abbrev pub icmp_header_size_bytes : ℕ
icmp_header_size_bytes = 8

-- `uint32_t` arithmetic.
abbrev pub wrap32 : ℕ → ℕ
wrap32 n = n % 2 ^ 32

-- The loop over the body; `i` is the index of the first byte that is left.
unfoldable pub checksum_loop : ℕ → Bytes → ℕ → ℕ
checksum_loop i [] sum = sum
checksum_loop i (val ∷ body) sum =
    checksum_loop (suc i) body (wrap32 (sum + (if i % 2 == 0 then val * 256 else val)))

-- One addition of the high half, complement, and the two bytes exchanged.
unfoldable pub checksum : ℕ → ℕ → Bytes → ℕ
unfolding checksum_loop
checksum identifier sequence_number body =
    let start = echo_request_type * 256 + echo_request_code + identifier + sequence_number in
    let sum = checksum_loop 0 body (wrap32 start) in
    let folded = wrap32 (sum + sum / 2 ^ 16) in swap_bytes ((2 ^ 32 - 1 - folded) % 2 ^ 16)

pub record EchoRequest : Type 0 where
  pub checksum_ : ℕ
  pub identifier : ℕ
  pub sequence_number : ℕ
  pub body : Bytes

-- The constructor from its parts.
unfoldable pub echo_request : ℕ → ℕ → Bytes → EchoRequest
echo_request identifier sequence_number body = record {
  checksum_ = checksum identifier sequence_number body;
  identifier = identifier;
  sequence_number = sequence_number;
  body = body;
}

-- The constructor from a response: the same identifier, sequence number and data.
unfoldable pub of_response : EchoResponse → EchoRequest
unfolding echo_request
of_response resp = echo_request resp.identifier resp.sequence_number resp.data_

-- `operator<<`.
unfoldable pub to_bytes : EchoRequest → Bytes
unfolding put_short swap_bytes
to_bytes request =
    echo_request_type
    ∷ echo_request_code
    ∷ (put_short (swap_bytes request.checksum_)
        ++ (put_short request.identifier ++ (put_short request.sequence_number ++ request.body)))

unfoldable pub byte_size : EchoRequest → ℕ
byte_size request = icmp_header_size_bytes + length request.body

unfoldable pub request_beq : EchoRequest → EchoRequest → Bool
request_beq a b =
    a.checksum_ == b.checksum_
    && (a.identifier == b.identifier
        && (a.sequence_number == b.sequence_number && list_beq a.body b.body))
