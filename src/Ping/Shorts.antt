-- ===== src/Ping/Shorts.antt =====
-- Two-byte numbers on the wire and in the memory of a little-endian machine.
use pingfs.Base.{ℕ, ◌+◌, ◌*◌, ◌/◌, ◌%◌, ◌<◌, [], ◌∷◌, Bytes, ◌≡◌, arith}

-- `htons` and `ntohs` of a little-endian machine exchange the two bytes.
unfoldable pub swap_bytes : ℕ → ℕ
swap_bytes s = s % 256 * 256 + s / 256

-- `put_short` of lib/src/ping/echo_request.cc: the high byte, then the low byte.
unfoldable pub put_short : ℕ → Bytes
put_short s = (s / 256) ∷ (s % 256) ∷ []

pub swap_bytes_twice : (s : ℕ) → s < 65536 → swap_bytes (swap_bytes s) ≡ s
unfolding swap_bytes
swap_bytes_twice s h = omega arith

-- The value that `read` of two bytes and `ntohs` give: the bytes reach memory in their order.
unfoldable pub network_short : ℕ → ℕ → ℕ
unfolding swap_bytes
network_short first second = swap_bytes (second * 256 + first)

pub network_short-put : (s : ℕ) → s < 65536 → network_short (s / 256) (s % 256) ≡ s
unfolding network_short
network_short-put s h = omega arith
