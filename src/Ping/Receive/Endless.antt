-- ===== src/Ping/Receive/Endless.antt =====
-- Packets whose length field is too small for lib/src/ping/ping.cc.
use pingfs.Base.{
  ℕ, zero, suc, ◌<◌, true, Bytes, ◌∷◌, List, length, ok, fail, Failure, ◌≡◌, ◌≢◌, refl, arith,
  le→ltb-false, lt→ltb, ne→==-false,
}
use Failure.{length_error, out_of_fuel}
use pingfs.Ping.Shorts.{network_short-put}
use pingfs.Ping.EchoResponse.{min_size}
use pingfs.Ping.Receive.{Task, check_notify, internal_check_notify}
use pingfs.Ping.Receive.Framing.{IpFields, with_header, ping_of}

check_notify-zero :
    (h : IpFields) (proto : ℕ) (payload : Bytes) (posted : List Task)
    → proto ≢ 1
    → check_notify (ping_of (with_header h 0 proto payload) posted)
      ≡ ok (true, ping_of (with_header h 0 proto payload) posted)
unfolding check_notify
check_notify-zero h proto payload posted kind =
    rw
      (
        le→ltb-false (length (with_header h 0 proto payload)) min_size (omega arith),
        network_short-put 0 (omega arith),
      )
      (ground arith)

-- A packet that is not ICMP and claims a total length of 0 is never taken from the buffer: the loop
-- that it starts does not end, whatever the number of rounds.
pub internal_check_notify-zero :
    (h : IpFields) (proto : ℕ) (payload : Bytes) (posted : List Task)
    → proto ≢ 1
    → (fuel : ℕ)
    → internal_check_notify fuel (ping_of (with_header h 0 proto payload) posted) ≡ fail out_of_fuel
unfolding internal_check_notify
internal_check_notify-zero h proto payload posted kind zero = refl
internal_check_notify-zero h proto payload posted kind (suc fuel) =
    rw
      (
        check_notify-zero h proto payload posted kind,
        ne→==-false (length (with_header h 0 proto payload)) 0 (omega arith),
      )
      (internal_check_notify-zero h proto payload posted kind fuel)

-- An echo reply that claims fewer than 28 bytes makes the size of the data wrap around, and the
-- allocation of the vector throws.
pub check_notify-short :
    (h : IpFields) (total c1 c2 i1 i2 s1 s2 : ℕ) (body : Bytes) (posted : List Task)
    → total < 28
    → check_notify
        (ping_of (with_header h total 1 (0 ∷ 0 ∷ c1 ∷ c2 ∷ i1 ∷ i2 ∷ s1 ∷ s2 ∷ body)) posted)
      ≡ fail length_error
unfolding check_notify
check_notify-short h total c1 c2 i1 i2 s1 s2 body posted short =
    let buffer = with_header h total 1 (0 ∷ 0 ∷ c1 ∷ c2 ∷ i1 ∷ i2 ∷ s1 ∷ s2 ∷ body) in
    rw (
      le→ltb-false (length buffer) min_size (omega arith),
      network_short-put total (omega arith),
      le→ltb-false (length buffer) total (omega arith),
      lt→ltb total 28 short,
    )
