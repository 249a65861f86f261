-- ===== src/Tests/Pings.antt =====
-- Pings and the service that keeps blocks in flight.
use pingfs.Base.{
  ◌≡◌, [], ◌∷◌, ok, fail, Failure, codes, arith, true, ◌+◌, ◌/◌, ◌%◌, ◌++◌, ltb, length, ◌<◌, take,
  drop, false, if◌then◌else◌,
}
use Failure.{out_of_fuel, length_error}
use pingfs.Ping.EchoRequest.{echo_request, to_bytes, byte_size}
use pingfs.Ping.EchoRequest.Checksum.{word_sum, unfolded_sum, word_sum-to_bytes}
use pingfs.Ping.Receive.{Task, check_notify, internal_check_notify}
use Task.{notify}
use pingfs.Ping.Receive.Framing.{
  IpFields, Packet, with_header, ping_of, all_bytes, all_tasks, internal_check_notify-packets,
}
use Packet.{reply, other}
use pingfs.Ping.Receive.Endless.{internal_check_notify-zero, check_notify-short}
use pingfs.Ping.Spoof.{Address, IpHdr, spoofed_bytes}
use pingfs.Ping.Spoof.Header.{address_bytes, read_ip_v4-spoofed_bytes}
use pingfs.Ping.EchoResponse.{read_ip_v4}
use pingfs.Ping.Shorts.{swap_bytes}
use pingfs.PingService.Circulate.{echo}
use pingfs.PingService.Wire.{answer_bytes, check_notify-to_bytes}

abbrev fields : IpFields
fields = record {
  b0 = 69;
  b1 = 0;
  b4 = 0;
  b5 = 0;
  b6 = 0;
  b7 = 0;
  b8 = 64;
  b10 = 0;
  b11 = 0;
  b12 = 127;
  b13 = 0;
  b14 = 0;
  b15 = 1;
  b16 = 127;
  b17 = 0;
  b18 = 0;
  b19 = 1;
}

abbrev answer : Packet
answer = reply fields 0 0 7 1 (codes "hello")

abbrev datagram : Packet
datagram = other fields 17 (codes "dns")

word_sum-to_bytes_example : word_sum 0 (to_bytes (echo_request 7 1 (codes "hello"))) % 65535 ≡ (
    if ltb
      (unfolded_sum 7 1 (codes "hello") % 65536 + unfolded_sum 7 1 (codes "hello") / 65536)
      65536
    then 0
    else 1)
word_sum-to_bytes_example =
    word_sum-to_bytes 7 1 (codes "hello") (omega arith) (omega arith) (ground arith) (omega arith)

internal_check_notify-packets_example :
    internal_check_notify 3 (ping_of (all_bytes (datagram ∷ answer ∷ []) ++ codes "next") [])
    ≡ ok (ping_of (codes "next") (all_tasks (datagram ∷ answer ∷ [])))
internal_check_notify-packets_example =
    internal_check_notify-packets 3 (datagram ∷ answer ∷ []) (codes "next") []
      ((omega arith, omega arith), ((omega arith, omega arith, omega arith), _)) (ground arith)
      (omega arith)

internal_check_notify-zero_example :
    internal_check_notify 1000 (ping_of (with_header fields 0 17 (codes "dns")) [])
    ≡ fail out_of_fuel
internal_check_notify-zero_example =
    internal_check_notify-zero fields 17 (codes "dns") [] (omega arith) 1000

check_notify-short_example :
    check_notify (ping_of (with_header fields 24 1 (0 ∷ 0 ∷ 0 ∷ 0 ∷ 0 ∷ 7 ∷ 0 ∷ 1 ∷ [])) [])
    ≡ fail length_error
check_notify-short_example = check_notify-short fields 24 0 0 0 7 0 1 [] [] (omega arith)

check_notify-to_bytes_example :
    check_notify (
      ping_of
        (with_header fields
            (20 + byte_size (echo_request 7 1 (codes "hello")))
            1
            (answer_bytes 0 0 (to_bytes (echo_request 7 1 (codes "hello"))))
          ++ codes "next")
        [])
    ≡ ok (true, ping_of (codes "next") (notify (echo (echo_request 7 1 (codes "hello"))) ∷ []))
check_notify-to_bytes_example =
    check_notify-to_bytes 7 1 0 0 (codes "hello") fields (codes "next") [] (omega arith)
      (omega arith) (omega arith)

abbrev memory : IpHdr
memory = record {
  ihl = 0;
  version = 0;
  tos = 9;
  tot_len = 0;
  id = 77;
  frag_off = 1;
  ttl = 0;
  protocol = 0;
  check = 0;
  saddr = 0;
  daddr = 0;
}

abbrev source : Address
source = record { b0 = 10; b1 = 0; b2 = 0; b3 = 1 }

abbrev target : Address
target = record { b0 = 192; b1 = 168; b2 = 0; b3 = 2 }

short_body : 28 + length (echo_request 7 1 (codes "hi")).body < 65536
unfolding echo_request
short_body = ground arith

read_ip_v4-spoofed_bytes_example :
    (read_ip_v4
        (record {
          rest =
              spoofed_bytes memory
                (record { src = source; dst = target; request = echo_request 7 1 (codes "hi") });
          failed = false;
        })
        30
      ≡ ok (
        record { length_ = swap_bytes (20 + byte_size (echo_request 7 1 (codes "hi"))); proto = 1 },
        record { rest = to_bytes (echo_request 7 1 (codes "hi")); failed = false },
      ))
    × (take 8 (
          drop 12 (
            spoofed_bytes memory
              (record { src = source; dst = target; request = echo_request 7 1 (codes "hi") })))
        ≡ address_bytes source ++ address_bytes target)
read_ip_v4-spoofed_bytes_example =
    read_ip_v4-spoofed_bytes memory source target (echo_request 7 1 (codes "hi")) 30
      (omega arith, omega arith, omega arith, omega arith)
      (omega arith, omega arith, omega arith, omega arith) short_body (omega arith)
