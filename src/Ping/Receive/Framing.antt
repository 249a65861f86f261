-- ===== src/Ping/Receive/Framing.antt =====
-- Packets are cut out of the received bytes one by one (lib/src/ping/ping.cc).
use pingfs.Base.{
  ℕ, zero, suc, ◌+◌, ◌-◌, ◌/◌, ◌%◌, ◌<◌, ◌==◌, true, false, not, List, [], ◌∷◌, ◌++◌, Bytes, length,
  drop, All, ok, sym, ◌≡◌, ◌≢◌, refl, arith, ap, ◌∙◌, ◌⊎◌, inl, inr, length-append, drop-append,
  append_assoc, append-nil, le→ltb-false, lt→ltb,
}
use pingfs.Ping.Shorts.{network_short-put}
use pingfs.Ping.EchoResponse.{IpV4Stream, IpV4, min_size}
use pingfs.Ping.Receive.{
  Task, notify, Ping, read_into, notify_packet, check_notify, internal_check_notify, post,
}

-- The bytes of an IP header that the code skips.
pub record IpFields : Type 0 where
  pub b0 : ℕ
  pub b1 : ℕ
  pub b4 : ℕ
  pub b5 : ℕ
  pub b6 : ℕ
  pub b7 : ℕ
  pub b8 : ℕ
  pub b10 : ℕ
  pub b11 : ℕ
  pub b12 : ℕ
  pub b13 : ℕ
  pub b14 : ℕ
  pub b15 : ℕ
  pub b16 : ℕ
  pub b17 : ℕ
  pub b18 : ℕ
  pub b19 : ℕ

-- A header of 20 bytes with the total length, the protocol and the other fields, before a payload.
abbrev pub with_header : IpFields → ℕ → ℕ → Bytes → Bytes
with_header h total proto payload =
    h.b0
    ∷ h.b1
    ∷ (total / 256)
    ∷ (total % 256)
    ∷ h.b4
    ∷ h.b5
    ∷ h.b6
    ∷ h.b7
    ∷ h.b8
    ∷ proto
    ∷ h.b10
    ∷ h.b11
    ∷ h.b12
    ∷ h.b13
    ∷ h.b14
    ∷ h.b15
    ∷ h.b16
    ∷ h.b17
    ∷ h.b18
    ∷ h.b19
    ∷ payload

-- A packet as the network delivers it. A `reply` is an echo reply, `icmp` any other ICMP message of
-- at least eight bytes, `other` a packet of another protocol.
pub data Packet : Type 0 where
  reply : IpFields → (c1 c2 identifier sequence_number : ℕ) → Bytes → Packet
  icmp : IpFields → (type code c1 c2 i1 i2 s1 s2 : ℕ) → Bytes → Packet
  other : IpFields → (proto : ℕ) → Bytes → Packet

abbrev pub packet_bytes : Packet → Bytes
packet_bytes (reply h c1 c2 identifier sequence_number body) = with_header h (28 + length body) 1 (
    0
    ∷ 0
    ∷ c1
    ∷ c2
    ∷ (identifier / 256)
    ∷ (identifier % 256)
    ∷ (sequence_number / 256)
    ∷ (sequence_number % 256)
    ∷ body)
packet_bytes (icmp h type code c1 c2 i1 i2 s1 s2 body) =
    with_header h (28 + length body) 1 (type ∷ code ∷ c1 ∷ c2 ∷ i1 ∷ i2 ∷ s1 ∷ s2 ∷ body)
packet_bytes (other h proto payload) = with_header h (20 + length payload) proto payload

-- The numbers fit two bytes, and the kind of the packet is what it says.
abbrev pub IsPacket : Packet → Type 0
IsPacket (reply h c1 c2 identifier sequence_number body) =
    (identifier < 65536) × (sequence_number < 65536) × (28 + length body < 65536)
IsPacket (icmp h type code c1 c2 i1 i2 s1 s2 body) =
    ((type ≢ 0) ⊎ (code ≢ 0)) × (28 + length body < 65536)
IsPacket (other h proto payload) = (proto ≢ 1) × (20 + length payload < 65536)

-- The tasks that a packet gives rise to.
abbrev pub packet_tasks : Packet → List Task
packet_tasks (reply h c1 c2 identifier sequence_number body) =
    notify (record { identifier = identifier; sequence_number = sequence_number; data_ = body })
    ∷ []
packet_tasks _ = []

abbrev pub ping_of : Bytes → List Task → Ping
ping_of buffer posted = record { data_buffer = buffer; posted = posted }

read_into-append : (body rest : Bytes) → read_into (length body) (body ++ rest) ≡ body
unfolding read_into
read_into-append [] rest = refl
read_into-append (b ∷ body) rest = ap (◌∷◌ b) (read_into-append body rest)

abbrev stream_of : Bytes → IpV4Stream
stream_of rest = record { rest = rest; failed = false }

abbrev ip_of : ℕ → ℕ → IpV4
ip_of total proto = record { length_ = total; proto = proto }

-- The handling of one packet once it has left the buffer.
notify_reply :
    (c1 c2 identifier sequence_number : ℕ) (body rest : Bytes) (ping : Ping)
    → identifier < 65536
    → sequence_number < 65536
    → notify_packet
        (ip_of (28 + length body) 1)
        (stream_of (
          0
          ∷ 0
          ∷ c1
          ∷ c2
          ∷ (identifier / 256)
          ∷ (identifier % 256)
          ∷ (sequence_number / 256)
          ∷ (sequence_number % 256)
          ∷ (body ++ rest)))
        ping
      ≡ ok (
        true,
        post
            (notify
              (record { identifier = identifier; sequence_number = sequence_number; data_ = body }))
            ping,
      )
unfolding notify_packet
notify_reply c1 c2 i s body rest ping hi hs =
    let n : 28 + length body - min_size - 8 ≡ length body = omega arith in
    rw (
      le→ltb-false (28 + length body) (min_size + 8) (omega arith),
      n,
      network_short-put i hi,
      network_short-put s hs,
      read_into-append body rest,
    )

notify_icmp :
    (type code c1 c2 i1 i2 s1 s2 total : ℕ) (rest : Bytes) (ping : Ping)
    → (type ≢ 0) ⊎ (code ≢ 0)
    → notify_packet
        (ip_of total 1)
        (stream_of (type ∷ code ∷ c1 ∷ c2 ∷ i1 ∷ i2 ∷ s1 ∷ s2 ∷ rest))
        ping
      ≡ ok (true, ping)
unfolding notify_packet
notify_icmp type code c1 c2 i1 i2 s1 s2 total rest ping h = ground arith

notify_other :
    (proto total : ℕ) (rest : Bytes) (ping : Ping)
    → proto ≢ 1
    → notify_packet (ip_of total proto) (stream_of rest) ping ≡ ok (true, ping)
unfolding notify_packet
notify_other proto total rest ping h = ground arith

-- `check_notify` with a whole packet at the front: the header is read and the packet discarded.
check_front :
    (h : IpFields) (total proto : ℕ) (payload rest : Bytes) (posted : List Task)
    → total < 65536
    → total ≡ 20 + length payload
    → check_notify (ping_of (with_header h total proto (payload ++ rest)) posted)
      ≡ notify_packet (ip_of total proto) (stream_of (payload ++ rest)) (ping_of rest posted)
unfolding check_notify
check_front h total proto payload rest posted fits e =
    let front = with_header h total proto payload in
    let buffer = with_header h total proto (payload ++ rest) in
    let sum = length-append payload rest in
    let whole : total ≡ length front = omega arith in
    let cut : drop total buffer ≡ rest =
      ap (λ (n : ℕ). drop n buffer) whole ∙ drop-append front rest in
    rw
      (
        le→ltb-false (length buffer) min_size (omega arith),
        network_short-put total fits,
        le→ltb-false (length buffer) total (omega arith),
      )
      (ap (λ b. notify_packet (ip_of total proto) (stream_of (payload ++ rest)) (ping_of b posted))
        cut)

-- If the numbers of a packet fit into their fields, one call takes the whole packet from the front of the buffer, posts the tasks of that packet and
-- asks to be called again.
pub check_notify-packet :
    (p : Packet) (rest : Bytes) (posted : List Task)
    → IsPacket p
    → check_notify (ping_of (packet_bytes p ++ rest) posted)
      ≡ ok (true, ping_of rest (posted ++ packet_tasks p))
check_notify-packet (reply h c1 c2 i s body) rest posted (hi, hs, fits) =
    check_front h (28 + length body) 1
      (0 ∷ 0 ∷ c1 ∷ c2 ∷ (i / 256) ∷ (i % 256) ∷ (s / 256) ∷ (s % 256) ∷ body) rest posted fits
      (omega arith)
    ∙ notify_reply c1 c2 i s body rest (ping_of rest posted) hi hs
    ∙ unfold post in refl
check_notify-packet (icmp h type code c1 c2 i1 i2 s1 s2 body) rest posted (kind, fits) =
    check_front h (28 + length body) 1 (type ∷ code ∷ c1 ∷ c2 ∷ i1 ∷ i2 ∷ s1 ∷ s2 ∷ body) rest
      posted fits (omega arith)
    ∙ notify_icmp type code c1 c2 i1 i2 s1 s2 (28 + length body) (body ++ rest)
        (ping_of rest posted) kind
    ∙ ap (λ t. ok (true, ping_of rest t)) (sym (append-nil posted))
check_notify-packet (other h proto payload) rest posted (kind, fits) =
    check_front h (20 + length payload) proto payload rest posted fits refl
    ∙ notify_other proto (20 + length payload) (payload ++ rest) (ping_of rest posted) kind
    ∙ ap (λ t. ok (true, ping_of rest t)) (sym (append-nil posted))

-- What is left over: less than a header, or a header that claims more bytes than are there.
abbrev pub IsPartial : Bytes → Type 0
IsPartial tail =
    (length tail < 20)
    ⊎ ((h : IpFields) × (total : ℕ) × (proto : ℕ) × (payload : Bytes) × (tail
          ≡ with_header h total proto payload)
        × (total < 65536)
        × (length tail < total))

-- Bytes that are fewer than a header, or fewer than the length in the header that they start with,
-- stay in the buffer.
pub check_notify-partial :
    (tail : Bytes) (posted : List Task)
    → IsPartial tail
    → check_notify (ping_of tail posted) ≡ ok (false, ping_of tail posted)
unfolding check_notify
check_notify-partial tail posted (inl short) = rw (lt→ltb (length tail) min_size short)
check_notify-partial tail posted (inr (h, total, proto, payload, e, fits, more)) = rw (
  le→ltb-false (length tail) min_size (rw e (omega arith)),
  e,
  network_short-put total fits,
  lt→ltb (length (with_header h total proto payload)) total (rw e at more),
)

abbrev pub all_bytes : List Packet → Bytes
all_bytes [] = []
all_bytes (p ∷ ps) = packet_bytes p ++ all_bytes ps

abbrev pub all_tasks : List Packet → List Task
all_tasks [] = []
all_tasks (p ∷ ps) = packet_tasks p ++ all_tasks ps

-- The buffer is empty, or not, behind a packet.
again_test : (tail : Bytes) → (tail ≡ []) ⊎ (not (length tail == 0) ≡ true)
again_test [] = inl refl
again_test (b ∷ tail) = inr (ground arith)

all_bytes-nil :
    (ps : List Packet) (tail : Bytes)
    → all_bytes ps ++ tail ≡ []
    → (all_tasks ps ≡ []) × (tail ≡ [])
all_bytes-nil [] tail e = (refl, e)
all_bytes-nil (reply _ _ _ _ _ _ ∷ ps) tail e = cc
all_bytes-nil (icmp _ _ _ _ _ _ _ _ _ _ ∷ ps) tail e = cc
all_bytes-nil (other _ _ _ ∷ ps) tail e = cc

-- However many packets have arrived, the loop takes them all in order, posts the tasks of each, and
-- stops with the incomplete rest in the buffer. One round more than there are packets is enough.
pub internal_check_notify-packets :
    (fuel : ℕ) (ps : List Packet) (tail : Bytes) (posted : List Task)
    → All IsPacket ps
    → IsPartial tail
    → length ps < fuel
    → internal_check_notify fuel (ping_of (all_bytes ps ++ tail) posted)
      ≡ ok (ping_of tail (posted ++ all_tasks ps))
unfolding internal_check_notify
internal_check_notify-packets zero ps tail posted h part lt = absurd (omega arith)
internal_check_notify-packets (suc fuel) [] tail posted h part lt =
    rw (check_notify-partial tail posted part)
      (ap (λ t. ok (ping_of tail t)) (sym (append-nil posted)))
internal_check_notify-packets (suc fuel) (p ∷ ps) tail posted (hp, hps) part lt =
    rw
      (
        append_assoc (packet_bytes p) (all_bytes ps) tail,
        check_notify-packet p (all_bytes ps ++ tail) posted hp,
      )
      (elim (again_test (all_bytes ps ++ tail)) [
        | inl empty ↦
            let (none_left, no_tail) = all_bytes-nil ps tail empty in
            rw (empty, none_left, no_tail, append-nil)
        | inr more ↦ rw more (
            internal_check_notify-packets fuel ps tail (posted ++ packet_tasks p) hps part
              (omega arith)
            ∙ ap (λ t. ok (ping_of tail t)) (append_assoc posted (packet_tasks p) (all_tasks ps)))
      ])
