-- ===== src/Ping/EchoRequest/Checksum.antt =====
-- The checksum of lib/src/ping/echo_request.cc against the definition of RFC 1071: the 16-bit words
-- of the message, its checksum included, add up to a multiple of 65535.
use pingfs.Base.{
  ℕ, suc, ◌+◌, ◌-◌, ◌*◌, ◌/◌, ◌%◌, ◌^◌, ◌≤◌, ◌<◌, ◌==◌, ltb, if◌then◌else◌, [], ◌∷◌, Bytes, length,
  All, ◌≡◌, refl, arith, ◌∙◌, ap, Bool-cases, ltb→lt, ltb-false→le, inl, inr,
}
use pingfs.Ping.Shorts.{swap_bytes, swap_bytes_twice, put_short}
use pingfs.Ping.EchoRequest.{echo_request, to_bytes, checksum, checksum_loop, wrap32}

abbrev pub IsBytes : Bytes → Type 0
IsBytes = All (λ b. b < 256)

-- The sum of the big-endian words; `i` is the index of the first byte.
unfoldable pub word_sum : ℕ → Bytes → ℕ
word_sum i [] = 0
word_sum i (v ∷ s) = (if i % 2 == 0 then v * 256 else v) + word_sum (suc i) s

word_sum-suc-suc : (i : ℕ) (s : Bytes) → word_sum (suc (suc i)) s ≡ word_sum i s
unfolding word_sum
word_sum-suc-suc i [] = refl
word_sum-suc-suc i (v ∷ s) = ground (arith, word_sum-suc-suc (suc i) s)

word_sum-le : (i : ℕ) (s : Bytes) → IsBytes s → word_sum i s ≤ 65280 * length s
unfolding word_sum
word_sum-le i [] h = omega arith
word_sum-le i (v ∷ s) h = ground (arith, word_sum-le (suc i) s h.1)

-- While the sum fits 32 bits the loop adds the words.
checksum_loop-word_sum :
    (i : ℕ) (s : Bytes) (sum : ℕ)
    → sum + word_sum i s < 2 ^ 32
    → checksum_loop i s sum ≡ sum + word_sum i s
unfolding checksum_loop word_sum
checksum_loop-word_sum i [] sum h = omega arith
checksum_loop-word_sum i (v ∷ s) sum h =
    ground
      (arith, checksum_loop-word_sum (suc i) s (wrap32 (sum + (if i % 2 == 0 then v * 256 else v))))

-- The sum that is folded: type, code, identifier, sequence number and body.
abbrev pub unfolded_sum : ℕ → ℕ → Bytes → ℕ
unfolded_sum identifier sequence_number body = 2048 + identifier + sequence_number + word_sum 0 body

-- The complement of the low half of `n` once the high half has been added, once.
abbrev complement : ℕ → ℕ
complement n = (2 ^ 32 - 1 - (n + n / 65536)) % 65536

word_sum_eight : (s : Bytes) → word_sum 8 s ≡ word_sum 0 s
word_sum_eight s =
    word_sum-suc-suc 6 s ∙ word_sum-suc-suc 4 s ∙ word_sum-suc-suc 2 s ∙ word_sum-suc-suc 0 s

-- Halves that do not carry fold to a complement; halves that carry leave one too many.
complement_exact :
    (n : ℕ) → n < 2 ^ 32 - 65536 → n % 65536 + n / 65536 < 65536 → (n + complement n) % 65535 ≡ 0
complement_exact n small h =
    let c : complement n ≡ 65535 - (n % 65536 + n / 65536) = omega arith in
    let e : n + complement n ≡ (n / 65536 + 1) * 65535 = omega arith in rw e (omega arith)

complement_carry :
    (n : ℕ) → n < 2 ^ 32 - 65536 → 65536 ≤ n % 65536 + n / 65536 → (n + complement n) % 65535 ≡ 1
complement_carry n small h =
    let e : n + complement n ≡ (n / 65536 + 2) * 65535 + 1 = omega arith in rw e (omega arith)

module _ (identifier sequence_number : ℕ) (body : Bytes) (id_fits : identifier < 65536)
    (seq_fits : sequence_number < 65536) (bytes : IsBytes body) (len : length body ≤ 65535) where
  checksum-complement :
      checksum identifier sequence_number body
      ≡ swap_bytes (complement (unfolded_sum identifier sequence_number body))
  unfolding checksum
  checksum-complement =
      let bound = word_sum-le 0 body bytes in
      let start : wrap32 (8 * 256 + 0 + identifier + sequence_number)
          ≡ 2048 + identifier + sequence_number =
        omega arith in
      let looped =
        checksum_loop-word_sum 0 body (2048 + identifier + sequence_number)
          (omega (arith, bound)) in
      rw (start, looped) (ap swap_bytes (omega (arith, bound)))

  -- For an identifier and a sequence number of 16 bits and a body of at most 65535 bytes, over the
  -- whole message the words add up to a multiple of 65535, as RFC 1071 asks, exactly if the
  -- two halves of the unfolded sum add up with no carry; where they carry, the sum is one more
  -- than a multiple, since the code adds the high half once only.
  pub word_sum-to_bytes :
      word_sum 0 (to_bytes (echo_request identifier sequence_number body)) % 65535 ≡ (
        if ltb
          (unfolded_sum identifier sequence_number body % 65536
            + unfolded_sum identifier sequence_number body / 65536)
          65536
        then 0
        else 1)
  unfolding to_bytes echo_request word_sum put_short
  word_sum-to_bytes =
      rw
        (
          checksum-complement,
          swap_bytes_twice (complement (unfolded_sum identifier sequence_number body))
              (omega arith),
        )
        (elim (Bool-cases (ltb (total % 65536 + total / 65536) 65536)) [
          | inl fits ↦
              rw fits (ap (λ n. n % 65535) regroup ∙ complement_exact total small (ltb→lt _ _ fits))
          | inr carries ↦ rw carries (
              ap (λ n. n % 65535) regroup ∙ complement_carry total small (ltb-false→le _ _ carries))
        ])
    where
      total : ℕ
      total = unfolded_sum identifier sequence_number body

      small : total < 2 ^ 32 - 65536
      small = omega (arith, word_sum-le 0 body bytes)

      regroup :
          2048
            + (0
                + (complement total / 256 * 256
                    + (complement total % 256
                        + (identifier / 256 * 256
                            + (identifier % 256
                                + (sequence_number / 256 * 256
                                    + (sequence_number % 256 + word_sum 8 body)))))))
          ≡ total + complement total
      regroup = omega (arith, word_sum_eight body)
