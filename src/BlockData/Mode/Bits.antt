-- ===== src/BlockData/Mode/Bits.antt =====
-- The bits of a `mode_t` and the modes of lib/src/block/block_data/mode.cc: what each way keeps.
use pingfs.Base.{
  ℕ, ◌+◌, ◌/◌, ◌%◌, ◌^◌, ◌<◌, ◌*◌, false, ◌==◌, Bool, true, ◌&&◌, ◌≡◌, refl, Result, ok, fail,
  Failure, ◌>>=◌, arith, if◌then◌else◌, &&-true, ==_iff, ap, ◌∙◌,
}
use Prim.Native.Nat.{bit_and}
use pingfs.Base.Bits.{
  low_part, high_part, bit_and-low_part, bit_and-pow, all_below, all_below_sound,
}
use pingfs.BlockData.FileType
use pingfs.BlockData.FileType.{FileType, s_ifdir, s_ifreg}
use pingfs.BlockData.ReadWriteExecute.{ReadWriteExecute, rwe_beq, all_rwe, all_rwe_sound}
use pingfs.BlockData.Mode.{
  Mode, mode_beq, mode_beq_iff, bits_set, user_mode_from_mode_t, group_mode_from_mode_t,
  other_mode_from_mode_t, of_mode_t, get_user_mode_t, get_group_mode_t, get_other_mode_t, to_mode_t,
}

abbrev mode_of : ℕ → FileType → Mode
mode_of bits t = record {
  user_mode = user_mode_from_mode_t bits;
  group_mode = group_mode_from_mode_t bits;
  other_mode = other_mode_from_mode_t bits;
  file_type = t;
}

-- A mask of permissions reads the lowest nine bits.
bits_set-low : (x m : ℕ) → m < 2 ^ 9 → bits_set x m ≡ bits_set (x % 512) m
unfolding bits_set
bits_set-low x m h =
    let e : low_part 9 x ≡ x % 512 = omega arith in
    ap (λ t. t == m) (bit_and-low_part 9 x m h ∙ ap (λ t. bit_and t m) e)

module _ (x : ℕ) where
  user-low : user_mode_from_mode_t x ≡ user_mode_from_mode_t (x % 512)
  unfolding user_mode_from_mode_t
  user-low = rw (
    bits_set-low x 0o700 (omega arith),
    bits_set-low x 0o600 (omega arith),
    bits_set-low x 0o500 (omega arith),
    bits_set-low x 0o400 (omega arith),
    bits_set-low x 0o300 (omega arith),
    bits_set-low x 0o200 (omega arith),
    bits_set-low x 0o100 (omega arith),
  )

  group-low : group_mode_from_mode_t x ≡ group_mode_from_mode_t (x % 512)
  unfolding group_mode_from_mode_t
  group-low = rw (
    bits_set-low x 0o70 (omega arith),
    bits_set-low x 0o60 (omega arith),
    bits_set-low x 0o50 (omega arith),
    bits_set-low x 0o40 (omega arith),
    bits_set-low x 0o30 (omega arith),
    bits_set-low x 0o20 (omega arith),
    bits_set-low x 0o10 (omega arith),
  )

  other-low : other_mode_from_mode_t x ≡ other_mode_from_mode_t (x % 512)
  unfolding other_mode_from_mode_t
  other-low = rw (
    bits_set-low x 0o7 (omega arith),
    bits_set-low x 0o6 (omega arith),
    bits_set-low x 0o5 (omega arith),
    bits_set-low x 0o4 (omega arith),
    bits_set-low x 0o3 (omega arith),
    bits_set-low x 0o2 (omega arith),
    bits_set-low x 0o1 (omega arith),
  )

  mode_of-low : (t : FileType) → mode_of x t ≡ mode_of (x % 512) t
  mode_of-low t = rw (user-low, group-low, other-low)

to_mode_t_table :
    all_below
      (λ lo.
        (to_mode_t (mode_of lo FileType.dir) == (s_ifdir + lo))
        && (to_mode_t (mode_of lo FileType.regular) == (s_ifreg + lo)))
      512
    ≡ true
unfolding all_below to_mode_t user_mode_from_mode_t group_mode_from_mode_t other_mode_from_mode_t
    bits_set get_user_mode_t get_group_mode_t get_other_mode_t FileType.to_mode
to_mode_t_table = refl

to_mode_t-dir : (x : ℕ) → x < 512 → to_mode_t (mode_of x FileType.dir) ≡ s_ifdir + x
to_mode_t-dir x h = (==_iff _ _).0 ((&&-true _ _ (all_below_sound _ 512 x to_mode_t_table h)).0)

to_mode_t-regular : (x : ℕ) → x < 512 → to_mode_t (mode_of x FileType.regular) ≡ s_ifreg + x
to_mode_t-regular x h = (==_iff _ _).0 ((&&-true _ _ (all_below_sound _ 512 x to_mode_t_table h)).1)

dir_bit : (x : ℕ) → bit_and x s_ifdir ≡ x / 2 ^ 14 % 2 * 2 ^ 14
dir_bit x =
    let e : high_part 14 x ≡ x / 2 ^ 14 = omega arith in
    bit_and-pow 14 x ∙ ap (λ t. t % 2 * 2 ^ 14) e

regular_bit : (x : ℕ) → bit_and x s_ifreg ≡ x / 2 ^ 15 % 2 * 2 ^ 15
regular_bit x =
    let e : high_part 15 x ≡ x / 2 ^ 15 = omega arith in
    bit_and-pow 15 x ∙ ap (λ t. t % 2 * 2 ^ 15) e

from_mode_t_bits :
    (x : ℕ)
    → FileType.from_mode_t x ≡ (
        if x / 2 ^ 14 % 2 == 1
        then ok FileType.dir
        else if x / 2 ^ 15 % 2 == 1
        then ok FileType.regular
        else fail Failure.thrown)
unfolding FileType.from_mode_t
from_mode_t_bits x = ground (arith, dir_bit x, regular_bit x)

-- Reading a `mode_t` and writing it back keeps the nine permission bits and one bit of the type:
-- bit 14 if it is set, else bit 15 if that is set. All other bits are dropped, and where bits 14
-- and 15 are both clear the constructor throws.
pub to_mode_t-of_mode_t :
    (x : ℕ)
    → (of_mode_t x >>= λ m. ok (to_mode_t m)) ≡ (
        if x / 2 ^ 14 % 2 == 1
        then ok (s_ifdir + x % 512)
        else if x / 2 ^ 15 % 2 == 1
        then ok (s_ifreg + x % 512)
        else fail Failure.thrown)
unfolding of_mode_t
to_mode_t-of_mode_t x = rw (from_mode_t_bits x) (
    ground (
      arith,
      mode_of-low x FileType.dir,
      mode_of-low x FileType.regular,
      to_mode_t-dir (x % 512) (omega arith),
      to_mode_t-regular (x % 512) (omega arith),
    ))

abbrev mode_at : FileType → ReadWriteExecute → ReadWriteExecute → ReadWriteExecute → Mode
mode_at t u g o = record { user_mode = u; group_mode = g; other_mode = o; file_type = t }

returns_mode : Result Mode → Mode → Bool
returns_mode (ok m) m' = mode_beq m m'
returns_mode (fail e) m' = false

returns_mode_sound : (r : Result Mode) (m : Mode) → returns_mode r m ≡ true → r ≡ ok m
unfolding returns_mode
returns_mode_sound (ok m') m h = ap ok ((mode_beq_iff m' m).0 h)
returns_mode_sound (fail e) m h = cc

abbrev reads_back : FileType → ReadWriteExecute → ReadWriteExecute → ReadWriteExecute → Bool
reads_back t u g o = returns_mode (of_mode_t (to_mode_t (mode_at t u g o))) (mode_at t u g o)

reads_back_table :
    (t : FileType) → all_rwe (λ u. all_rwe (λ g. all_rwe (λ o. reads_back t u g o))) ≡ true
unfolding all_rwe returns_mode mode_beq rwe_beq FileType.file_type_beq of_mode_t to_mode_t
    user_mode_from_mode_t group_mode_from_mode_t other_mode_from_mode_t bits_set get_user_mode_t
    get_group_mode_t get_other_mode_t FileType.to_mode FileType.from_mode_t
reads_back_table FileType.dir = refl
reads_back_table FileType.regular = refl

-- Writing a mode as a `mode_t` and reading it back gives the same mode, for every mode.
pub of_mode_t-to_mode_t : (m : Mode) → of_mode_t (to_mode_t m) ≡ ok m
of_mode_t-to_mode_t m =
    let t = reads_back_table m.file_type in
    let t' = all_rwe_sound _ m.user_mode t in
    let t'' = all_rwe_sound _ m.group_mode t' in
    returns_mode_sound _ _ (all_rwe_sound _ m.other_mode t'')
