-- ===== src/BlockData/Mode.antt =====
-- lib/src/block/block_data/mode.cc: the permissions and the type of a file, and the bits of a
-- `mode_t` that stand for them.
pub mod Bits
use pingfs.Base.{
  beq_self, ℕ, ◌==◌, Bool, ◌&&◌, ◌≡◌, refl, Eq, Result, ok, ◌>>=◌, arith, if◌then◌else◌, Option,
  some, ◌↔◌, true, &&-true,
}
use mathlib.Core.Option
use Prim.Native.Nat.{bit_and, bit_or}
use pingfs.BlockData.FileType
use pingfs.BlockData.FileType.{FileType, FileTypeProto, file_type_eq}
use pingfs.BlockData.ReadWriteExecute
use pingfs.BlockData.ReadWriteExecute.{ReadWriteExecute, ReadWriteExecuteProto, rwe_eq}
use pingfs.BlockData.ReadWriteExecute.ReadWriteExecute.{
  none, read, read_write, read_execute, read_write_execute, write, write_execute, execute,
}

pub record Mode : Type 0 where
  pub user_mode : ReadWriteExecute
  pub group_mode : ReadWriteExecute
  pub other_mode : ReadWriteExecute
  pub file_type : FileType

-- The octal constants of sys/stat.h.
abbrev pub s_irusr : ℕ
s_irusr = 0o400

abbrev pub s_iwusr : ℕ
s_iwusr = 0o200

abbrev pub s_ixusr : ℕ
s_ixusr = 0o100

abbrev pub s_irgrp : ℕ
s_irgrp = 0o40

abbrev pub s_iwgrp : ℕ
s_iwgrp = 0o20

abbrev pub s_ixgrp : ℕ
s_ixgrp = 0o10

abbrev pub s_iroth : ℕ
s_iroth = 0o4

abbrev pub s_iwoth : ℕ
s_iwoth = 0o2

abbrev pub s_ixoth : ℕ
s_ixoth = 0o1

unfoldable pub bits_set : ℕ → ℕ → Bool
bits_set target bits_to_check = bit_and target bits_to_check == bits_to_check

unfoldable pub user_mode_from_mode_t : ℕ → ReadWriteExecute
user_mode_from_mode_t mode =
    if bits_set mode (bit_or (bit_or s_irusr s_iwusr) s_ixusr)
    then read_write_execute
    else if bits_set mode (bit_or s_irusr s_iwusr)
    then read_write
    else if bits_set mode (bit_or s_irusr s_ixusr)
    then read_execute
    else if bits_set mode s_irusr
    then read
    else if bits_set mode (bit_or s_iwusr s_ixusr)
    then write_execute
    else if bits_set mode s_iwusr
    then write
    else if bits_set mode s_ixusr
    then execute
    else none

unfoldable pub group_mode_from_mode_t : ℕ → ReadWriteExecute
group_mode_from_mode_t mode =
    if bits_set mode (bit_or (bit_or s_irgrp s_iwgrp) s_ixgrp)
    then read_write_execute
    else if bits_set mode (bit_or s_irgrp s_iwgrp)
    then read_write
    else if bits_set mode (bit_or s_irgrp s_ixgrp)
    then read_execute
    else if bits_set mode s_irgrp
    then read
    else if bits_set mode (bit_or s_iwgrp s_ixgrp)
    then write_execute
    else if bits_set mode s_iwgrp
    then write
    else if bits_set mode s_ixgrp
    then execute
    else none

unfoldable pub other_mode_from_mode_t : ℕ → ReadWriteExecute
other_mode_from_mode_t mode =
    if bits_set mode (bit_or (bit_or s_iroth s_iwoth) s_ixoth)
    then read_write_execute
    else if bits_set mode (bit_or s_iroth s_iwoth)
    then read_write
    else if bits_set mode (bit_or s_iroth s_ixoth)
    then read_execute
    else if bits_set mode s_iroth
    then read
    else if bits_set mode (bit_or s_iwoth s_ixoth)
    then write_execute
    else if bits_set mode s_iwoth
    then write
    else if bits_set mode s_ixoth
    then execute
    else none

-- The constructor from a `mode_t`, which throws where the type of the file is not known.
unfoldable pub of_mode_t : ℕ → Result Mode
of_mode_t mode = FileType.from_mode_t mode >>= λ file_type. ok (record {
  user_mode = user_mode_from_mode_t mode;
  group_mode = group_mode_from_mode_t mode;
  other_mode = other_mode_from_mode_t mode;
  file_type = file_type;
})

unfoldable pub get_user_mode_t : ReadWriteExecute → ℕ
get_user_mode_t none = 0
get_user_mode_t read = s_irusr
get_user_mode_t read_write = bit_or s_irusr s_iwusr
get_user_mode_t read_execute = bit_or s_irusr s_ixusr
get_user_mode_t read_write_execute = bit_or (bit_or s_irusr s_iwusr) s_ixusr
get_user_mode_t write = s_iwusr
get_user_mode_t write_execute = bit_or s_iwusr s_ixusr
get_user_mode_t execute = s_ixusr

unfoldable pub get_group_mode_t : ReadWriteExecute → ℕ
get_group_mode_t none = 0
get_group_mode_t read = s_irgrp
get_group_mode_t read_write = bit_or s_irgrp s_iwgrp
get_group_mode_t read_execute = bit_or s_irgrp s_ixgrp
get_group_mode_t read_write_execute = bit_or (bit_or s_irgrp s_iwgrp) s_ixgrp
get_group_mode_t write = s_iwgrp
get_group_mode_t write_execute = bit_or s_iwgrp s_ixgrp
get_group_mode_t execute = s_ixgrp

unfoldable pub get_other_mode_t : ReadWriteExecute → ℕ
get_other_mode_t none = 0
get_other_mode_t read = s_iroth
get_other_mode_t read_write = bit_or s_iroth s_iwoth
get_other_mode_t read_execute = bit_or s_iroth s_ixoth
get_other_mode_t read_write_execute = bit_or (bit_or s_iroth s_iwoth) s_ixoth
get_other_mode_t write = s_iwoth
get_other_mode_t write_execute = bit_or s_iwoth s_ixoth
get_other_mode_t execute = s_ixoth

unfoldable pub to_mode_t : Mode → ℕ
to_mode_t m =
    bit_or
      (bit_or (bit_or (FileType.to_mode m.file_type) (get_user_mode_t m.user_mode))
        (get_group_mode_t m.group_mode))
      (get_other_mode_t m.other_mode)

unfoldable pub mode_beq : Mode → Mode → Bool
mode_beq a b =
    ReadWriteExecute.rwe_beq a.user_mode b.user_mode
    && (ReadWriteExecute.rwe_beq a.group_mode b.group_mode
        && (ReadWriteExecute.rwe_beq a.other_mode b.other_mode
            && FileType.file_type_beq a.file_type b.file_type))

-- `ModeProto` of proto/block_data.proto: a field that is not set reads as the first value of its
-- enumeration.
pub record ModeProto : Type 0 where
  pub user_mode : Option ReadWriteExecuteProto
  pub group_mode : Option ReadWriteExecuteProto
  pub other_mode : Option ReadWriteExecuteProto
  pub file_type : Option FileTypeProto

-- The constructor from a `ModeProto`.
unfoldable pub from_proto : ModeProto → Result Mode
from_proto proto = do
  user_mode ←
      ReadWriteExecute.from_proto (Option.get_or proto.user_mode ReadWriteExecuteProto.unknown)
  group_mode ←
      ReadWriteExecute.from_proto (Option.get_or proto.group_mode ReadWriteExecuteProto.unknown)
  other_mode ←
      ReadWriteExecute.from_proto (Option.get_or proto.other_mode ReadWriteExecuteProto.unknown)
  file_type ← FileType.from_proto (Option.get_or proto.file_type FileTypeProto.unknown)
  ok (record {
    user_mode = user_mode;
    group_mode = group_mode;
    other_mode = other_mode;
    file_type = file_type;
  })

-- `gen_proto` sets every field of the message it is given.
unfoldable pub gen_proto : Mode → ModeProto → ModeProto
gen_proto m proto = record {
  user_mode = some (ReadWriteExecute.gen_proto m.user_mode);
  group_mode = some (ReadWriteExecute.gen_proto m.group_mode);
  other_mode = some (ReadWriteExecute.gen_proto m.other_mode);
  file_type = some (FileType.gen_proto m.file_type);
}

mode_beq_sound : (a b : Mode) → mode_beq a b ≡ true → a ≡ b
unfolding mode_beq
mode_beq_sound a b h = ground (
  arith,
  (ReadWriteExecute.rwe_beq_iff a.user_mode b.user_mode).0,
  (ReadWriteExecute.rwe_beq_iff a.group_mode b.group_mode).0,
  (ReadWriteExecute.rwe_beq_iff a.other_mode b.other_mode).0,
  (FileType.file_type_beq_iff a.file_type b.file_type).0,
)

mode_beq_self : (a : Mode) → mode_beq a a ≡ true
unfolding mode_beq
mode_beq_self a =
    rw (beq_self a.user_mode, beq_self a.group_mode, beq_self a.other_mode, beq_self a.file_type)

pub mode_beq_iff : (a b : Mode) → (mode_beq a b ≡ true) ↔ (a ≡ b)
mode_beq_iff a b = (mode_beq_sound a b, λ h. rw h (mode_beq_self b))

instance abbrev pub mode_eq : Eq Mode
mode_eq = record { beq = mode_beq; beq_iff = mode_beq_iff }

pub from_proto-gen_proto : (m : Mode) (proto : ModeProto) → from_proto (gen_proto m proto) ≡ ok m
unfolding from_proto gen_proto
from_proto-gen_proto m proto = rw (
  ReadWriteExecute.from_proto-gen_proto m.user_mode,
  ReadWriteExecute.from_proto-gen_proto m.group_mode,
  ReadWriteExecute.from_proto-gen_proto m.other_mode,
  FileType.from_proto-gen_proto m.file_type,
)
