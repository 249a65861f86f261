-- ===== src/BlockData/FileType.antt =====
-- lib/include/pingfs/block/block_data/file_type.hpp: directory or regular file.
use pingfs.Base.{
  ℕ, ltb, Bool, true, false, ◌≡◌, refl, ◌↔◌, Eq, Result, ok, fail, Failure, arith, if◌then◌else◌,
}
use Prim.Native.Nat.{bit_and}
use Failure.{thrown}

pub data FileType : Type 0 where
  dir regular : FileType

-- `FILE_TYPE_PROTO_UNKNOWN` is the default of a field that is not set.
pub data FileTypeProto : Type 0 where
  unknown dir regular : FileTypeProto

-- The octal constants of sys/stat.h.
abbrev pub s_ifdir : ℕ
s_ifdir = 0o40000

abbrev pub s_ifreg : ℕ
s_ifreg = 0o100000

unfoldable pub file_type_beq : FileType → FileType → Bool
file_type_beq FileType.dir FileType.dir = true
file_type_beq FileType.regular FileType.regular = true
file_type_beq _ _ = false

pub file_type_beq_iff : (a b : FileType) → (file_type_beq a b ≡ true) ↔ (a ≡ b)
unfolding file_type_beq
file_type_beq_iff a b = (ground arith, ground arith)

instance abbrev pub file_type_eq : Eq FileType
file_type_eq = record { beq = file_type_beq; beq_iff = file_type_beq_iff }

unfoldable pub from_proto : FileTypeProto → Result FileType
from_proto FileTypeProto.unknown = fail thrown
from_proto FileTypeProto.dir = ok FileType.dir
from_proto FileTypeProto.regular = ok FileType.regular

unfoldable pub to_mode : FileType → ℕ
to_mode FileType.dir = s_ifdir
to_mode FileType.regular = s_ifreg

unfoldable pub from_mode_t : ℕ → Result FileType
from_mode_t mode =
    if ltb 0 (bit_and mode s_ifdir)
    then ok FileType.dir
    else if ltb 0 (bit_and mode s_ifreg)
    then ok FileType.regular
    else fail thrown

unfoldable pub gen_proto : FileType → FileTypeProto
gen_proto FileType.dir = FileTypeProto.dir
gen_proto FileType.regular = FileTypeProto.regular

pub from_proto-gen_proto : (a : FileType) → from_proto (gen_proto a) ≡ ok a
unfolding from_proto gen_proto
from_proto-gen_proto FileType.dir = refl
from_proto-gen_proto FileType.regular = refl
