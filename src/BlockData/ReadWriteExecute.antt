-- ===== src/BlockData/ReadWriteExecute.antt =====
-- lib/include/pingfs/block/block_data/read_write_execute.hpp: permissions of one class of users,
-- and the enumeration of proto/block_data.proto that stands for them on the wire.
use pingfs.Base.{ℕ, ◌==◌, ==-self, Bool, true, ◌&&◌, ◌≡◌, ◌↔◌, Eq, Result, ok, fail, Failure, arith}
use Failure.{thrown}

pub data ReadWriteExecute : Type 0 where
  none read read_write read_execute read_write_execute write write_execute execute :
      ReadWriteExecute

-- `READ_WRITE_EXECUTE_PROTO_UNKNOWN` is the default of a field that is not set.
pub data ReadWriteExecuteProto : Type 0 where
  unknown none read read_write read_execute read_write_execute write write_execute execute :
      ReadWriteExecuteProto

-- The value that the enumeration gives a constructor, by which `==` compares.
unfoldable pub rank : ReadWriteExecute → ℕ
rank ReadWriteExecute.none = 0
rank ReadWriteExecute.read = 1
rank ReadWriteExecute.read_write = 2
rank ReadWriteExecute.read_execute = 3
rank ReadWriteExecute.read_write_execute = 4
rank ReadWriteExecute.write = 5
rank ReadWriteExecute.write_execute = 6
rank ReadWriteExecute.execute = 7

unfoldable pub rwe_beq : ReadWriteExecute → ReadWriteExecute → Bool
unfolding rank
rwe_beq a b = rank a == rank b

rwe_beq_sound : (a b : ReadWriteExecute) → rwe_beq a b ≡ true → a ≡ b
unfolding rwe_beq
rwe_beq_sound a b = ground arith

pub rwe_beq_iff : (a b : ReadWriteExecute) → (rwe_beq a b ≡ true) ↔ (a ≡ b)
unfolding rwe_beq
rwe_beq_iff a b = (rwe_beq_sound a b, λ h. rw h (==-self (rank b)))

instance abbrev pub rwe_eq : Eq ReadWriteExecute
rwe_eq = record { beq = rwe_beq; beq_iff = rwe_beq_iff }

-- `ReadWriteExecuteFactory::from_proto`.
unfoldable pub from_proto : ReadWriteExecuteProto → Result ReadWriteExecute
from_proto ReadWriteExecuteProto.unknown = fail thrown
from_proto ReadWriteExecuteProto.none = ok ReadWriteExecute.none
from_proto ReadWriteExecuteProto.read = ok ReadWriteExecute.read
from_proto ReadWriteExecuteProto.read_write = ok ReadWriteExecute.read_write
from_proto ReadWriteExecuteProto.read_execute = ok ReadWriteExecute.read_execute
from_proto ReadWriteExecuteProto.read_write_execute = ok ReadWriteExecute.read_write_execute
from_proto ReadWriteExecuteProto.write = ok ReadWriteExecute.write
from_proto ReadWriteExecuteProto.write_execute = ok ReadWriteExecute.write_execute
from_proto ReadWriteExecuteProto.execute = ok ReadWriteExecute.execute

-- `ReadWriteExecuteFactory::gen_proto`, which writes the value through its pointer.
unfoldable pub gen_proto : ReadWriteExecute → ReadWriteExecuteProto
gen_proto ReadWriteExecute.none = ReadWriteExecuteProto.none
gen_proto ReadWriteExecute.read = ReadWriteExecuteProto.read
gen_proto ReadWriteExecute.read_write = ReadWriteExecuteProto.read_write
gen_proto ReadWriteExecute.read_execute = ReadWriteExecuteProto.read_execute
gen_proto ReadWriteExecute.read_write_execute = ReadWriteExecuteProto.read_write_execute
gen_proto ReadWriteExecute.write = ReadWriteExecuteProto.write
gen_proto ReadWriteExecute.write_execute = ReadWriteExecuteProto.write_execute
gen_proto ReadWriteExecute.execute = ReadWriteExecuteProto.execute

pub from_proto-gen_proto : (a : ReadWriteExecute) → from_proto (gen_proto a) ≡ ok a
unfolding from_proto gen_proto
from_proto-gen_proto a = ground arith

-- A test of every value, and what it shows.
unfoldable pub all_rwe : (ReadWriteExecute → Bool) → Bool
all_rwe p =
    p ReadWriteExecute.none
    && p ReadWriteExecute.read
    && p ReadWriteExecute.read_write
    && p ReadWriteExecute.read_execute
    && p ReadWriteExecute.read_write_execute
    && p ReadWriteExecute.write
    && p ReadWriteExecute.write_execute
    && p ReadWriteExecute.execute

pub all_rwe_sound :
    (p : ReadWriteExecute → Bool) (a : ReadWriteExecute) → all_rwe p ≡ true → p a ≡ true
unfolding all_rwe
all_rwe_sound p ReadWriteExecute.none h = ground arith
all_rwe_sound p ReadWriteExecute.read h = ground arith
all_rwe_sound p ReadWriteExecute.read_write h = ground arith
all_rwe_sound p ReadWriteExecute.read_execute h = ground arith
all_rwe_sound p ReadWriteExecute.read_write_execute h = ground arith
all_rwe_sound p ReadWriteExecute.write h = ground arith
all_rwe_sound p ReadWriteExecute.write_execute h = ground arith
all_rwe_sound p ReadWriteExecute.execute h = ground arith
