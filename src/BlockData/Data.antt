-- ===== src/BlockData/Data.antt =====
-- lib/src/block/block_data: the three kinds of block data, their equality, and the messages that
-- proto/block_data.proto gives for them.
use pingfs.Base.{
  ℕ, Bool, false, ◌&&◌, nat_eq, list_beq, Option, some, none, List, [], ◌∷◌, ◌++◌, Bytes, Result,
  ok, fail, Failure, ◌>>=◌,
}
use Failure.{thrown}
use mathlib.Core.Option
use pingfs.BlockData.Stat
use pingfs.BlockData.Stat.{Stat, StatProto, stat_beq, stat_beq_iff, empty_mode_proto}

abbrev pub BlockId : Type 0
BlockId = ℕ

pub record DirFileBlockData : Type 0 where
  pub name : Bytes
  pub stat : Stat
  pub children : List BlockId

pub record LinkBlockData : Type 0 where
  pub children : List BlockId

pub record FileContentsBlockData : Type 0 where
  pub data_ : Bytes

-- The class `BlockData` has these three subclasses.
pub data BlockData : Type 0 where
  dir_file : DirFileBlockData → BlockData
  link : LinkBlockData → BlockData
  file_contents : FileContentsBlockData → BlockData

-- The constructor that copies an inode with other children.
unfoldable pub with_children : DirFileBlockData → List BlockId → DirFileBlockData
with_children other new_children = record other { children = new_children }

unfoldable pub is_dir : DirFileBlockData → Bool
is_dir d = Stat.is_dir d.stat

-- `operator==`: the `dynamic_cast` of the argument fails unless it is of the same class.
unfoldable pub data_beq : BlockData → BlockData → Bool
data_beq (dir_file a) (dir_file b) =
    list_beq a.name b.name && (list_beq a.children b.children && stat_beq a.stat b.stat)
data_beq (link a) (link b) = list_beq a.children b.children
data_beq (file_contents a) (file_contents b) = list_beq a.data_ b.data_
data_beq _ _ = false

-- The messages. A text that is not set reads as empty.
pub record DirFileProto : Type 0 where
  pub name : Option Bytes
  pub stat : Option StatProto
  pub children : List ℕ

pub record LinkProto : Type 0 where
  pub children : List ℕ

pub record FileContentsProto : Type 0 where
  pub data_ : Option Bytes

-- The `oneof` of `BlockDataProto`.
pub data BlockDataProto : Type 0 where
  not_set : BlockDataProto
  dir_file : DirFileProto → BlockDataProto
  link : LinkProto → BlockDataProto
  file_contents : FileContentsProto → BlockDataProto

abbrev pub empty_stat_proto : StatProto
empty_stat_proto = record {
  mode = none;
  uid = none;
  gid = none;
  size = none;
  access_time = none;
  mod_time = none;
  status_change_time = none;
}

-- `iters_to_vector` copies a repeated field element by element.
unfoldable pub iters_to_vector : List ℕ → List BlockId → List BlockId
iters_to_vector [] vec = vec
iters_to_vector (x ∷ repeated_field) vec = iters_to_vector repeated_field (vec ++ x ∷ [])

-- The loops of `gen_proto` add each child behind those that the message has.
unfoldable pub add_children : List BlockId → List ℕ → List ℕ
add_children [] proto_children = proto_children
add_children (c ∷ children) proto_children = add_children children (proto_children ++ c ∷ [])

-- The constructors from messages.
unfoldable pub dir_file_of_proto : DirFileProto → Result DirFileBlockData
dir_file_of_proto proto = do
  stat ← Stat.from_proto (Option.get_or proto.stat empty_stat_proto)
  ok (record {
    name = Option.get_or proto.name [];
    stat = stat;
    children = iters_to_vector proto.children [];
  })

unfoldable pub link_of_proto : LinkProto → LinkBlockData
link_of_proto proto = record { children = iters_to_vector proto.children [] }

unfoldable pub file_contents_of_proto : FileContentsProto → FileContentsBlockData
file_contents_of_proto proto = record { data_ = Option.get_or proto.data_ [] }

-- `BlockDataFactory::generate`.
unfoldable pub generate : BlockDataProto → Result BlockData
unfolding dir_file_of_proto link_of_proto file_contents_of_proto
generate (BlockDataProto.dir_file p) = dir_file_of_proto p >>= λ d. ok (BlockData.dir_file d)
generate (BlockDataProto.file_contents p) = ok (BlockData.file_contents (file_contents_of_proto p))
generate (BlockDataProto.link p) = ok (BlockData.link (link_of_proto p))
generate BlockDataProto.not_set = fail thrown

-- `mutable_dir_file()` and its like select their member of the `oneof`, fresh if another was set.
abbrev mutable_dir_file : BlockDataProto → DirFileProto
mutable_dir_file (BlockDataProto.dir_file p) = p
mutable_dir_file _ = record { name = none; stat = none; children = [] }

abbrev mutable_link : BlockDataProto → LinkProto
mutable_link (BlockDataProto.link p) = p
mutable_link _ = record { children = [] }

unfoldable pub dir_file_gen_proto : DirFileBlockData → DirFileProto → DirFileProto
dir_file_gen_proto d proto = record {
  name = some d.name;
  stat = some (Stat.gen_proto d.stat (Option.get_or proto.stat empty_stat_proto));
  children = add_children d.children proto.children;
}

unfoldable pub link_gen_proto : LinkBlockData → LinkProto → LinkProto
link_gen_proto d proto = record { children = add_children d.children proto.children }

unfoldable pub file_contents_gen_proto : FileContentsBlockData → FileContentsProto
file_contents_gen_proto d = record { data_ = some d.data_ }

-- The virtual method `gen_block_data_proto`.
unfoldable pub gen_block_data_proto : BlockData → BlockDataProto → BlockDataProto
unfolding dir_file_gen_proto link_gen_proto file_contents_gen_proto
gen_block_data_proto (BlockData.dir_file d) proto =
    BlockDataProto.dir_file (dir_file_gen_proto d (mutable_dir_file proto))
gen_block_data_proto (BlockData.link d) proto =
    BlockDataProto.link (link_gen_proto d (mutable_link proto))
gen_block_data_proto (BlockData.file_contents d) proto =
    BlockDataProto.file_contents (file_contents_gen_proto d)
