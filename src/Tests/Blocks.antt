-- ===== src/Tests/Blocks.antt =====
-- Blocks and modes, with the inputs of test/lib/block/block_test.hpp and
-- test/lib/block/block_data/mode_test.hpp.
use pingfs.Base.{
  ◌≡◌, ◌↔◌, [], ◌∷◌, ok, fail, Failure, ◌>>=◌, codes, true, ◌+◌, ◌%◌, ◌/◌, ◌==◌, ◌^◌, if◌then◌else◌,
}
use pingfs.BlockData.ReadWriteExecute.{ReadWriteExecute}
use ReadWriteExecute.{read_write_execute, read_execute, execute}
use pingfs.BlockData.FileType.{FileType, s_ifdir, s_ifreg}
use pingfs.BlockData.Mode.{Mode, of_mode_t, to_mode_t}
use pingfs.BlockData.Data.{dir_file, link}
use pingfs.BlockData.Block.{Block, block_beq, of_proto, gen_proto, empty_block_proto}
use pingfs.BlockData.Block.Laws.{block_beq_iff, of_proto-gen_proto}
use pingfs.BlockData.Mode.Bits.{to_mode_t-of_mode_t, of_mode_t-to_mode_t}

abbrev directory_mode : Mode
directory_mode = record {
  user_mode = read_write_execute;
  group_mode = read_execute;
  other_mode = execute;
  file_type = FileType.dir;
}

abbrev directory : Block
directory = record {
  block_id = 7;
  data_ = dir_file (record {
    name = codes "docs";
    stat = record {
      mode = directory_mode;
      uid = 1000;
      gid = 1000;
      size = 1;
      access_time = 10;
      mod_time = 11;
      status_change_time = 12;
    };
    children = 3 ∷ 4 ∷ [];
  });
}

abbrev links : Block
links = record { block_id = 8; data_ = link (record { children = 3 ∷ [] }) }

of_proto-gen_proto_example : of_proto (gen_proto directory empty_block_proto) ≡ ok directory
of_proto-gen_proto_example = of_proto-gen_proto directory

block_beq_iff_example : (block_beq directory links ≡ true) ↔ (directory ≡ links)
block_beq_iff_example = block_beq_iff directory links

to_mode_t-of_mode_t_example : (of_mode_t 0o40751 >>= λ m. ok (to_mode_t m)) ≡ (
    if 0o40751 / 2 ^ 14 % 2 == 1
    then ok (s_ifdir + 0o40751 % 512)
    else if 0o40751 / 2 ^ 15 % 2 == 1
    then ok (s_ifreg + 0o40751 % 512)
    else fail Failure.thrown)
to_mode_t-of_mode_t_example = to_mode_t-of_mode_t 0o40751

of_mode_t-to_mode_t_example : of_mode_t (to_mode_t directory_mode) ≡ ok directory_mode
of_mode_t-to_mode_t_example = of_mode_t-to_mode_t directory_mode
