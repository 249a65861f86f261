-- ===== src/BlockData/Block/Laws.antt =====
-- Equality of blocks is the `operator==` of the sources, and a block survives its message.
use pingfs.Base.{
  ℕ, ==-self, true, ◌≡◌, ◌↔◌, refl, ◌∙◌, sym, List, [], ◌∷◌, ◌++◌, append_assoc, append-nil, ok,
  arith, list_beq_iff, list_beq_self, nat_eq,
}
use pingfs.BlockData.Stat
use pingfs.BlockData.Stat.{stat_beq, stat_beq_iff}
use pingfs.BlockData.Data.{
  BlockData, BlockDataProto, data_beq, iters_to_vector, add_children, generate,
  gen_block_data_proto, empty_stat_proto,
}
use pingfs.BlockData.Block.{Block, block_beq, of_proto, gen_proto, empty_block_proto}

data_beq_sound : (a b : BlockData) → data_beq a b ≡ true → a ≡ b
unfolding data_beq
data_beq_sound (BlockData.dir_file a) (BlockData.dir_file b) h = ground (
  arith,
  (list_beq_iff a.name b.name).0,
  (list_beq_iff a.children b.children).0,
  (stat_beq_iff a.stat b.stat).0,
)
data_beq_sound (BlockData.link a) (BlockData.link b) h =
    ground (arith, (list_beq_iff a.children b.children).0)
data_beq_sound (BlockData.file_contents a) (BlockData.file_contents b) h =
    ground (arith, (list_beq_iff a.data_ b.data_).0)
data_beq_sound _ _ h = cc

data_beq_self : (a : BlockData) → data_beq a a ≡ true
unfolding data_beq
data_beq_self (BlockData.dir_file a) =
    rw (list_beq_self a.name, list_beq_self a.children) ((stat_beq_iff a.stat a.stat).1 refl)
data_beq_self (BlockData.link a) = list_beq_self a.children
data_beq_self (BlockData.file_contents a) = list_beq_self a.data_

-- `operator==` of blocks, which compares ids and then data of the same class field by field, holds
-- exactly of equal blocks.
pub block_beq_iff : (a b : Block) → (block_beq a b ≡ true) ↔ (a ≡ b)
unfolding block_beq
block_beq_iff a b = (
  λ h. ground (arith, data_beq_sound a.data_ b.data_),
  λ h. rw h (rw (==-self b.block_id) (data_beq_self b.data_)),
)

iters_to_vector-append : (xs vec : List ℕ) → iters_to_vector xs vec ≡ vec ++ xs
unfolding iters_to_vector
iters_to_vector-append [] vec = sym (append-nil vec)
iters_to_vector-append (x ∷ xs) vec =
    iters_to_vector-append xs (vec ++ x ∷ []) ∙ append_assoc vec (x ∷ []) xs

add_children-append : (xs vec : List ℕ) → add_children xs vec ≡ vec ++ xs
unfolding add_children
add_children-append [] vec = sym (append-nil vec)
add_children-append (x ∷ xs) vec =
    add_children-append xs (vec ++ x ∷ []) ∙ append_assoc vec (x ∷ []) xs

generate-gen_block_data_proto :
    (d : BlockData) → generate (gen_block_data_proto d BlockDataProto.not_set) ≡ ok d
unfolding generate gen_block_data_proto
generate-gen_block_data_proto (BlockData.dir_file d) = rw (
  Stat.from_proto-gen_proto d.stat empty_stat_proto,
  add_children-append d.children [],
  iters_to_vector-append d.children [],
)
generate-gen_block_data_proto (BlockData.link d) =
    rw (add_children-append d.children [], iters_to_vector-append d.children [])
generate-gen_block_data_proto (BlockData.file_contents d) = refl

-- A block written into a fresh message is read back from it unchanged, whatever its data.
pub of_proto-gen_proto : (b : Block) → of_proto (gen_proto b empty_block_proto) ≡ ok b
unfolding of_proto gen_proto
of_proto-gen_proto b = rw (generate-gen_block_data_proto b.data_)
