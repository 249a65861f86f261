-- ===== src/Fs/BlockFuse/Contents.antt =====
-- The part of lib/src/fs/block_fuse.cc that reads, writes and creates files.
use pingfs.Base.{
  ℕ, ◌+◌, ◌-◌, ◌%◌, ◌^◌, ◌==◌, ltb, leb, if◌then◌else◌, List, [], ◌∷◌, ◌++◌, Option, none, some,
  Bytes, Result, ok, fail, Failure, ◌>>=◌, length, take, drop,
}
use Failure.{undefined}
use mathlib.Core.List.{reverse}
use pingfs.Base.Numbers.{ℤ, pos, negsuc, to_int}
use pingfs.BlockData.Mode.{Mode, of_mode_t}
use pingfs.BlockData.Stat.{with_size_times}
use pingfs.BlockData.Data.{BlockId, dir_file, is_dir}
use pingfs.BlockData.Block.{Block}
use pingfs.BlockManager.Interface.{BlockManager}
use pingfs.Fs.FsUtil.{separate_path, join}
use pingfs.Fs.BlockUtil.{try_cast_dir_file, read_file_contents}
use pingfs.Fs.BlockUtil.Links.{recursive_free_children_blocks, replace_blocks_for_contents}
use pingfs.Fs.BlockFuse.{
  BlockFuse, back, get_path, set_no_such_file_or_dir, set_file_exists, set_error_because_dir,
}
use pingfs.Fs.BlockFuse.Directories.{System, Virtuals, new_stat, pop_back, replace_path}

abbrev pub bytes_per_block : ℕ
bytes_per_block = 1000

abbrev pub branching_factor : ℕ
branching_factor = 4

-- The bytes that `read` copies into the buffer, and its result. `offset + size` wraps around, and
-- more bytes than there are cannot be copied.
unfoldable pub read_slice : ℕ → ℕ → Bytes → Result (ℤ × Bytes)
read_slice size offset contents =
    let actual_size =
      if leb ((offset + size) % 2 ^ 64) (length contents) then size else length contents - offset in
    if ltb (length contents) offset
    then ok (pos 0, [])
    else if ltb (length contents) (offset + actual_size)
    then fail undefined
    else ok (to_int actual_size, take actual_size (drop offset contents))

-- `std::string::replace` of `size` bytes from `offset` on with the first `size` bytes of the buffer.
unfoldable pub replace : ℕ → ℕ → Bytes → Bytes → Bytes
replace offset size buffer contents =
    take offset contents ++ take size buffer ++ drop (offset + size) contents

module _ {S : Type 0} (manager : BlockManager S) where
  -- `read` once the path has been searched for.
  unfoldable pub read_block :
      ℕ → ℕ → ℕ → Option Block → BlockFuse S → Result (ℤ × (Bytes × BlockFuse S))
  unfolding read_slice set_no_such_file_or_dir
  read_block fuel size offset none fuse =
      let (code, fuse') = set_no_such_file_or_dir fuse in ok (code, ([], fuse'))
  read_block fuel size offset (some block) fuse = elim (try_cast_dir_file block) [
    | none ↦ ok (negsuc 0, ([], fuse))
    | some d ↦
        if is_dir d
        then ok (negsuc 0, ([], fuse))
        else (read_file_contents manager fuel [] d fuse.blocks >>= λ (contents, s).
            read_slice size offset contents >>= λ (code, bytes).
            ok (code, (bytes, record fuse { blocks = s })))
  ]

  unfoldable pub read : ℕ → ℕ → ℕ → Bytes → BlockFuse S → Result (ℤ × (Bytes × BlockFuse S))
  unfolding read_block
  read fuel size offset path fuse = get_path manager fuel path fuse >>= λ (blocks, fuse').
      read_block fuel size offset (back blocks) fuse'

module _ {S : Type 0} (manager : BlockManager S) (virtuals : Virtuals S) where
  -- `none` is the result `false`.
  unfoldable pub create_file_block :
      System → ℕ → Bytes → ℕ → Mode → BlockFuse S → Result (Option (List Block) × BlockFuse S)
  unfolding pop_back replace_path
  create_file_block sys fuel path file_size mode fuse =
      get_path manager fuel path fuse >>= λ (existing, fuse1). elim existing [
        | b ∷ bs ↦ ok (none, fuse1)
        | [] ↦ separate_path path >>= λ separated_path.
            join (pop_back separated_path) >>= λ parent_path.
            get_path manager fuel parent_path fuse1 >>= λ (blocks, fuse2).
            elim (back separated_path) [
              | none ↦ fail undefined
              | some name ↦ elim blocks [
                | [] ↦ ok (none, fuse2)
                | b ∷ bs ↦
                    manager.create_block
                      (dir_file
                        (record { name = name; stat = new_stat sys mode file_size; children = [] }))
                      fuse2.blocks
                    >>= λ (new_block, s).
                        replace_path manager virtuals (reverse (b ∷ bs)) []
                          (new_block.block_id ∷ []) (b ∷ bs) (record fuse2 { blocks = s })
                        >>= λ fuse3. get_path manager fuel path fuse3 >>= λ (updated, fuse4).
                            elim updated [
                              | [] ↦ fail undefined
                              | b' ∷ bs' ↦ ok (some (b' ∷ bs'), fuse4)
                            ]
              ]
            ]
      ]

  unfoldable pub create : System → ℕ → Bytes → ℕ → BlockFuse S → Result (ℤ × BlockFuse S)
  unfolding create_file_block set_no_such_file_or_dir set_file_exists
  create sys fuel path mode fuse = get_path manager fuel path fuse >>= λ (blocks, fuse1).
      elim blocks [
        | b ∷ bs ↦ ok (set_file_exists fuse1)
        | [] ↦ of_mode_t mode >>= λ file_mode.
            create_file_block sys fuel path 0 file_mode fuse1 >>= λ (succeeded, fuse2).
            elim succeeded [
              | none ↦ ok (set_no_such_file_or_dir fuse2)
              | some created ↦ ok (pos 0, fuse2)
            ]
      ]

  -- `depth_of` is the depth of the tree of links, which is computed in floating point.
  module _ (depth_of : ℕ → ℕ → ℕ) where
    -- The ids of the new blocks below the file.
    unfoldable pub contents_blocks : Bytes → S → Result (List BlockId × S)
    contents_blocks file_contents s =
        if length file_contents == 0
        then ok ([], s)
        else replace_blocks_for_contents manager depth_of file_contents bytes_per_block
            branching_factor s

    unfoldable pub write_file_starting_at_node :
        System → List Block → Bytes → BlockFuse S → Result (BlockFuse S)
    unfolding contents_blocks replace_path pop_back
    write_file_starting_at_node sys blocks file_contents fuse = elim (back blocks) [
      | none ↦ fail undefined
      | some last ↦ contents_blocks file_contents fuse.blocks >>= λ (ids_to_add, s).
          elim (try_cast_dir_file last) [
            | none ↦ fail undefined
            | some file_inode ↦
                let updated : Block = record {
                  block_id = last.block_id;
                  data_ = dir_file (record {
                    name = file_inode.name;
                    stat =
                        with_size_times file_inode.stat (length file_contents) sys.time sys.time
                          sys.time;
                    children = file_inode.children;
                  });
                } in
                let blocks' : List Block = pop_back blocks ++ updated ∷ [] in
                replace_path manager virtuals (reverse blocks') file_inode.children ids_to_add
                  blocks' (record fuse { blocks = s })
          ]
    ]

    unfoldable pub write :
        System → ℕ → Bytes → ℕ → ℕ → Bytes → BlockFuse S → Result (ℤ × BlockFuse S)
    unfolding write_file_starting_at_node replace set_no_such_file_or_dir set_error_because_dir
    write sys fuel buffer size offset path fuse =
        get_path manager fuel path fuse >>= λ (blocks, fuse1). elim (back blocks) [
          | none ↦ ok (set_no_such_file_or_dir fuse1)
          | some file_inode ↦ elim (try_cast_dir_file file_inode) [
            | none ↦ fail undefined
            | some resolved ↦
                if is_dir resolved
                then ok (set_error_because_dir fuse1)
                else (read_file_contents manager fuel [] resolved fuse1.blocks >>= λ (contents, s).
                    if ltb (length contents) offset
                    then ok (negsuc 0, record fuse1 { blocks = s })
                    else (recursive_free_children_blocks manager fuel file_inode s >>= λ s'.
                        write_file_starting_at_node sys blocks (replace offset size buffer contents)
                          (record fuse1 { blocks = s' })
                        >>= λ fuse2. ok (to_int size, fuse2)))
          ]
        ]
