-- ===== src/Fs/BlockFuse/Directories.antt =====
-- The part of lib/src/fs/block_fuse.cc that makes, removes and lists directories.
use pingfs.Base.{
  ℕ, zero, suc, ltb, if◌then◌else◌, not, List, [], ◌∷◌, ◌++◌, Option, none, some, Bytes, Result, ok,
  fail, Failure, ◌>>=◌, length,
}
use Failure.{undefined, out_of_fuel}
use Prim.Native.Nat.{bit_or}
use mathlib.Core.List.{reverse}
use pingfs.Base.Numbers.{ℤ, pos, is_zero}
use pingfs.BlockData.ReadWriteExecute.{ReadWriteExecute}
use pingfs.BlockData.FileType.{FileType, s_ifdir}
use pingfs.BlockData.Mode.{Mode, of_mode_t}
use pingfs.BlockData.Stat.{Stat, StatBuffer, update_stat}
use pingfs.BlockData.Data.{BlockId, BlockData, DirFileBlockData, dir_file}
use pingfs.BlockData.Block.{Block}
use pingfs.BlockManager.Interface.{BlockManager}
use pingfs.Fs.FsUtil.{separate_path, get_separator, join}
use pingfs.Fs.BlockUtil.{try_cast_dir_file, try_cast_link, replace_chain}
use pingfs.Fs.BlockUtil.Links.{recursive_free_children_blocks}
use pingfs.Fs.BlockFuse.{BlockFuse, back, get_path, getattr, set_no_such_file_or_dir}

-- What the system's calls return while an operation runs.
pub record System : Type 0 where
  pub time : ℕ
  pub getuid : ℕ
  pub getgid : ℕ

-- The virtual methods: `set_root_block` sets the root and then does `announce_root`.
pub record Virtuals (S : Type 0) : Type 0 where
  pub free_block : BlockId → S → Result S
  pub announce_root : Block → S → Result S

-- Those of `BlockFuse` itself.
abbrev pub block_fuse_virtuals : {S : Type 0} → BlockManager S → Virtuals S
block_fuse_virtuals manager = record {
  free_block = manager.free_block;
  announce_root = λ root s. ok s;
}

-- A vector without its last element.
unfoldable pub pop_back : {A : Type 0} → List A → List A
pop_back [] = []
pop_back (x ∷ []) = []
pop_back (x ∷ y ∷ xs) = x ∷ pop_back (y ∷ xs)

-- `stat` of a new directory or file.
abbrev pub new_stat : System → Mode → ℕ → Stat
new_stat sys mode size = record {
  mode = mode;
  uid = sys.getuid;
  gid = sys.getgid;
  size = size;
  access_time = sys.time;
  mod_time = sys.time;
  status_change_time = sys.time;
}

abbrev pub root_stat : System → Stat
root_stat sys =
    new_stat sys
      (record {
        user_mode = ReadWriteExecute.read_write_execute;
        group_mode = ReadWriteExecute.read_execute;
        other_mode = ReadWriteExecute.execute;
        file_type = FileType.dir;
      })
      0

abbrev pub make_root_block_data : System → BlockData
make_root_block_data sys =
    dir_file (record { name = get_separator; stat = root_stat sys; children = [] })

-- The loop of `rmdir` from the parent of the target back to the root: links are skipped. The result
-- is the block below the last directory, and the blocks from that directory back to the root. Past
-- the root the index wraps around and the vector is read out of bounds.
unfoldable pub last_dir_file : Block → List Block → Result (Block × List Block)
unfolding try_cast_link
last_dir_file below [] = fail undefined
last_dir_file below (block ∷ blocks) = elim (try_cast_link block) [
  | some l ↦ last_dir_file block blocks
  | none ↦ ok (below, block ∷ blocks)
]

-- The blocks of one response: directories and files are children, links are traced on.
unfoldable pub trace_blocks :
    List (Option Block)
    → List BlockId
    → List DirFileBlockData
    → Result (List BlockId × List DirFileBlockData)
trace_blocks [] blocks_to_trace children = ok (blocks_to_trace, children)
trace_blocks (none ∷ blocks) blocks_to_trace children = fail undefined
trace_blocks (some block ∷ blocks) blocks_to_trace children = elim (try_cast_dir_file block) [
  | some child ↦ trace_blocks blocks blocks_to_trace (children ++ child ∷ [])
  | none ↦ elim (try_cast_link block) [
    | some l ↦ trace_blocks blocks (blocks_to_trace ++ l.children) children
    | none ↦ trace_blocks blocks blocks_to_trace children
  ]
]

module _ {S : Type 0} (manager : BlockManager S) (virtuals : Virtuals S) where
  -- The constructor.
  unfoldable pub block_fuse : System → ℕ → ℕ → S → Result (BlockFuse S)
  block_fuse sys dev errno s = manager.create_block (make_root_block_data sys) s >>= λ (root, s').
      ok (record { blocks = s'; root_block = root; dev = dev; errno = errno })

  -- A null root would be followed by the next operation.
  unfoldable pub set_root_block : Option Block → BlockFuse S → Result (BlockFuse S)
  set_root_block none fuse = fail undefined
  set_root_block (some new_root) fuse = virtuals.announce_root new_root fuse.blocks >>= λ s.
      ok (record fuse { blocks = s; root_block = new_root })

  -- `free_block` of each block on a path.
  unfoldable pub free_blocks : List Block → S → Result S
  free_blocks [] s = ok s
  free_blocks (block ∷ blocks) s =
      virtuals.free_block block.block_id s >>= λ s'. free_blocks blocks s'

  -- The chain of blocks is replaced, the root is set to the last block made, and all the blocks of
  -- the path are freed.
  unfoldable pub replace_path :
      List Block → List BlockId → List BlockId → List Block → BlockFuse S → Result (BlockFuse S)
  unfolding set_root_block free_blocks
  replace_path chain to_remove to_add blocks fuse =
      replace_chain manager chain to_remove none to_add fuse.blocks >>= λ (last, s).
      set_root_block last (record fuse { blocks = s }) >>= λ fuse'.
      free_blocks blocks fuse'.blocks >>= λ s'. ok (record fuse' { blocks = s' })

  -- `none` is the result `false`. `stbuf` is a local buffer that is not initialised.
  unfoldable pub mkdir_valid :
      ℕ → Bytes → StatBuffer → BlockFuse S → Result (Option (List Block × Bytes) × BlockFuse S)
  unfolding pop_back is_zero
  mkdir_valid fuel path stbuf fuse = separate_path path >>= λ parts.
      if ltb 1 (length parts)
      then (getattr manager fuel path stbuf fuse >>= λ (code, (stbuf', fuse')).
          if is_zero code
          then ok (none, fuse')
          else (join (pop_back parts) >>= λ parent_path.
              get_path manager fuel parent_path fuse' >>= λ (blocks, fuse''). elim (back blocks) [
                | none ↦ ok (none, fuse'')
                | some parent_dir ↦ elim (try_cast_dir_file parent_dir) [
                  | none ↦ ok (none, fuse'')
                  | some d ↦ elim (back parts) [
                    | none ↦ fail undefined
                    | some dir_to_make ↦ ok (some (blocks, dir_to_make), fuse'')
                  ]
                ]
              ]))
      else ok (none, fuse)

  unfoldable pub mkdir :
      System → ℕ → StatBuffer → Bytes → ℕ → BlockFuse S → Result (ℤ × BlockFuse S)
  unfolding mkdir_valid replace_path
  mkdir sys fuel stbuf path mode fuse = mkdir_valid fuel path stbuf fuse >>= λ (valid, fuse').
      elim valid [
        | none ↦ ok (pos 1, fuse')
        | some (blocks, dir_to_make) ↦ of_mode_t (bit_or mode s_ifdir) >>= λ dir_mode.
            manager.create_block
              (dir_file
                (record { name = dir_to_make; stat = new_stat sys dir_mode 1; children = [] }))
              fuse'.blocks
            >>= λ (new_dir_block, s).
                replace_path (reverse blocks) [] (new_dir_block.block_id ∷ []) blocks
                  (record fuse' { blocks = s })
                >>= λ fuse''. ok (pos 0, fuse'')
      ]

  -- `reverse blocks` is the target, and then its parents back to the root.
  unfoldable pub rmdir_path : ℕ → List Block → List Block → BlockFuse S → Result (ℤ × BlockFuse S)
  unfolding last_dir_file replace_path
  rmdir_path fuel blocks [] fuse = ok (pos 1, fuse)
  rmdir_path fuel blocks (target ∷ []) fuse = ok (pos 1, fuse)
  rmdir_path fuel blocks (target ∷ parent ∷ parents) fuse =
      last_dir_file target (parent ∷ parents) >>= λ (child_to_remove, chain).
      replace_path chain (child_to_remove.block_id ∷ []) [] blocks fuse >>= λ fuse'.
      recursive_free_children_blocks manager fuel target fuse'.blocks >>= λ s.
      ok (pos 0, record fuse' { blocks = s })

  unfoldable pub rmdir : ℕ → Bytes → BlockFuse S → Result (ℤ × BlockFuse S)
  unfolding rmdir_path
  rmdir fuel path fuse = get_path manager fuel path fuse >>= λ (blocks, fuse').
      rmdir_path fuel blocks (reverse blocks) fuse'

  abbrev pub unlink : ℕ → Bytes → BlockFuse S → Result (ℤ × BlockFuse S)
  unlink = rmdir

module _ {S : Type 0} (manager : BlockManager S) where
  -- Fuel bounds the layers of links below the directory.
  unfoldable pub get_dir_files_from_dir :
      ℕ → List BlockId → List DirFileBlockData → S → Result (List DirFileBlockData × S)
  unfolding trace_blocks
  get_dir_files_from_dir fuel [] children s = ok (children, s)
  get_dir_files_from_dir zero (id ∷ ids) children s = fail out_of_fuel
  get_dir_files_from_dir (suc fuel) (id ∷ ids) children s =
      manager.get_blocks (id ∷ ids) s >>= λ (response, s').
      trace_blocks response [] children >>= λ (blocks_to_trace, children').
      get_dir_files_from_dir fuel blocks_to_trace children' s'

  -- `filler` is the callback of libfuse, on the state of its buffer.
  module _ {Buf : Type 0} (filler : Bytes → Option StatBuffer → Buf → ℤ × Buf) where
    unfoldable pub fill_children : ℕ → StatBuffer → List DirFileBlockData → Buf → Buf
    fill_children dev stbuf [] buf = buf
    fill_children dev stbuf (child ∷ children) buf =
        let stbuf' = update_stat child.stat dev 1 stbuf in
        let (result, buf') = filler child.name (some stbuf') buf in
        fill_children dev stbuf' children buf'

    unfoldable pub fill_dir :
        ℕ → StatBuffer → DirFileBlockData → Buf → BlockFuse S → Result (ℤ × (Buf × BlockFuse S))
    unfolding get_dir_files_from_dir fill_children is_zero
    fill_dir fuel stbuf d buf fuse =
        let stbuf' = update_stat d.stat fuse.dev 1 stbuf in
        let (result, buf1) = filler (46 ∷ []) (some stbuf') buf in
        let (result', buf2) = filler (46 ∷ 46 ∷ []) none buf1 in
        if not (is_zero result)
        then ok (result, (buf1, fuse))
        else if not (is_zero result')
        then ok (result', (buf2, fuse))
        else (get_dir_files_from_dir fuel d.children [] fuse.blocks >>= λ (children, s).
            ok (pos 0, (fill_children fuse.dev stbuf' children buf2, record fuse { blocks = s })))

    -- `readdir` once the path has been searched for.
    unfoldable pub readdir_block :
        ℕ → StatBuffer → Option Block → Buf → BlockFuse S → Result (ℤ × (Buf × BlockFuse S))
    unfolding fill_dir set_no_such_file_or_dir
    readdir_block fuel stbuf none buf fuse =
        let (code, fuse') = set_no_such_file_or_dir fuse in ok (code, (buf, fuse'))
    readdir_block fuel stbuf (some block) buf fuse = elim (try_cast_dir_file block) [
      | none ↦ ok (pos 1, (buf, fuse))
      | some d ↦ fill_dir fuel stbuf d buf fuse
    ]

    unfoldable pub readdir :
        ℕ → StatBuffer → Bytes → Buf → BlockFuse S → Result (ℤ × (Buf × BlockFuse S))
    unfolding readdir_block
    readdir fuel stbuf path buf fuse = get_path manager fuel path fuse >>= λ (blocks, fuse').
        readdir_block fuel stbuf (back blocks) buf fuse'
