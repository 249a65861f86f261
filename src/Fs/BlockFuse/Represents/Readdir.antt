-- ===== src/Fs/BlockFuse/Represents/Readdir.antt =====
-- `readdir` of lib/src/fs/block_fuse.cc against the tree of names.
use pingfs.Base.{
  ℕ, suc, ◌≤◌, true, List, [], ◌∷◌, ◌++◌, map, Option, none, some, Bytes, ok, ◌≡◌, refl, sym, ap,
  subst, ◌∙◌, inl, inr, append_assoc, append-nil, codes,
}
use pingfs.Base.Numbers.{ℤ, pos, is_zero}
use pingfs.BlockData.Stat.{StatBuffer, update_stat}
use pingfs.BlockData.Data.{DirFileBlockData, dir_file}
use pingfs.BlockData.Block.{Block}
use pingfs.BlockManager.Interface.{BlockManager, IsBlockManager}
use pingfs.Fs.FsUtil.{get_separator, separate_path}
use pingfs.Fs.BlockUtil.{try_cast_dir_file}
use pingfs.Fs.BlockUtil.Stores.{View}
use pingfs.Fs.BlockUtil.Layers.{ids_of}
use pingfs.Fs.Tree.{Entry, Entries, name_of, stat_of, entries_of, is_directory, resolve}
use Entries.{nothing, more}
use pingfs.Fs.BlockFuse.{BlockFuse}
use pingfs.Fs.BlockFuse.Directories.{
  trace_blocks, get_dir_files_from_dir, fill_children, fill_dir, readdir_block, readdir,
}
use pingfs.Fs.BlockFuse.Represents.{Holds, HoldsAll, of_directory, of_file, none_left, one_more}
use pingfs.Fs.BlockFuse.Represents.Search.{look-map}
use pingfs.Fs.BlockFuse.Represents.Answers.{Shows, get_path-cases_le, back-Way}

-- The data of the children of a directory.
children_data :
    {look : View} {n : ℕ} {bs : List Block} {es : Entries}
    → HoldsAll look n bs es
    → List DirFileBlockData
children_data none_left = []
children_data (one_more (of_directory {d} at is type children kids) hs) = d ∷ children_data hs
children_data (one_more (of_file {d} at is type stored) hs) = d ∷ children_data hs

trace_blocks-Holds :
    {look : View} {n : ℕ} {bs : List Block} {es : Entries} (hs : HoldsAll look n bs es)
    (acc : List DirFileBlockData)
    → trace_blocks (map some bs) [] acc ≡ ok ([], acc ++ children_data hs)
unfolding trace_blocks children_data try_cast_dir_file
trace_blocks-Holds none_left acc = rw append-nil
trace_blocks-Holds (one_more (of_directory {d} at is type children kids) hs) acc = rw is (
    trace_blocks-Holds hs (acc ++ d ∷ [])
    ∙ ap (λ l. ok ([], l)) (append_assoc acc (d ∷ []) (children_data hs)))
trace_blocks-Holds (one_more (of_file {d} at is type stored) hs) acc = rw is (
    trace_blocks-Holds hs (acc ++ d ∷ [])
    ∙ ap (λ l. ok ([], l)) (append_assoc acc (d ∷ []) (children_data hs)))

module _ {Buf : Type 0} (filler : Bytes → Option StatBuffer → Buf → ℤ × Buf) where
  -- The entries of a directory, listed in order. The buffer for the attributes is used again for each.
  unfoldable pub fill_entries : ℕ → StatBuffer → Entries → Buf → Buf
  fill_entries dev stbuf nothing buf = buf
  fill_entries dev stbuf (more e es) buf =
      let stbuf' = update_stat (stat_of e) dev 1 stbuf in
      fill_entries dev stbuf' es (filler (name_of e) (some stbuf') buf).1

module _ {S Buf : Type 0} (manager : BlockManager S)
    (filler : Bytes → Option StatBuffer → Buf → ℤ × Buf) where
  fill_children-entries :
      {look : View} {n : ℕ} {bs : List Block} {es : Entries} (hs : HoldsAll look n bs es) (dev : ℕ)
      (stbuf : StatBuffer) (buf : Buf)
      → fill_children manager filler dev stbuf (children_data hs) buf
        ≡ fill_entries filler dev stbuf es buf
  unfolding fill_children fill_entries children_data
  fill_children-entries none_left dev stbuf buf = refl
  fill_children-entries (one_more (of_directory {d} at is type children kids) hs) dev stbuf buf =
      let stbuf' = update_stat d.stat dev 1 stbuf in
      fill_children-entries hs dev stbuf' (filler d.name (some stbuf') buf).1
  fill_children-entries (one_more (of_file {d} at is type stored) hs) dev stbuf buf =
      let stbuf' = update_stat d.stat dev 1 stbuf in
      fill_children-entries hs dev stbuf' (filler d.name (some stbuf') buf).1

module _ {S Buf : Type 0} (manager : BlockManager S) (contract : IsBlockManager manager)
    (filler : Bytes → Option StatBuffer → Buf → ℤ × Buf) (n : ℕ) (path : Bytes) (names : List Bytes)
    (cut : separate_path path ≡ ok (get_separator ∷ names)) (fuse : BlockFuse S) (e : Entry)
    (shows : Shows contract n fuse e) (k : ℕ) (deep : n ≤ k) where
  get_dir_files-Holds :
      {bs : List Block} {es : Entries} (hs : HoldsAll (contract.look fuse.blocks) n bs es)
      → get_dir_files_from_dir manager (suc k) (ids_of bs) [] fuse.blocks
        ≡ ok (children_data hs, fuse.blocks)
  unfolding get_dir_files_from_dir
  get_dir_files-Holds none_left = unfold children_data in refl
  get_dir_files-Holds (one_more {b} {bs} h hs) = rw (
    contract.get (ids_of (b ∷ bs)) (b ∷ bs) fuse.blocks shows.valid (look-map (one_more h hs)),
    trace_blocks-Holds (one_more h hs) [],
  )

  -- What the buffer is after all the entries of a directory.
  abbrev pub listed : StatBuffer → Entry → Buf → Buf
  listed stbuf c buf =
      fill_entries filler fuse.dev (update_stat (stat_of c) fuse.dev 1 stbuf) (entries_of c) buf

  -- `filler` takes the two entries that every directory has.
  pub record Takes (stbuf : StatBuffer) (buf buf2 : Buf) (c : Entry) : Type 0 where
    pub buf1 : Buf
    pub dot :
        filler (codes ".") (some (update_stat (stat_of c) fuse.dev 1 stbuf)) buf ≡ (pos 0, buf1)
    pub dots : filler (codes "..") none buf1 ≡ (pos 0, buf2)

  fill_dir-Holds :
      {b : Block} {c : Entry} (h : Holds (contract.look fuse.blocks) n b c) (stbuf : StatBuffer)
      (buf buf2 : Buf)
      → is_directory c ≡ true
      → Takes stbuf buf buf2 c
      → (d : DirFileBlockData) × (b.data_ ≡ dir_file d)
        × (fill_dir manager filler (suc k) stbuf d buf fuse
            ≡ ok (pos 0, (listed stbuf c buf2, fuse)))
  unfolding fill_dir is_zero
  fill_dir-Holds (of_directory {d} at is type children kids) stbuf buf buf2 dir takes = (
    d,
    is,
    rw (
      takes.dot,
      takes.dots,
      children,
      get_dir_files-Holds kids,
      fill_children-entries manager filler kids fuse.dev (update_stat d.stat fuse.dev 1 stbuf) buf2,
    ),
  )
  fill_dir-Holds (of_file at is type stored) stbuf buf buf2 dir takes = absurd (cc dir)

  -- `readdir` of a path that leads to a directory puts `.` and `..` and then the name and the
  -- attributes of each entry into the buffer of the caller, in the order of the tree, and returns
  -- 0, if the caller's `filler` returns 0 for the first two. Nothing changes.
  pub readdir-resolve :
      (stbuf : StatBuffer) (buf buf2 : Buf) {c : Entry}
      → resolve names e ≡ some c
      → is_directory c ≡ true
      → Takes stbuf buf buf2 c
      → readdir manager filler (suc k) stbuf path buf fuse ≡ ok (pos 0, (listed stbuf c buf2, fuse))
  unfolding readdir readdir_block try_cast_dir_file
  readdir-resolve stbuf buf buf2 {c} found dir takes =
      elim (get_path-cases_le manager contract n path names cut fuse e shows k deep) [
        | inl (missing, _) ↦ absurd (cc (missing, found))
        | inr (r, got) ↦
            let same : c ≡ r.entry = cc (r.resolved, found) in
            let (d, is, filled) =
              fill_dir-Holds r.holds stbuf buf buf2 (subst (λ c'. is_directory c' ≡ true) same dir)
                (subst (Takes stbuf buf buf2) same takes) in
            rw (got, back-Way r.walk, is)
              (filled ∙ ap (λ c'. ok (pos 0, (listed stbuf c' buf2, fuse))) (sym same))
      ]
