-- ===== src/Fs/BlockFuse/Represents/Answers.antt =====
-- `getattr` and `read` of lib/src/fs/block_fuse.cc on a file system that stands for a tree of names.
use pingfs.Base.{
  ℕ, suc, ◌+◌, ◌<◌, ◌^◌, ◌≤◌, List, [], ◌∷◌, Option, none, some, Bytes, ok, ◌≡◌, refl, arith, All,
  list_beq, nat_eq, take, drop, ◌⊎◌, inl, inr,
}
use pingfs.Base.Numbers.{ℤ, pos, neg, negsuc, to_int}
use pingfs.BlockData.Stat.{StatBuffer, update_stat}
use pingfs.BlockData.Data.{DirFileBlockData, dir_file}
use pingfs.BlockData.Block.{Block}
use pingfs.BlockManager.Interface.{BlockManager, IsBlockManager}
use pingfs.Fs.FsUtil.{get_separator, separator, separate_path}
use pingfs.Fs.FsUtil.Split.{Lacks}
use pingfs.Fs.FsUtil.RoundTrip.{separate_path_parts}
use pingfs.Fs.BlockUtil.{try_cast_dir_file}
use pingfs.Fs.BlockUtil.Stores.{View, read_file_contents-Stores}
use pingfs.Fs.BlockUtil.Extends.{Stores-le}
use pingfs.Fs.Tree.{Entry, resolve, stat_of}
use Entry.{directory, file}
use pingfs.Fs.BlockFuse.{
  BlockFuse, walk_parts, get_path_part, get_path, back, getattr, resolve_inode,
  set_no_such_file_or_dir, enoent,
}
use pingfs.Fs.BlockFuse.Contents.{read, read_block}
use pingfs.Fs.BlockFuse.Reading.{available, read_slice-available}
use pingfs.Fs.BlockFuse.Represents.{Holds, of_directory, of_file, Distinct}
use pingfs.Fs.BlockFuse.Represents.Walk.{IsName, Way, Reached, walk_parts-Holds}
use Way.{here, into}

IsName-Lacks : (p : Bytes) → Lacks separator p → IsName p
unfolding list_beq get_separator
IsName-Lacks [] h = refl
IsName-Lacks (x ∷ []) (h, _) = ground arith
IsName-Lacks (x ∷ y ∷ p) h = ground arith

names-Lacks : (names : List Bytes) → All (Lacks separator) names → All IsName names
names-Lacks [] h = tt
names-Lacks (p ∷ names) (hp, h) = (IsName-Lacks p hp, names-Lacks names h)

-- The parts of a path behind the root are names.
pub separate_path-IsName :
    (path : Bytes) (names : List Bytes)
    → separate_path path ≡ ok (get_separator ∷ names)
    → All IsName names
separate_path-IsName path names e = elim (separate_path_parts path) [
  | inl (_, out) ↦ absurd (cc)
  | inr (parts, cut, h) ↦ names-Lacks names (ground arith)
]

pub back-Way :
    {look : View} {n : ℕ} {b b' : Block} {e e' : Entry} {h : Holds look n b e} {names : List Bytes}
    {path : List Block} {h' : Holds look n b' e'}
    → Way b e h names path b' e' h'
    → back (b ∷ path) ≡ some b'
unfolding back
back-Way here = refl
back-Way (into r w) = back-Way w

module _ {S : Type 0} {manager : BlockManager S} (contract : IsBlockManager manager) (n : ℕ) where
  -- The blocks below the root of the file system stand for a tree, with no block used twice and at
  -- most `n` layers of links below a file.
  pub record Shows (fuse : BlockFuse S) (e : Entry) : Type 0 where
    pub valid : contract.IsValid fuse.blocks
    pub root : Holds (contract.look fuse.blocks) n fuse.root_block e
    pub distinct : Distinct root

-- What `get_path` answers, with fuel for the layers of links below a file.
module _ {S : Type 0} (manager : BlockManager S) (contract : IsBlockManager manager) (n : ℕ)
    (path : Bytes) (names : List Bytes) (cut : separate_path path ≡ ok (get_separator ∷ names))
    (fuse : BlockFuse S) (e : Entry) (shows : Shows contract n fuse e) where
  pub get_path-cases_le :
      (k : ℕ)
      → n ≤ k
      → ((resolve names e ≡ none) × (get_path manager (suc k) path fuse ≡ ok ([], fuse)))
        ⊎ ((r : Reached shows.root names) × (get_path manager (suc k) path fuse
              ≡ ok (fuse.root_block ∷ r.path, fuse)))
  unfolding get_path walk_parts get_path_part list_beq get_separator back
  get_path-cases_le k deep =
      elim (walk_parts-Holds manager contract fuse shows.valid k deep names shows.root
        (fuse.root_block ∷ []) shows.distinct (separate_path-IsName path names cut)) [
          | inl (absent, e) ↦ inl (absent, rw cut e)
          | inr (r, e) ↦ inr (r, rw cut e)
        ]

pub data-Holds :
    {look : View} {n : ℕ} {b : Block} {e : Entry}
    → Holds look n b e
    → (d : DirFileBlockData) × (b.data_ ≡ dir_file d) × (d.stat ≡ stat_of e)
data-Holds (of_directory {d} at is type children kids) = (d, is, refl)
data-Holds (of_file {d} at is type stored) = (d, is, refl)

pub try_cast-data :
    (b : Block) (d : DirFileBlockData) → b.data_ ≡ dir_file d → try_cast_dir_file b ≡ some d
unfolding try_cast_dir_file
try_cast-data b d is = rw is

-- What `getattr` and `read` answer for what a path leads to.
module _ {S : Type 0} (fuse : BlockFuse S) where
  abbrev pub no_such_file_or_dir : BlockFuse S
  no_such_file_or_dir = record fuse { errno = enoent }

  abbrev pub attributes : StatBuffer → Option Entry → ℤ × (StatBuffer × BlockFuse S)
  attributes stbuf none = (neg enoent, (stbuf, no_such_file_or_dir))
  attributes stbuf (some e) = (pos 0, (update_stat (stat_of e) fuse.dev 1 stbuf, fuse))

  abbrev pub bytes_read : ℕ → ℕ → Option Entry → ℤ × (Bytes × BlockFuse S)
  bytes_read size offset none = (neg enoent, ([], no_such_file_or_dir))
  bytes_read size offset (some (directory name stat es)) = (negsuc 0, ([], fuse))
  bytes_read size offset (some (file name stat text)) = (
    to_int (available size offset text),
    (take (available size offset text) (drop offset text), fuse),
  )

module _ {S : Type 0} (manager : BlockManager S) (contract : IsBlockManager manager)
    (fuse : BlockFuse S) (valid : contract.IsValid fuse.blocks) (size offset : ℕ)
    (fits : offset + size < 2 ^ 64) {n : ℕ} (k : ℕ) (deep : n ≤ k) where
  read_block-Holds :
      {b : Block} {e : Entry}
      → Holds (contract.look fuse.blocks) n b e
      → read_block manager (suc k) size offset (some b) fuse
        ≡ ok (bytes_read fuse size offset (some e))
  unfolding read_block try_cast_dir_file
  read_block-Holds (of_directory at is type children kids) = rw (is, type)
  read_block-Holds (of_file {d} {text} at is type stored) = rw (
    is,
    type,
    read_file_contents-Stores manager contract fuse.blocks valid d type (Stores-le k deep stored),
    read_slice-available size offset text fits,
  )

module _ {S : Type 0} (manager : BlockManager S) (contract : IsBlockManager manager) (n : ℕ)
    (path : Bytes) (names : List Bytes) (cut : separate_path path ≡ ok (get_separator ∷ names))
    (fuse : BlockFuse S) (e : Entry) (shows : Shows contract n fuse e) (k : ℕ) (deep : n ≤ k) where
  -- `getattr` in a file system that stands for a tree of names returns the attributes of the entry
  -- that the path leads to, and with the error `ENOENT` when the tree has none, for every path.
  pub getattr-resolve :
      (stbuf : StatBuffer)
      → getattr manager (suc k) path stbuf fuse ≡ ok (attributes fuse stbuf (resolve names e))
  unfolding getattr resolve_inode set_no_such_file_or_dir try_cast_dir_file
  getattr-resolve stbuf =
      elim (get_path-cases_le manager contract n path names cut fuse e shows k deep) [
        | inl (absent, got) ↦ rw (absent, got, back)
        | inr (r, got) ↦
            let (d, is, same) = data-Holds r.holds in
            rw (r.resolved, got, back-Way r.walk, is, same)
      ]

  -- `read` returns and copies the bytes of the file that the path leads to, from the offset on, as
  -- many as there are and at most `size`, if offset and size do not wrap around in their sum. On a
  -- directory it returns -1, and when the tree has no such entry it fails with `ENOENT`.
  pub read-resolve :
      (size offset : ℕ)
      → offset + size < 2 ^ 64
      → read manager (suc k) size offset path fuse
        ≡ ok (bytes_read fuse size offset (resolve names e))
  unfolding read read_block set_no_such_file_or_dir back
  read-resolve size offset fits =
      elim (get_path-cases_le manager contract n path names cut fuse e shows k deep) [
        | inl (absent, got) ↦ rw (absent, got)
        | inr (r, got) ↦
            rw (r.resolved, got, back-Way r.walk)
              (read_block-Holds manager contract fuse shows.valid size offset fits k deep r.holds)
      ]
