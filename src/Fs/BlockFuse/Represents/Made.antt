-- ===== src/Fs/BlockFuse/Represents/Made.antt =====
-- What `getattr` in lib/src/fs/block_fuse.cc answers after `mkdir`.
use pingfs.Base.{
  ℕ, suc, ◌≤◌, true, List, [], ◌∷◌, ◌++◌, none, some, Bytes, Result, ok, ◌≡◌, refl, sym, ap, ◌∙◌,
  list_beq, list_beq_iff, nat_eq, Bool-cases, inl, inr,
}
use pingfs.Base.Numbers.{ℤ, pos}
use pingfs.BlockData.Stat.{Stat, StatBuffer, update_stat}
use pingfs.BlockData.Data.{is_dir}
use pingfs.BlockManager.Interface.{BlockManager, IsBlockManager}
use pingfs.Fs.FsUtil.{get_separator, separate_path}
use pingfs.Fs.Tree.{Entry, Entries, name_of, stat_of, add_entry, find, resolve}
use Entry.{directory}
use Entries.{nothing, more}
use pingfs.Fs.Tree.Laws.{Unique, diverges, find-append, find-here, first_of}
use pingfs.Fs.Tree.Resolve.{resolve-append, resolve-one, resolve-rebuild, resolve-rebuild_other}
use pingfs.Fs.Tree.Unique.{UniqueAll-add_entry, Unique-rebuild, find-add_entry}
use pingfs.Fs.BlockFuse.{BlockFuse, getattr}
use pingfs.Fs.BlockFuse.Represents.Answers.{attributes, getattr-resolve}
use pingfs.Fs.BlockFuse.Represents.Replacing.{Succeeds}
use pingfs.Fs.BlockFuse.Represents.Parents.{Parts}
use pingfs.Fs.BlockFuse.Represents.Inserting.{childless, new_entry}

-- A new entry has its name and attributes, and no entries.
new_entry-name : (name : Bytes) (stat : Stat) → name_of (new_entry name stat) ≡ name
new_entry-name name stat = elim (Bool-cases (is_dir (childless name stat))) [
  | inl type ↦ rw type refl
  | inr type ↦ rw type refl
]

new_entry-stat : (name : Bytes) (stat : Stat) → stat_of (new_entry name stat) ≡ stat
new_entry-stat name stat = elim (Bool-cases (is_dir (childless name stat))) [
  | inl type ↦ rw type refl
  | inr type ↦ rw type refl
]

new_entry-Unique : (name : Bytes) (stat : Stat) → Unique (new_entry name stat)
unfolding Unique
new_entry-Unique name stat = elim (Bool-cases (is_dir (childless name stat))) [
  | inl type ↦ rw type tt
  | inr type ↦ rw type tt
]

module _ {S : Type 0} {manager : BlockManager S} {contract : IsBlockManager manager} {n : ℕ}
    {path : Bytes} {parents : List Bytes} {name : Bytes} (parts : Parts path parents name)
    {fuse : BlockFuse S} {e : Entry} (unique : Unique e) {dn : Bytes} {ds : Stat} {es : Entries}
    (parent : resolve parents e ≡ some (directory dn ds es))
    (absent : resolve (parents ++ name ∷ []) e ≡ none) (stat : Stat)
    {call : Result (ℤ × BlockFuse S)} {spent : ℕ}
    (made : Succeeds manager contract n call fuse parents
      (add_entry (new_entry name stat))
      e
      spent) where
  absent-find : find name es ≡ none
  absent-find =
      sym (resolve-append parents (name ∷ []) e parent ∙ resolve-one name dn ds es) ∙ absent

  pub made-Unique : Unique made.tree
  made-Unique =
      Unique-rebuild parents (add_entry (new_entry name stat)) e unique made.changed
        λ dn' ds' es' at u.
          UniqueAll-add_entry (new_entry name stat) es' u (new_entry-Unique name stat) (
            ap (λ m. find m es') (new_entry-name name stat)
            ∙ ap (find name) (cc (parent, at))
            ∙ absent-find)

  pub made-resolve : resolve (parents ++ name ∷ []) made.tree ≡ some (new_entry name stat)
  made-resolve =
      resolve-rebuild parents (name ∷ []) (add_entry (new_entry name stat)) e unique made.changed
        parent
      ∙ resolve-one name dn ds (add_entry (new_entry name stat) es)
      ∙ find-append name es (more (new_entry name stat) nothing)
      ∙ ap (λ o. first_of o (find name (more (new_entry name stat) nothing))) absent-find
      ∙ find-here name (new_entry name stat) nothing
          ((list_beq_iff (name_of (new_entry name stat)) name).1 (new_entry-name name stat))

  made-other :
      (qs : List Bytes)
      → diverges (parents ++ name ∷ []) qs ≡ true
      → resolve qs made.tree ≡ resolve qs e
  made-other qs d =
      resolve-rebuild_other parents name qs (add_entry (new_entry name stat)) e unique
        (λ es' q differs.
          find-add_entry q (new_entry name stat) es'
            (ap (λ m. list_beq m q) (new_entry-name name stat) ∙ differs))
        made.changed d

  -- After `mkdir` or `create` has added an entry, `getattr` of its path returns the attributes of the
  -- new entry, and `getattr` of each path that parts from it answers as before.
  pub made-getattr :
      (k : ℕ) (deep : n ≤ k) (stbuf : StatBuffer)
      → (getattr manager (suc k) path stbuf made.fuse'
          ≡ ok (pos 0, (update_stat stat (made.fuse').dev 1 stbuf, made.fuse')))
        × ((other : Bytes) (qs : List Bytes)
            → separate_path other ≡ ok (get_separator ∷ qs)
            → diverges (parents ++ name ∷ []) qs ≡ true
            → getattr manager (suc k) other stbuf made.fuse'
              ≡ ok (attributes made.fuse' stbuf (resolve qs e)))
  made-getattr k deep stbuf = (
    getattr-resolve manager contract n path (parents ++ name ∷ []) parts.cut made.fuse' made.tree
          made.shows k deep stbuf
        ∙ ap (λ o. ok (attributes made.fuse' stbuf o)) made-resolve
        ∙ ap (λ st. ok (pos 0, (update_stat st (made.fuse').dev 1 stbuf, made.fuse')))
            (new_entry-stat name stat),
    λ other qs cut d.
        getattr-resolve manager contract n other qs cut made.fuse' made.tree made.shows k deep stbuf
        ∙ ap (λ o. ok (attributes made.fuse' stbuf o)) (made-other qs d),
  )
