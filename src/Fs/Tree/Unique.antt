-- ===== src/Fs/Tree/Unique.antt =====
-- Names stay unique in every directory of the tree when entries are added, removed and moved.
use pingfs.Base.{
  false, List, [], ◌∷◌, none, some, Bytes, ◌≡◌, refl, sym, ap, subst, ◌∙◌, arith, list_beq,
  list_beq_iff, nat_eq, Bool-cases, inl, inr,
}
use pingfs.BlockData.Stat.{Stat}
use pingfs.Fs.Tree.{Entry, Entries, name_of, add_entry, find, without, resolve, rebuild}
use Entry.{directory, file}
use Entries.{nothing, more}
use pingfs.Fs.Tree.Laws.{
  Unique, UniqueAll, find-append, find-without_self, find-without-other, find-name, first_of-none,
  Unique-find,
}
use pingfs.Fs.Tree.Resolve.{down, find-one_other, name_of-rebuild, resolve-found}

list_beq_sym_false : (p q : Bytes) → list_beq p q ≡ false → list_beq q p ≡ false
list_beq_sym_false p q h = elim (Bool-cases (list_beq q p)) [
  | inr differs ↦ differs
  | inl same ↦ absurd (cc (h, (list_beq_iff p q).1 (sym ((list_beq_iff q p).0 same))))
]

-- A name that an entry at the end has not.
pub find-add_entry :
    (name : Bytes) (c : Entry) (es : Entries)
    → list_beq (name_of c) name ≡ false
    → find name (add_entry c es) ≡ find name es
find-add_entry name c es differs =
    rw (find-append name es (more c nothing), find-one_other name c differs)
      (first_of-none (find name es))

find-more-none :
    (name : Bytes) (e : Entry) (es : Entries)
    → find name (more e es) ≡ none
    → (list_beq (name_of e) name ≡ false) × (find name es ≡ none)
unfolding find
find-more-none name e es h = ground arith

pub UniqueAll-add_entry :
    (c : Entry) (es : Entries)
    → UniqueAll es
    → Unique c
    → find (name_of c) es ≡ none
    → UniqueAll (add_entry c es)
unfolding UniqueAll find
UniqueAll-add_entry c nothing u uc h = (refl, (uc, tt))
UniqueAll-add_entry c (more e es) (fresh, (ue, u)) uc h =
    let (differs, rest) = find-more-none (name_of c) e es h in
    (
      find-add_entry (name_of e) c es (list_beq_sym_false (name_of e) (name_of c) differs) ∙ fresh,
      (ue, UniqueAll-add_entry c es u uc rest),
    )

pub UniqueAll-without : (name : Bytes) (es : Entries) → UniqueAll es → UniqueAll (without name es)
unfolding UniqueAll without
UniqueAll-without name nothing u = tt
UniqueAll-without name (more e es) (fresh, (ue, u)) =
    elim (Bool-cases (list_beq (name_of e) name)) [
      | inl same ↦ rw same u
      | inr differs ↦ rw differs (
        find-without-other name (name_of e) es (list_beq_sym_false (name_of e) name differs)
            ∙ fresh,
        (ue, UniqueAll-without name es u),
      )
    ]

-- Names are unique after a change to a directory, if they are in that directory.
pub Unique-rebuild :
    (names : List Bytes) (f : Entries → Entries) (e : Entry) {e2 : Entry}
    → Unique e
    → rebuild names f e ≡ some e2
    → ((name : Bytes) (stat : Stat) (es : Entries)
        → resolve names e ≡ some (directory name stat es)
        → UniqueAll es
        → UniqueAll (f es))
    → Unique e2
unfolding rebuild resolve Unique
Unique-rebuild [] f (file _ _ _) u h keep = cc
Unique-rebuild [] f (directory name stat es) {e2} u h keep =
    let is : directory name stat (f es) ≡ e2 = cc h in subst Unique is (keep name stat es refl u)
Unique-rebuild (next ∷ names) f e u h keep =
    let r = down next names f e h in
    let u' : UniqueAll r.es = subst Unique r.is u in
    let same = name_of-rebuild names f r.child r.below ∙ find-name next r.es r.found in
    let gone = ap (λ m. find m (without next r.es)) same ∙ find-without_self next r.es u' in
    subst Unique (sym r.is2) (
      UniqueAll-add_entry r.child2 (without next r.es) (UniqueAll-without next r.es u')
        (Unique-rebuild names f r.child (Unique-find next r.es u' r.found) r.below
          (λ name stat es at. keep name stat es (
            ap (resolve (next ∷ names)) r.is
            ∙ resolve-found next names r.name r.stat r.es r.found
            ∙ at)))
        gone)
