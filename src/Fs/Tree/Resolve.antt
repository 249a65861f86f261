-- ===== src/Fs/Tree/Resolve.antt =====
-- What a path leads to in a tree of names, before and after a change: the specification of
-- lib/src/fs/block_fuse.cc.
use pingfs.Base.{
  true, false, List, [], ◌∷◌, ◌++◌, none, some, Bytes, ◌≡◌, refl, sym, ap, subst, ◌∙◌, arith,
  list_beq, list_beq_iff, nat_eq, Bool-cases, Option-cases, inl, inr,
}
use pingfs.BlockData.Stat.{Stat}
use pingfs.Fs.Tree.{Entry, Entries, name_of, ◌+++◌, find, without, resolve, rebuild}
use Entry.{directory, file}
use Entries.{nothing, more}
use pingfs.Fs.Tree.Laws.{
  Unique, Unique-find, UniqueAll, diverges, find-append, find-here, find-name, find-without-other,
  find-without_self, first_of-none, same_name,
}

-- One step down in `rebuild`.
pub record Down (next : Bytes) (names : List Bytes) (f : Entries → Entries) (e e2 : Entry)
    : Type 0 where
  pub name : Bytes
  pub stat : Stat
  pub es : Entries
  pub child : Entry
  pub child2 : Entry
  pub is : e ≡ directory name stat es
  pub found : find next es ≡ some child
  pub below : rebuild names f child ≡ some child2
  pub is2 : e2 ≡ directory name stat (without next es +++ more child2 nothing)

pub down :
    (next : Bytes) (names : List Bytes) (f : Entries → Entries) (e : Entry) {e2 : Entry}
    → rebuild (next ∷ names) f e ≡ some e2
    → Down next names f e e2
unfolding rebuild
down next names f (file name stat text) h = absurd (cc (h))
down next names f (directory name stat es) h = elim (Option-cases (find next es)) [
  | inl missing ↦ absurd (cc (missing, h))
  | inr (c, found) ↦ elim (Option-cases (rebuild names f c)) [
    | inl missing ↦ absurd (cc (found, missing, h))
    | inr (c2, below) ↦ record {
      name = name;
      stat = stat;
      es = es;
      child = c;
      child2 = c2;
      is = refl;
      found = found;
      below = below;
      is2 =
          let made : rebuild (next ∷ names) f (directory name stat es)
              ≡ some (directory name stat (without next es +++ more c2 nothing)) =
            rw (found, rebuild, below) refl in
          cc (made, h);
    }
  ]
]

pub name_of-rebuild :
    (names : List Bytes) (f : Entries → Entries) (e : Entry) {e2 : Entry}
    → rebuild names f e ≡ some e2
    → name_of e2 ≡ name_of e
unfolding rebuild
name_of-rebuild [] f (file name stat text) h = cc
name_of-rebuild [] f (directory name stat es) {e2} h =
    sym (ap name_of (let is : directory name stat (f es) ≡ e2 = cc h in is))
name_of-rebuild (next ∷ names) f e h =
    let r = down next names f e h in ap name_of r.is2 ∙ sym (ap name_of r.is)

find-moved :
    (next : Bytes) (es : Entries) (c : Entry)
    → UniqueAll es
    → name_of c ≡ next
    → find next (without next es +++ more c nothing) ≡ some c
find-moved next es c u same =
    rw (find-append next (without next es) (more c nothing), find-without_self next es u)
      (find-here next c nothing ((list_beq_iff (name_of c) next).1 same))

pub find-one_other :
    (other : Bytes) (c : Entry)
    → list_beq (name_of c) other ≡ false
    → find other (more c nothing) ≡ none
unfolding find
find-one_other other c differs = rw differs

find-moved-other :
    (next other : Bytes) (es : Entries) (c : Entry)
    → name_of c ≡ next
    → list_beq next other ≡ false
    → find other (without next es +++ more c nothing) ≡ find other es
find-moved-other next other es c same differs =
    let last = find-one_other other c (ap (λ m. list_beq m other) same ∙ differs) in
    rw (find-append other (without next es) (more c nothing), last, first_of-none)
      (find-without-other next other es differs)

-- One step of `resolve`.
pub resolve-found :
    (q : Bytes) (qs : List Bytes) (name : Bytes) (stat : Stat) (es : Entries) {c : Entry}
    → find q es ≡ some c
    → resolve (q ∷ qs) (directory name stat es) ≡ resolve qs c
unfolding resolve
resolve-found q qs name stat es found = rw (resolve, found)

resolve-same :
    (q : Bytes) (qs : List Bytes) (name : Bytes) (stat : Stat) (es fs : Entries)
    → find q es ≡ find q fs
    → resolve (q ∷ qs) (directory name stat es) ≡ resolve (q ∷ qs) (directory name stat fs)
unfolding resolve
resolve-same q qs name stat es fs same = rw (resolve, same)

pub resolve-append :
    (names rest : List Bytes) (e : Entry) {c : Entry}
    → resolve names e ≡ some c
    → resolve (names ++ rest) e ≡ resolve rest c
unfolding resolve
resolve-append [] rest e at = ap (resolve rest) (cc at)
resolve-append (q ∷ names) rest (file _ _ _) at = cc
resolve-append (q ∷ names) rest (directory name stat es) at = elim (Option-cases (find q es)) [
  | inl missing ↦ absurd (cc (missing, at))
  | inr (c', found) ↦
      resolve-found q (names ++ rest) name stat es found
      ∙ resolve-append names rest c' (sym (resolve-found q names name stat es found) ∙ at)
]

pub resolve-append_none :
    (names rest : List Bytes) (e : Entry)
    → resolve names e ≡ none
    → resolve (names ++ rest) e ≡ none
unfolding resolve
resolve-append_none [] rest e h = cc
resolve-append_none (q ∷ names) rest (file _ _ _) h = refl
resolve-append_none (q ∷ names) rest (directory name stat es) h = elim (Option-cases (find q es)) [
  | inl missing ↦ rw (resolve, missing)
  | inr (c, found) ↦
      resolve-found q (names ++ rest) name stat es found
      ∙ resolve-append_none names rest c (sym (resolve-found q names name stat es found) ∙ h)
]

pub resolve-one :
    (name : Bytes) (dn : Bytes) (stat : Stat) (es : Entries)
    → resolve (name ∷ []) (directory dn stat es) ≡ find name es
unfolding resolve
resolve-one name dn stat es = elim (Option-cases (find name es)) [
  | inl missing ↦ rw (resolve, missing)
  | inr (c, found) ↦ rw (resolve, found)
]

-- The names of a changed directory lead to its new entries.
pub resolve-rebuild :
    (names rest : List Bytes) (f : Entries → Entries) (e : Entry) {e2 : Entry} {name : Bytes}
    {stat : Stat} {es : Entries}
    → Unique e
    → rebuild names f e ≡ some e2
    → resolve names e ≡ some (directory name stat es)
    → resolve (names ++ rest) e2 ≡ resolve rest (directory name stat (f es))
unfolding resolve rebuild Unique
resolve-rebuild [] rest f (file _ _ _) u h at = cc
resolve-rebuild [] rest f (directory name stat es) u h at = ap (resolve rest) (cc (h, at))
resolve-rebuild (next ∷ names) rest f e {e2} u h at =
    let r = down next names f e h in
    let u' : UniqueAll r.es = subst Unique r.is u in
    let child : resolve names r.child ≡ resolve (next ∷ names) e =
      sym
        (ap (resolve (next ∷ names)) r.is ∙ resolve-found next names r.name r.stat r.es r.found) in
    let moved =
      find-moved next r.es r.child2 u'
        (name_of-rebuild names f r.child r.below ∙ find-name next r.es r.found) in
    ap (resolve (next ∷ (names ++ rest))) r.is2
    ∙ resolve-found next (names ++ rest) r.name r.stat (without next r.es +++ more r.child2 nothing)
        moved
    ∙ resolve-rebuild names rest f r.child (Unique-find next r.es u' r.found) r.below (child ∙ at)

-- A path that parts from the one to an entry leads to what it led to, if the change is to no other
-- entry.
pub resolve-rebuild_other :
    (parents : List Bytes) (name : Bytes) (qs : List Bytes) (f : Entries → Entries) (e : Entry)
    {e2 : Entry}
    → Unique e
    → ((es : Entries) (q : Bytes) → list_beq name q ≡ false → find q (f es) ≡ find q es)
    → rebuild parents f e ≡ some e2
    → diverges (parents ++ name ∷ []) qs ≡ true
    → resolve qs e2 ≡ resolve qs e
unfolding rebuild diverges
resolve-rebuild_other [] name [] f e u same h d = cc
resolve-rebuild_other [] name (q ∷ qs) f (file _ _ _) u same h d = cc
resolve-rebuild_other [] name (q ∷ qs) f (directory n st es) {e2} u same h d =
    let is : directory n st (f es) ≡ e2 = cc h in
    sym (ap (resolve (q ∷ qs)) is) ∙ resolve-same q qs n st (f es) es (same es q (ground arith))
resolve-rebuild_other (next ∷ parents) name [] f e u same h d = cc
resolve-rebuild_other (next ∷ parents) name (q ∷ qs) f e u same h d =
    let r = down next parents f e h in
    let es2 = without next r.es +++ more r.child2 nothing in
    let name2 = name_of-rebuild parents f r.child r.below ∙ find-name next r.es r.found in
    ap (resolve (q ∷ qs)) r.is2
    ∙ elim (Bool-cases (list_beq next q)) [
      | inr differs ↦
          resolve-same q qs r.name r.stat es2 r.es
            (find-moved-other next q r.es r.child2 name2 differs)
      | inl equal ↦
          let here = same_name next q equal in
          let u' : UniqueAll r.es = unfold Unique in subst Unique r.is u in
          let moved : find q es2 ≡ some r.child2 =
            subst (λ m. find m es2 ≡ some r.child2) here (find-moved next r.es r.child2 u' name2) in
          let found = subst (λ m. find m r.es ≡ some r.child) here r.found in
          let rest : diverges (parents ++ name ∷ []) qs ≡ true = ground (arith, d, equal) in
          resolve-found q qs r.name r.stat es2 moved
          ∙ resolve-rebuild_other parents name qs f r.child (Unique-find next r.es u' r.found) same
              r.below rest
          ∙ sym (resolve-found q qs r.name r.stat r.es found)
    ]
    ∙ sym (ap (resolve (q ∷ qs)) r.is)
