-- ===== src/Fs/Tree/Laws.antt =====
-- Laws of the tree of names: what a path leads to after the entries of a directory have changed.
use pingfs.Base.{
  Bool, true, false, if◌then◌else◌, List, [], ◌∷◌, Option, none, some, Bytes, ◌≡◌, refl, sym, subst,
  ◌∙◌, arith, list_beq, list_beq_iff, nat_eq, Bool-cases, inl, inr,
}
use pingfs.Fs.Tree.{Entry, Entries, name_of, ◌+++◌, find, without}
use Entry.{directory, file}
use Entries.{nothing, more}

-- No directory has two entries of one name.
unfoldable mutual
  pub Unique : Entry → Type 0
  Unique (directory name stat es) = UniqueAll es
  Unique (file name stat text) = Unit

  pub UniqueAll : Entries → Type 0
  UniqueAll nothing = Unit
  UniqueAll (more e es) = (find (name_of e) es ≡ none) × (Unique e × UniqueAll es)

-- Two paths that part before either ends.
unfoldable pub diverges : List Bytes → List Bytes → Bool
diverges [] qs = false
diverges (p ∷ ps) [] = false
diverges (p ∷ ps) (q ∷ qs) = if list_beq p q then diverges ps qs else true

pub same_name : (p q : Bytes) → list_beq p q ≡ true → p ≡ q
same_name p q h = (list_beq_iff p q).0 h

other_name : (p q r : Bytes) → list_beq p q ≡ true → list_beq p r ≡ list_beq q r
other_name p q r h = rw (same_name p q h) refl

pub find-here :
    (name : Bytes) (e : Entry) (es : Entries)
    → list_beq (name_of e) name ≡ true
    → find name (more e es) ≡ some e
unfolding find
find-here name e es same = rw same

find-later :
    (name : Bytes) (e : Entry) (es : Entries)
    → list_beq (name_of e) name ≡ false
    → find name (more e es) ≡ find name es
unfolding find
find-later name e es differs = rw differs

pub find-name : (name : Bytes) (es : Entries) {c : Entry} → find name es ≡ some c → name_of c ≡ name
find-name name nothing h = unfold find in cc
find-name name (more e es) h = elim (Bool-cases (list_beq (name_of e) name)) [
  | inl same ↦ cc (find-here name e es same, h, same_name (name_of e) name same)
  | inr differs ↦ find-name name es (sym (find-later name e es differs) ∙ h)
]

abbrev pub first_of : Option Entry → Option Entry → Option Entry
first_of none o = o
first_of (some e) o = some e

pub first_of-none : (o : Option Entry) → first_of o none ≡ o
first_of-none none = refl
first_of-none (some e) = refl

pub find-append :
    (name : Bytes) (es fs : Entries)
    → find name (es +++ fs) ≡ first_of (find name es) (find name fs)
unfolding find
find-append name nothing fs = refl
find-append name (more e es) fs = ground (arith, find-append name es fs)

pub find-without-other :
    (name other : Bytes) (es : Entries)
    → list_beq name other ≡ false
    → find other (without name es) ≡ find other es
unfolding find without
find-without-other name other nothing h = refl
find-without-other name other (more e es) h =
    ground (arith, find-without-other name other es, other_name (name_of e) name other)

pub find-without_self :
    (name : Bytes) (es : Entries) → UniqueAll es → find name (without name es) ≡ none
unfolding find without UniqueAll
find-without_self name nothing u = refl
find-without_self name (more e es) (fresh, (_, u)) =
    ground (arith, find-without_self name es u, same_name (name_of e) name, fresh)

pub Unique-find :
    (name : Bytes) (es : Entries) {c : Entry} → UniqueAll es → find name es ≡ some c → Unique c
unfolding find UniqueAll
Unique-find name nothing u h = cc
Unique-find name (more e es) {c} (_, (here, u)) h = elim (Bool-cases (list_beq (name_of e) name)) [
  | inl same ↦ subst Unique (cc (find-here name e es same, h)) here
  | inr differs ↦ Unique-find name es u (sym (find-later name e es differs) ∙ h)
]
