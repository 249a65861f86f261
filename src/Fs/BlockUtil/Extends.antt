-- ===== src/Fs/BlockUtil/Extends.antt =====
-- Stored text when blocks are added, and when lists of blocks are joined and split.
use pingfs.Base.{
  ℕ, zero, suc, ◌≤◌, List, [], ◌∷◌, ◌++◌, Option, some, Bytes, ◌≡◌, refl, sym, ap, subst, ◌∙◌,
  arith, append_assoc,
}
use pingfs.BlockData.Data.{BlockId, BlockData}
use pingfs.BlockData.Block.{Block}
use pingfs.BlockManager.Interface.{IsCreated}
use pingfs.Fs.BlockUtil.Stores.{View, Stores}
use Stores.{nil, leaf, node}

-- Every block of the first view is in the second.
abbrev pub Extends : View → View → Type 0
Extends look look' = (j : BlockId) (b : Block) → look j ≡ some b → look' j ≡ some b

pub Stores-Extends :
    {look look' : View} {d : ℕ} {ids : List BlockId} {text : Bytes}
    → Extends look look'
    → Stores look d ids text
    → Stores look' d ids text
Stores-Extends more nil = nil
Stores-Extends more (leaf {i} {b} at is rest) = leaf (more i b at) is (Stores-Extends more rest)
Stores-Extends more (node {i} {b} at is inner rest) =
    node (more i b at) is (Stores-Extends more inner) (Stores-Extends more rest)

pub Stores-append :
    {look : View} {d : ℕ} {xs ys : List BlockId} {t u : Bytes}
    → Stores look d xs t
    → Stores look d ys u
    → Stores look d (xs ++ ys) (t ++ u)
Stores-append {look} {u} nil q = q
Stores-append {look} {ys} {u} (leaf {d} {c} {ids} {text} at is rest) q =
    subst (Stores look d _) (sym (append_assoc c.data_ text u)) (leaf at is (Stores-append rest q))
Stores-append {look} {ys} {u} (node {d} {ids} {below} {text} at is inner rest) q =
    subst (Stores look (suc d) _) (sym (append_assoc below text u))
      (node at is inner (Stores-append rest q))

-- More layers of links are allowed than there are.
pub Stores-le :
    {look : View} {d : ℕ} {ids : List BlockId} {text : Bytes} (k : ℕ)
    → d ≤ k
    → Stores look d ids text
    → Stores look k ids text
Stores-le k le nil = nil
Stores-le k le (leaf at is rest) = leaf at is (Stores-le k le rest)
Stores-le zero le (node at is inner rest) = absurd (omega (arith, le))
Stores-le (suc k) le (node at is inner rest) =
    node at is (Stores-le k (omega (arith, le)) inner) (Stores-le (suc k) le rest)

-- A text that is stored below two lists of blocks, one after the other.
pub record StoresBoth (look : View) (d : ℕ) (xs ys : List BlockId) (text : Bytes) : Type 0 where
  pub front : Bytes
  pub behind : Bytes
  pub whole : text ≡ front ++ behind
  pub in_front : Stores look d xs front
  pub in_behind : Stores look d ys behind

pub Stores-split :
    {look : View} {d : ℕ} (xs : List BlockId) {ys : List BlockId} {text : Bytes}
    → Stores look d (xs ++ ys) text
    → StoresBoth look d xs ys text
Stores-split [] {text} t = record {
  front = [];
  behind = text;
  whole = refl;
  in_front = nil;
  in_behind = t;
}
Stores-split (x ∷ xs) (leaf {c} at is rest) =
    let r = Stores-split xs rest in
    record {
      front = c.data_ ++ r.front;
      behind = r.behind;
      whole = ap (λ z. c.data_ ++ z) r.whole ∙ sym (append_assoc c.data_ r.front r.behind);
      in_front = leaf at is r.in_front;
      in_behind = r.in_behind;
    }
Stores-split (x ∷ xs) (node {below} at is inner rest) =
    let r = Stores-split xs rest in
    record {
      front = below ++ r.front;
      behind = r.behind;
      whole = ap (λ z. below ++ z) r.whole ∙ sym (append_assoc below r.front r.behind);
      in_front = node at is inner r.in_front;
      in_behind = r.in_behind;
    }

pub Stores-nothing : {look : View} {d : ℕ} {text : Bytes} → Stores look d [] text → text ≡ []
Stores-nothing nil = refl

pub IsCreated-Extends :
    {S : Type 0} {look : S → BlockId → Option Block} (d : BlockData) (s : S) (b : Block) (s' : S)
    → IsCreated look d s b s'
    → Extends (look s) (look s')
IsCreated-Extends d s b s' made j x at = ground (arith, made.stored j, made.fresh, at)
