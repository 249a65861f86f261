-- ===== src/Fs/BlockUtil/Layers.antt =====
-- The blocks that hold a text in lib/src/fs/block_util.cc: leaves are made one by one, and a layer of
-- links is laid over them.
use pingfs.Base.{
  ℕ, zero, suc, ◌+◌, ◌≤◌, List, [], ◌∷◌, ◌++◌, map, none, some, Bytes, length, take, drop,
  get_elem?, ok, ◌≡◌, refl, sym, ap, subst, arith, append_assoc, append-nil, length-append,
  Option-cases, inl, inr,
}
use pingfs.BlockData.Data.{BlockId, file_contents}
use pingfs.BlockData.Block.{Block}
use pingfs.BlockManager.Interface.{BlockManager, IsBlockManager}
use pingfs.Fs.BlockUtil.Links.{child_links, create_leaves}
use pingfs.Fs.BlockUtil.Stores.{View, Stores}
use pingfs.Fs.BlockUtil.Extends.{Extends, Stores-Extends, Stores-append, IsCreated-Extends}
use Stores.{nil, leaf}

abbrev pub ids_of : List Block → List BlockId
ids_of = map (λ b. b.block_id)

abbrev pub concat : List Bytes → Bytes
concat [] = []
concat (text ∷ texts) = text ++ concat texts

pub ids_of-append : (xs ys : List Block) → ids_of (xs ++ ys) ≡ ids_of xs ++ ids_of ys
ids_of-append [] ys = refl
ids_of-append (x ∷ xs) ys = ap (◌∷◌ x.block_id) (ids_of-append xs ys)

-- One more block behind a list that stores a text.
pub Stores-snoc :
    {look : View} {d : ℕ} {t : Bytes} (acc : List Block) (b : Block) (u : Bytes)
    → Stores look d (ids_of acc) t
    → Stores look d (b.block_id ∷ []) (u ++ [])
    → Stores look d (ids_of (acc ++ b ∷ [])) (t ++ u)
Stores-snoc {look} {d} {t} acc b u stored one =
    subst (λ ids. Stores look d ids (t ++ u)) (sym (ids_of-append acc (b ∷ [])))
      (subst (λ w. Stores look d (ids_of acc ++ b.block_id ∷ []) (t ++ w)) (append-nil u)
        (Stores-append stored one))

drop-none : (xs : List Block) (i : ℕ) → get_elem? xs i ≡ none → drop i xs ≡ []
drop-none [] zero h = refl
drop-none [] (suc i) h = refl
drop-none (x ∷ xs) zero h = cc
drop-none (x ∷ xs) (suc i) h = drop-none xs i h

drop-some :
    (xs : List Block) (i : ℕ) {x : Block}
    → get_elem? xs i ≡ some x
    → drop i xs ≡ x ∷ drop (suc i) xs
drop-some [] zero h = cc
drop-some [] (suc i) h = cc
drop-some (x ∷ xs) zero h = cc
drop-some (x ∷ xs) (suc i) h = drop-some xs i h

pub child_links-take :
    (blocks : List Block) (i n : ℕ) → child_links blocks i n ≡ ids_of (take n (drop i blocks))
unfolding child_links
child_links-take blocks i zero = refl
child_links-take blocks i (suc n) = elim (Option-cases (get_elem? blocks i)) [
  | inl absent ↦ rw (absent, child_links, drop-none blocks i absent)
  | inr (b, at) ↦
      let next : i + 1 ≡ suc i = omega arith in
      rw (at, child_links, drop-some blocks i at, next, child_links-take blocks (suc i) n)
]

module _ {S : Type 0} (manager : BlockManager S) (contract : IsBlockManager manager) where
  -- What a step that only creates blocks leaves: a layer of blocks that stores a text.
  pub record Layer (d : ℕ) (text : Bytes) (s s' : S) (layer : List Block) : Type 0 where
    pub valid : contract.IsValid s'
    pub extends : Extends (contract.look s) (contract.look s')
    pub stored : Stores (contract.look s') d (ids_of layer) text

  pub create_leaves-Layer :
      {t : Bytes} (leaves : List Bytes) (acc : List Block) (s : S)
      → contract.IsValid s
      → length leaves ≤ contract.capacity s
      → Stores (contract.look s) 0 (ids_of acc) t
      → (bs : List Block) × (s' : S) × (create_leaves manager leaves acc s ≡ ok (bs, s'))
        × Layer 0 (t ++ concat leaves) s s' bs
        × (contract.capacity s ≡ length leaves + contract.capacity s')
        × (length bs ≡ length acc + length leaves)
  unfolding create_leaves
  create_leaves-Layer {t} [] acc s valid room stored = (
    acc,
    s,
    refl,
    record {
      valid = valid;
      extends = λ j b at. at;
      stored = subst (Stores (contract.look s) 0 (ids_of acc)) (sym (append-nil t)) stored;
    },
    omega arith,
    omega arith,
  )
  create_leaves-Layer {t} (text ∷ leaves) acc s valid room stored =
      let (b, s1, e, made, valid1, cap) =
        contract.create (file_contents (record { data_ = text })) s valid (omega (arith, room)) in
      let more = IsCreated-Extends _ s b s1 made in
      let at : contract.look s1 b.block_id ≡ some b = ground (arith, made.stored b.block_id) in
      let stored1 = Stores-snoc acc b text (Stores-Extends more stored) (leaf at made.holds nil) in
      let (bs, s', e', layer, cap', len) =
        create_leaves-Layer leaves (acc ++ b ∷ []) s1 valid1 (omega (arith, room, cap)) stored1 in
      (
        bs,
        s',
        rw (e, e'),
        record {
          valid = layer.valid;
          extends = λ j x h. layer.extends j x (more j x h);
          stored =
              subst (Stores (contract.look s') 0 (ids_of bs)) (append_assoc t text (concat leaves))
                layer.stored;
        },
        omega (arith, cap, cap'),
        omega (arith, len, length-append acc (b ∷ [])),
      )
