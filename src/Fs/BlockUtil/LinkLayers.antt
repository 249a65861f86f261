-- ===== src/Fs/BlockUtil/LinkLayers.antt =====
-- Layers of links in lib/src/fs/block_util.cc store the text of the blocks below them. Each link has
-- four children, the branching factor of lib/include/pingfs/fs/block_fuse.hpp.
use pingfs.Base.{
  ℕ, zero, suc, ◌+◌, ◌-◌, ◌*◌, ◌/◌, ◌≤◌, List, [], ◌∷◌, ◌++◌, some, Bytes, length, take, drop, ok,
  ◌≡◌, refl, sym, ap, subst, ◌∙◌, arith, append_assoc, append-nil, take-append-drop, length-append,
  length-drop,
}
use native.Mathlib.Nat.{suc-mul, mul-le-mul_left}
use pingfs.BlockData.Data.{link}
use pingfs.BlockData.Block.{Block}
use pingfs.BlockManager.Interface.{BlockManager, IsBlockManager}
use pingfs.Fs.FsUtil.Split.{drop-drop}
use pingfs.Fs.BlockUtil.Links.{child_links, link_layer_loop, add_link_layer, add_layers}
use pingfs.Fs.BlockUtil.Stores.{View, Stores}
use pingfs.Fs.BlockUtil.Extends.{
  Stores-Extends, Stores-split, StoresBoth, Stores-nothing, IsCreated-Extends,
}
use pingfs.Fs.BlockUtil.Layers.{ids_of, ids_of-append, Stores-snoc, child_links-take, Layer}
use Stores.{nil, node}

-- The first four of the blocks that are left, and the others.
first_links :
    {look : View} {d : ℕ} {u : Bytes} (blocks : List Block) (i : ℕ)
    → Stores look d (ids_of (drop (i * 4) blocks)) u
    → StoresBoth look d (child_links blocks (i * 4) 4) (ids_of (drop (suc i * 4) blocks)) u
first_links {look} {d} {u} blocks i stored =
    let next : drop 4 (drop (i * 4) blocks) ≡ drop (suc i * 4) blocks =
      drop-drop (i * 4) 4 blocks ∙ ap (λ n. drop n blocks) (omega arith) in
    let parts : ids_of (drop (i * 4) blocks)
        ≡ child_links blocks (i * 4) 4 ++ ids_of (drop (suc i * 4) blocks) =
      ap ids_of (sym (take-append-drop 4 (drop (i * 4) blocks)))
      ∙ ids_of-append (take 4 (drop (i * 4) blocks)) (drop 4 (drop (i * 4) blocks))
      ∙ ap (λ xs. ids_of (take 4 (drop (i * 4) blocks)) ++ ids_of xs) next
      ∙ ap (λ xs. xs ++ ids_of (drop (suc i * 4) blocks))
          (sym (child_links-take blocks (i * 4) 4)) in
    Stores-split (child_links blocks (i * 4) 4) (subst (λ xs. Stores look d xs u) parts stored)

no_text :
    {look : View} {d : ℕ} {u : Bytes} (xs : List Block)
    → Stores look d (ids_of xs) u
    → length xs ≤ 0
    → u ≡ []
no_text [] stored h = Stores-nothing stored
no_text (x ∷ xs) stored h = absurd (omega (arith, h))

module _ {S : Type 0} (manager : BlockManager S) (contract : IsBlockManager manager) where
  link_layer_loop-Layer :
      {d : ℕ} {t u : Bytes} (blocks : List Block) (n i : ℕ) (acc : List Block) (s : S)
      → contract.IsValid s
      → n ≤ contract.capacity s
      → length blocks ≤ (i + n) * 4
      → Stores (contract.look s) (suc d) (ids_of acc) t
      → Stores (contract.look s) d (ids_of (drop (i * 4) blocks)) u
      → (layer : List Block) × (s' : S) × (link_layer_loop manager blocks 4 i n acc s
          ≡ ok (layer, s'))
        × Layer manager contract (suc d) (t ++ u) s s' layer
        × (contract.capacity s ≡ n + contract.capacity s')
        × (length layer ≡ length acc + n)
  unfolding link_layer_loop
  link_layer_loop-Layer {d} {t} {u} blocks zero i acc s valid room fits stored left =
      let none_left =
        no_text (drop (i * 4) blocks) left (omega (arith, fits, length-drop (i * 4) blocks)) in
      (
        acc,
        s,
        refl,
        record {
          valid = valid;
          extends = λ j b at. at;
          stored =
              subst (Stores (contract.look s) (suc d) (ids_of acc))
                (sym (ap (λ w. t ++ w) none_left ∙ append-nil t)) stored;
        },
        omega arith,
        omega arith,
      )
  link_layer_loop-Layer {d} {t} {u} blocks (suc n) i acc s valid room fits stored left =
      let parts = first_links blocks i left in
      let (b, s1, e, made, valid1, cap) =
        contract.create (link (record { children = child_links blocks (i * 4) 4 })) s valid
          (omega (arith, room)) in
      let more = IsCreated-Extends _ s b s1 made in
      let at : contract.look s1 b.block_id ≡ some b = ground (arith, made.stored b.block_id) in
      let stored1 =
        Stores-snoc acc b parts.front (Stores-Extends more stored)
          (node at made.holds (Stores-Extends more parts.in_front) nil) in
      let next : i + 1 ≡ suc i = omega arith in
      let (layer, s', e', l, cap', len) =
        link_layer_loop-Layer {t = t ++ parts.front} {u = parts.behind} blocks n (suc i)
          (acc ++ b ∷ []) s1 valid1 (omega (arith, room, cap)) (omega (arith, fits)) stored1
          (Stores-Extends more parts.in_behind) in
      (
        layer,
        s',
        rw (e, next, e'),
        record {
          valid = l.valid;
          extends = λ j x h. l.extends j x (more j x h);
          stored =
              subst (Stores (contract.look s') (suc d) (ids_of layer))
                (append_assoc t parts.front parts.behind ∙ ap (λ w. t ++ w) (sym parts.whole))
                l.stored;
        },
        omega (arith, cap, cap'),
        omega (arith, len, length-append acc (b ∷ [])),
      )

  -- `d` layers over blocks that store a text. No layer has more blocks than the one below it.
  pub add_layers-Layer :
      {e : ℕ} {t : Bytes} (d : ℕ) (blocks : List Block) (s : S)
      → contract.IsValid s
      → d * length blocks ≤ contract.capacity s
      → Stores (contract.look s) e (ids_of blocks) t
      → (top : List Block) × (s' : S) × (add_layers manager d blocks 4 s ≡ ok (top, s'))
        × Layer manager contract (d + e) t s s' top
  unfolding add_layers add_link_layer
  add_layers-Layer {e} {t} zero blocks s valid room stored = (
    blocks,
    s,
    refl,
    record {
      valid = valid;
      extends = λ j b at. at;
      stored = subst (λ k. Stores (contract.look s) k (ids_of blocks) t) (omega arith) stored;
    },
  )
  add_layers-Layer {e} {t} (suc d) blocks s valid room stored =
      let n : ℕ = (length blocks + 4 - 1) / 4 in
      let product = suc-mul d (length blocks) in
      let smaller : n ≤ length blocks = omega arith in
      let (layer, s1, made, l, cap, len) =
        link_layer_loop-Layer {t = []} {u = t} blocks n 0 [] s valid
          (omega (arith, room, product, smaller)) (omega arith) nil stored in
      let less = mul-le-mul_left d smaller in
      let (top, s', made', l') =
        add_layers-Layer {e = suc e} {t = t} d layer s1 l.valid
          (subst (λ k. d * k ≤ contract.capacity s1) (sym len)
            (omega (arith, room, product, less, cap)))
          l.stored in
      (
        top,
        s',
        rw (made, made'),
        record {
          valid = l'.valid;
          extends = λ j x h. l'.extends j x (l.extends j x h);
          stored = subst (λ k. Stores (contract.look s') k (ids_of top) t) (omega arith) l'.stored;
        },
      )
