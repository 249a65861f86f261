-- ===== src/PingService/Network/View.antt =====
-- What a step does to the blocks of lib/src/block/block_manager/ping/ping_block_manager.cc: those in
-- flight, those of sleeping threads, the freed ids, and the requests that wait.
use pingfs.Base.{
  ℕ, zero, suc, ◌+◌, true, List, [], ◌∷◌, ◌++◌, Option, some, ◌≡◌, sym, ◌∙◌, subst, ◌⊎◌, inl, inr,
  Option-cases,
}
use mathlib.Core.List.Memᴰ
use mathlib.Core.List.{Memᴰ}
use pingfs.Base.Sets.{mem, add, remove}
use pingfs.BlockData.Data.{BlockId}
use pingfs.BlockData.Block.{Block}
use pingfs.PingService.Manager.{take_out}
use pingfs.PingService.Network.{without_id}
use pingfs.BlockManager.Async.{AsyncBlockManager}
use pingfs.BlockManager.Async.Wakeup.{IsManager}
use pingfs.BlockManager.Async.Progress.{
  after_process, process-IsManager, request-IsManager, after_request,
}

pub record Taken {A : Type 0} (x : A) (xs rest : List A) : Type 0 where
  pub here : Memᴰ x xs
  pub out : (y : A) → Memᴰ y xs → (y ≡ x) ⊎ Memᴰ y rest
  pub back : (y : A) → Memᴰ y rest → Memᴰ y xs

later : {A : Type 0} {x y : A} {xs rest : List A} → Taken x xs rest → Taken x (y ∷ xs) (y ∷ rest)
later t = record {
  here = Memᴰ.tail t.here;
  out = λ z m. elim (Memᴰ.cases_cons m) [
    | inl e ↦ inr (Memᴰ.head e)
    | inr m' ↦ elim (t.out z m') [ inl e ↦ inl e | inr r ↦ inr (Memᴰ.tail r) ]
  ];
  back = λ z m. elim (Memᴰ.cases_cons m) [ inl e ↦ Memᴰ.head e | inr r ↦ Memᴰ.tail (t.back z r) ];
}

pub take_out-Taken :
    {A : Type 0} (i : ℕ) (xs : List A) {x : A} {rest : List A}
    → take_out i xs ≡ some (x, rest)
    → Taken x xs rest
unfolding take_out
take_out-Taken i [] e = cc
take_out-Taken {A} zero (y ∷ xs) {x} {rest} e =
    let same : x ≡ y = cc in
    let left : xs ≡ rest = cc in
    record {
      here = Memᴰ.head same;
      out = λ z m. elim (Memᴰ.cases_cons m) [
        | inl h ↦ inl (h ∙ sym same)
        | inr r ↦ inr (subst (Memᴰ z) left r)
      ];
      back = λ z m. Memᴰ.tail (subst (Memᴰ z) (sym left) m);
    }
take_out-Taken {A} (suc i) (y ∷ xs) {x} {rest} e = elim (Option-cases (take_out i xs)) [
  | inl none' ↦ cc (none', e)
  | inr ((z, rest'), at) ↦
      let step : take_out (suc i) (y ∷ xs) ≡ some (z, y ∷ rest') = rw at in
      let same : ◌≡◌ {A = Option (A × List A)} (some (z, y ∷ rest')) (some (x, rest)) =
        sym step ∙ e in
      let head' : z ≡ x = cc in
      let tail' : y ∷ rest' ≡ rest = cc in
      subst (λ x'. Taken x' (y ∷ xs) rest) head'
        (subst (Taken z (y ∷ xs)) tail' (later (take_out-Taken i xs at)))
]

pub record View : Type 0 where
  pub next : ℕ
  pub freed_ids : List BlockId
  pub asleep : List Block
  pub requests : AsyncBlockManager
  pub flying : List Block

-- A step, with the blocks that are alive before and after it, and the block that comes back.
pub data Moves (live : List Block) (v : View) : List Block → List Block → View → Type 0 where
  creates :
      (b : Block)
      → b.block_id ≡ v.next
      → Moves live v [] (b ∷ live) (record v { next = v.next + 1; flying = v.flying ++ b ∷ [] })
  duplicates :
      (b : Block)
      → b.block_id ≡ v.next
      → Moves live v []
          (b ∷ live)
          (record v { next = v.next + 1; asleep = v.asleep ++ b ∷ []; flying = v.flying ++ b ∷ [] })
  wakes :
      (b : Block) (rest : List Block)
      → Taken b v.asleep rest
      → Moves live v [] live (record v { asleep = rest; flying = v.flying ++ b ∷ [] })
  idles : Moves live v [] live v
  frees :
      (b : Block)
      → Memᴰ b live
      → Moves live v []
          (without_id b.block_id live)
          (record v { freed_ids = add b.block_id v.freed_ids })
  asks :
      (ids : List BlockId)
      → Moves live v [] live (record v { requests = after_request ids v.requests })
  lands :
      (b : Block) (rest : List Block)
      → Taken b v.flying rest
      → mem b.block_id v.freed_ids ≡ true
      → Moves live v (b ∷ []) live (record v {
        freed_ids = remove b.block_id v.freed_ids;
        flying = rest;
        requests = after_process b v.requests;
      })
  returns :
      (b : Block) (rest : List Block)
      → Taken b v.flying rest
      → Moves live v
          (b ∷ [])
          live
          (record v { flying = rest ++ b ∷ []; requests = after_process b v.requests })

pub Moves-IsManager :
    {live live' seen : List Block} {v v' : View}
    → Moves live v seen live' v'
    → IsManager v.requests
    → IsManager v'.requests
Moves-IsManager (creates b is) valid = valid
Moves-IsManager (duplicates b is) valid = valid
Moves-IsManager (wakes b rest t) valid = valid
Moves-IsManager idles valid = valid
Moves-IsManager (frees b alive) valid = valid
Moves-IsManager {v} (asks ids) valid = request-IsManager ids v.requests valid
Moves-IsManager {v} (lands b rest t gone) valid = process-IsManager b v.requests valid
Moves-IsManager {v} (returns b rest t) valid = process-IsManager b v.requests valid
