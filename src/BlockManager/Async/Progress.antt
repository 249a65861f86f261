-- ===== src/BlockManager/Async/Progress.antt =====
-- Requests of lib/src/block/block_manager/async_block_manager.cc complete when their blocks have
-- arrived, in whatever order and between whatever other blocks.
use pingfs.Base.{
  ℕ, zero, suc, ◌<◌, ◌==◌, if◌then◌else◌, true, false, ◌&&◌, ◌||◌, not, List, [], ◌∷◌, ◌++◌, map,
  Option, none, some, Result, ok, ◌>>=◌, length, get_elem?, ◌≡◌, refl, arith, ap, ◌∙◌, subst,
  Option-cases, inl, inr, ◌⊎◌, length-map, get_elem?-append_length, length-append,
}
use mathlib.Core.Option
use pingfs.Base.Maps.{lookup, erase, Keys, lookup-insert, lookup-erase, Keys-insert, Keys-erase}
use pingfs.Base.Sets.{mem, remove, is_empty, mem-remove, mem-append, mem-add_all}
use pingfs.BlockData.Data.{BlockId}
use pingfs.BlockData.Block.{Block}
use pingfs.BlockManager.Async.{
  AsyncResponse, AsyncBlockManager, process, push_waiting, wait_for, request_blocks, future,
  vec_to_set,
}
use pingfs.BlockManager.Async.Response.{
  IsResponse, updated, updated-IsResponse, async_response-settled, settled, arrivals, missing,
  updates, updates-settled,
}
use pingfs.BlockManager.Async.Wakeup.{entry, IsManager, process-map, get_elem?-map}

abbrev pub after_process : Block → AsyncBlockManager → AsyncBlockManager
after_process b m = record {
  responses = map (updated b) m.responses;
  waiting = erase b.block_id m.waiting;
}

-- A response behind the update comes from one before it.
before_update :
    (b : Block) (rs : List AsyncResponse) (p : ℕ) (r' : AsyncResponse)
    → get_elem? (map (updated b) rs) p ≡ some r'
    → (r : AsyncResponse) × (get_elem? rs p ≡ some r) × (updated b r ≡ r')
before_update b [] p r' e = cc
before_update b (r ∷ rs) zero r' e = (r, refl, cc)
before_update b (r ∷ rs) (suc p) r' e = before_update b rs p r' e

module _ (b : Block) (m : AsyncBlockManager) (valid : IsManager m) where
  entry-erase :
      (id : BlockId) (p : ℕ)
      → mem p (entry id (erase b.block_id m.waiting))
        ≡ (if b.block_id == id then false else mem p (entry id m.waiting))
  unfolding mem
  entry-erase id p = ground (arith, lookup-erase b.block_id id m.waiting valid.keys)

  waits_of_updated :
      (r : AsyncResponse) (id : BlockId)
      → mem id (updated b r).waiting_on ≡ true
      → ((b.block_id == id) ≡ false) × (mem id r.waiting_on ≡ true)
  unfolding updated
  waits_of_updated r id h = ground (arith, mem-remove id b.block_id r.waiting_on)

  pub process-IsManager : IsManager (after_process b m)
  process-IsManager = record {
    keys = Keys-erase b.block_id m.waiting valid.keys;
    promises = λ p r' e.
        let (r, at, u) = before_update b m.responses p r' e in
        subst IsResponse u (updated-IsResponse b r (valid.promises p r at));
    bounded = λ id p h.
        rw (length-map (updated b) m.responses)
          (valid.bounded id p (ground (arith, entry-erase id p)));
    indexed = λ p r' id e h.
        let (r, at, u) = before_update b m.responses p r' e in
        let (ne, w) = waits_of_updated r id (rw u h) in
        entry-erase id p ∙ rw ne (valid.indexed p r id at w);
  }

-- Each id of the request gets the pointer, and no other entry changes.
push_waiting-entry :
    (p i id q : ℕ) (w : List (BlockId × List ℕ))
    → mem q (entry id (push_waiting p i w)) ≡ ((id == i && q == p) || mem q (entry id w))
unfolding push_waiting mem
push_waiting-entry p i id q w = elim (Option-cases (lookup i w)) [
  | inl e ↦ rw (e, push_waiting) (ground (arith, lookup-insert i id (p ∷ []) w, e))
  | inr (vec, e) ↦
      rw (e, push_waiting)
        (ground (arith, lookup-insert i id (vec ++ p ∷ []) w, mem-append q vec (p ∷ []), e))
]

push_waiting-Keys : (p i : ℕ) (w : List (BlockId × List ℕ)) → Keys w → Keys (push_waiting p i w)
unfolding push_waiting
push_waiting-Keys p i w h = elim (Option-cases (lookup i w)) [
  | inl e ↦ rw (e, push_waiting) (Keys-insert i (p ∷ []) w h)
  | inr (vec, e) ↦ rw (e, push_waiting) (Keys-insert i (vec ++ p ∷ []) w h)
]

wait_for-entry :
    (p : ℕ) (ids : List BlockId) (w : List (BlockId × List ℕ)) (id q : ℕ)
    → mem q (entry id (wait_for p ids w)) ≡ ((mem id ids && q == p) || mem q (entry id w))
unfolding mem wait_for
wait_for-entry p [] w id q = refl
wait_for-entry p (i ∷ ids) w id q =
    wait_for-entry p ids (push_waiting p i w) id q ∙ ground (arith, push_waiting-entry p i id q w)

wait_for-Keys :
    (p : ℕ) (ids : List BlockId) (w : List (BlockId × List ℕ)) → Keys w → Keys (wait_for p ids w)
unfolding wait_for
wait_for-Keys p [] w h = h
wait_for-Keys p (i ∷ ids) w h = wait_for-Keys p ids (push_waiting p i w) (push_waiting-Keys p i w h)

get_elem?-snoc {ℓ} :
    {A : Type ℓ} (xs : List A) (y : A) (p : ℕ) {r : A}
    → get_elem? (xs ++ y ∷ []) p ≡ some r
    → (get_elem? xs p ≡ some r) ⊎ ((p ≡ length xs) × (y ≡ r))
get_elem?-snoc [] y zero e = inr (refl, cc)
get_elem?-snoc [] y (suc p) e = cc
get_elem?-snoc (x ∷ xs) y zero e = inl e
get_elem?-snoc (x ∷ xs) y (suc p) e = elim (get_elem?-snoc xs y p e) [
  | inl h ↦ inl h
  | inr (h, h') ↦ inr (ap suc h, h')
]

abbrev pub after_request : List BlockId → AsyncBlockManager → AsyncBlockManager
after_request ids m = record {
  responses = m.responses ++ settled (vec_to_set ids) [] ∷ [];
  waiting = wait_for (length m.responses) ids m.waiting;
}

module _ (ids : List BlockId) (m : AsyncBlockManager) (valid : IsManager m) where
  entry-bounded :
      (id p : ℕ) → mem p (entry id m.waiting) ≡ true → p < length (after_request ids m).responses
  entry-bounded id p h =
      omega
        (arith, valid.bounded id p h, length-append m.responses (settled (vec_to_set ids) [] ∷ []))

  request-bounded :
      (id p : ℕ)
      → mem p (entry id (after_request ids m).waiting) ≡ true
      → p < length (after_request ids m).responses
  request-bounded id p h = ground (
    arith,
    wait_for-entry (length m.responses) ids m.waiting id p,
    entry-bounded id p,
    length-append m.responses (settled (vec_to_set ids) [] ∷ []),
  )

  request-indexed :
      (p : ℕ) (r : AsyncResponse) (id : BlockId)
      → (get_elem? m.responses p ≡ some r)
        ⊎ ((p ≡ length m.responses) × (settled (vec_to_set ids) [] ≡ r))
      → mem id r.waiting_on ≡ true
      → mem p (entry id (after_request ids m).waiting) ≡ true
  unfolding vec_to_set mem
  request-indexed p r id (inl old) h =
      wait_for-entry (length m.responses) ids m.waiting id p
      ∙ ground (arith, valid.indexed p r id old h)
  request-indexed p r id (inr (last, new)) h =
      let wanted : mem id ids ≡ true = ground (arith, mem-add_all id ids []) in
      wait_for-entry (length m.responses) ids m.waiting id p ∙ ground arith

  -- A request keeps the state well formed.
  pub request-IsManager : IsManager (after_request ids m)
  request-IsManager = record {
    keys = wait_for-Keys (length m.responses) ids m.waiting valid.keys;
    promises = λ p r e. elim (get_elem?-snoc m.responses (settled (vec_to_set ids) []) p e) [
      | inl old ↦ valid.promises p r old
      | inr (_, new) ↦ subst IsResponse new refl
    ];
    bounded = request-bounded;
    indexed = λ p r id e h.
        request-indexed p r id (get_elem?-snoc m.responses (settled (vec_to_set ids) []) p e) h;
  }

-- The blocks that arrive one after the other.
unfoldable pub processes : List Block → AsyncBlockManager → Result AsyncBlockManager
processes [] m = ok m
processes (b ∷ bs) m = process b m >>= λ m'. processes bs m'

-- After them every response has seen each of them in turn.
processes-updates :
    (bs : List Block) (m : AsyncBlockManager) (p : ℕ) (r : AsyncResponse)
    → IsManager m
    → get_elem? m.responses p ≡ some r
    → (m' : AsyncBlockManager) × (processes bs m ≡ ok m')
      × (get_elem? m'.responses p ≡ some (updates bs r))
unfolding processes
processes-updates [] m p r valid at = (m, refl, at)
processes-updates (b ∷ bs) m p r valid at =
    let next = get_elem?-map (updated b) m.responses p ∙ ap (Option.map (updated b)) at in
    let (m', runs, there) =
      processes-updates bs (after_process b m) p (updated b r) (process-IsManager b m valid) next in
    (m', rw (process-map b m valid) runs, there)

-- What a request's future holds after some blocks have arrived.
abbrev pub answer : List BlockId → List Block → Option (List Block)
answer ids bs =
    if is_empty (missing (vec_to_set ids) bs) then some (arrivals (vec_to_set ids) bs) else none

pub request_blocks-ok :
    (ids : List BlockId) (m : AsyncBlockManager)
    → request_blocks ids m ≡ ok (length m.responses, after_request ids m)
unfolding request_blocks
request_blocks-ok ids m = rw (async_response-settled ids)

-- From any well-formed state, a request that is followed by any blocks whatever is answered exactly
-- if each of its ids is among them; its answer is then, for each id, the first block with that id,
-- in the order in which the blocks arrived. Nothing throws on the way.
pub request_blocks-future :
    (ids : List BlockId) (bs : List Block) (m : AsyncBlockManager)
    → IsManager m
    → (request_blocks ids m >>= λ (p, m'). processes bs m' >>= λ m''. ok (future p m''))
      ≡ ok (answer ids bs)
unfolding future
request_blocks-future ids bs m valid =
    let at = get_elem?-append_length m.responses (settled (vec_to_set ids) []) in
    let (m', runs, there) =
      processes-updates bs (after_request ids m) (length m.responses) (settled (vec_to_set ids) [])
        (request-IsManager ids m valid) at in
    rw (request_blocks-ok ids m)
      (rw runs (rw (there, future) (rw (updates-settled bs (vec_to_set ids) []))))

abbrev pub ids_of : List Block → List BlockId
ids_of = map (λ b. b.block_id)

mem-missing :
    (k : ℕ) (wanted : List BlockId) (bs : List Block)
    → mem k (missing wanted bs) ≡ (not (mem k (ids_of bs)) && mem k wanted)
unfolding mem missing
mem-missing k wanted [] = refl
mem-missing k wanted (b ∷ bs) =
    mem-missing k (remove b.block_id wanted) bs ∙ ground (arith, mem-remove k b.block_id wanted)

empty_of_absent : (s : List ℕ) → ((k : ℕ) → mem k s ≡ false) → is_empty s ≡ true
unfolding mem
empty_of_absent [] h = refl
empty_of_absent (j ∷ s) h = ground (arith, h j)

pub missing_none :
    (wanted : List BlockId) (bs : List Block)
    → ((k : BlockId) → mem k wanted ≡ true → mem k (ids_of bs) ≡ true)
    → is_empty (missing wanted bs) ≡ true
missing_none wanted bs all =
    empty_of_absent (missing wanted bs) λ k. ground (arith, mem-missing k wanted bs, all k)

-- No wake-up is lost: a request is answered once each of its ids has arrived.
pub request_blocks-completes :
    (ids : List BlockId) (bs : List Block) (m : AsyncBlockManager)
    → IsManager m
    → ((k : BlockId) → mem k ids ≡ true → mem k (ids_of bs) ≡ true)
    → (request_blocks ids m >>= λ (p, m'). processes bs m' >>= λ m''. ok (future p m''))
      ≡ ok (some (arrivals (vec_to_set ids) bs))
unfolding vec_to_set mem
request_blocks-completes ids bs m valid all =
    request_blocks-future ids bs m valid
    ∙ rw (missing_none (vec_to_set ids) bs (λ k h. all k (ground (arith, mem-add_all k ids []))))
