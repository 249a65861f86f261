-- ===== src/BlockManager/Async/Wakeup.antt =====
-- Every response of lib/src/block/block_manager/async_block_manager.cc hears of every block that
-- arrives: the map `waiting_` loses no one.
use pingfs.Base.{
  ℕ, zero, suc, ◌<◌, ◌==◌, if◌then◌else◌, true, false, List, [], ◌∷◌, map, Option, none, some, ok,
  length, get_elem?, set, ◌≡◌, refl, arith, ap, ◌∙◌, sym, subst, Bool-cases, Option-cases, inl, inr,
  get_elem?-set, list_ext, length-set,
}
use mathlib.Core.Option
use pingfs.Base.Maps.{lookup, erase, Keys, erase-absent}
use pingfs.Base.Sets.{mem}
use pingfs.BlockData.Data.{BlockId}
use pingfs.BlockData.Block.{Block}
use pingfs.BlockManager.Async.{AsyncResponse, AsyncBlockManager, notify_waiting, process}
use pingfs.BlockManager.Async.Response.{
  IsResponse, updated, update-updated, updated-IsResponse, updated-updated,
}

abbrev pub or_nil : Option (List ℕ) → List ℕ
or_nil none = []
or_nil (some vec) = vec

-- The pointers that stand in the entry of an id.
abbrev pub entry : BlockId → List (BlockId × List ℕ) → List ℕ
entry id waiting = or_nil (lookup id waiting)

-- The well-formed states: promises are as they should be, whoever waits for an id stands in the
-- entry of that id, and the entries hold pointers to responses.
pub record IsManager (m : AsyncBlockManager) : Type 0 where
  pub keys : Keys m.waiting
  pub promises : (p : ℕ) (r : AsyncResponse) → get_elem? m.responses p ≡ some r → IsResponse r
  pub bounded : (id : BlockId) (p : ℕ) → mem p (entry id m.waiting) ≡ true → p < length m.responses
  pub indexed :
      (p : ℕ) (r : AsyncResponse) (id : BlockId)
      → get_elem? m.responses p ≡ some r
      → mem id r.waiting_on ≡ true
      → mem p (entry id m.waiting) ≡ true

get_elem?-some {ℓ} :
    {A : Type ℓ} (xs : List A) (i : ℕ) → i < length xs → (x : A) × (get_elem? xs i ≡ some x)
get_elem?-some [] i h = absurd (omega arith)
get_elem?-some (x ∷ xs) zero h = (x, refl)
get_elem?-some (x ∷ xs) (suc i) h = get_elem?-some xs i (omega arith)

pub get_elem?-map {ℓ κ} :
    {A : Type ℓ} {B : Type κ} (f : A → B) (xs : List A) (i : ℕ)
    → get_elem? (map f xs) i ≡ Option.map f (get_elem? xs i)
get_elem?-map f [] i = refl
get_elem?-map f (x ∷ xs) zero = refl
get_elem?-map f (x ∷ xs) (suc i) = get_elem?-map f xs i

-- One more pointer in the list, at the state behind its update.
touched :
    (b : Block) (p j : ℕ) (vec : List ℕ) (rs rs' : List AsyncResponse) {r : AsyncResponse}
    → p < length rs
    → get_elem? rs p ≡ some r
    → get_elem? rs' j ≡ (
        if mem j vec
        then Option.map (updated b) (get_elem? (set rs p (updated b r)) j)
        else get_elem? (set rs p (updated b r)) j)
    → get_elem? rs' j
      ≡ (if mem j (p ∷ vec) then Option.map (updated b) (get_elem? rs j) else get_elem? rs j)
unfolding mem
touched b p j vec rs rs' {r} here at e =
    ground (arith, get_elem?-set rs p j (updated b r), updated-updated b r)

valid_set :
    (b : Block) (p q : ℕ) (rs : List AsyncResponse) (r : AsyncResponse) {r' : AsyncResponse}
    → p < length rs
    → IsResponse r
    → (get_elem? rs q ≡ some r' → IsResponse r')
    → get_elem? (set rs p (updated b r)) q ≡ some r'
    → IsResponse r'
valid_set b p q rs r {r'} here ok_r ok_q e = elim (Bool-cases (p == q)) [
  | inl same ↦
      let e' : updated b r ≡ r' = ground (arith, get_elem?-set rs p q (updated b r)) in
      subst IsResponse e' (updated-IsResponse b r ok_r)
  | inr other ↦ ok_q (ground (arith, get_elem?-set rs p q (updated b r)))
]

-- What the loop over the responses that wait gives: those are updated, however often each is named,
-- and no other.
abbrev Notified : Block → List ℕ → List AsyncResponse → List AsyncResponse → Type 0
Notified b vec rs rs' =
    (notify_waiting b vec rs ≡ ok rs')
    × ((j : ℕ)
        → get_elem? rs' j
          ≡ (if mem j vec then Option.map (updated b) (get_elem? rs j) else get_elem? rs j))

Notified-step :
    (b : Block) (p : ℕ) (vec : List ℕ) (rs rs' : List AsyncResponse) {r : AsyncResponse}
    → p < length rs
    → get_elem? rs p ≡ some r
    → IsResponse r
    → Notified b vec (set rs p (updated b r)) rs'
    → Notified b (p ∷ vec) rs rs'
unfolding notify_waiting
Notified-step b p vec rs rs' {r} here at valid (runs, each) = (
  rw (at, notify_waiting) (rw (update-updated b r valid) runs),
  λ j. touched b p j vec rs rs' here at (each j),
)

abbrev Bounded : List ℕ → List AsyncResponse → Type 0
Bounded vec rs = (p : ℕ) → mem p vec ≡ true → p < length rs

abbrev AllValid : List AsyncResponse → Type 0
AllValid rs = (p : ℕ) (r : AsyncResponse) → get_elem? rs p ≡ some r → IsResponse r

Notified-next :
    (b : Block) (p : ℕ) (vec : List ℕ) (rs : List AsyncResponse)
    → Bounded (p ∷ vec) rs
    → AllValid rs
    → ((next : List AsyncResponse)
        → Bounded vec next
        → AllValid next
        → (rs' : List AsyncResponse) × Notified b vec next rs')
    → (r : AsyncResponse) × (get_elem? rs p ≡ some r)
    → p < length rs
    → (rs' : List AsyncResponse) × Notified b (p ∷ vec) rs rs'
unfolding mem
Notified-next b p vec rs bound valid rest (r, at) here =
    let (rs', n) =
      rest (set rs p (updated b r))
        (λ q h. rw (length-set rs p (updated b r)) (bound q (ground arith)))
        (λ q r' e. valid_set b p q rs r here (valid p r at) (valid q r') e) in
    (rs', Notified-step b p vec rs rs' here at (valid p r at) n)

head_bound : (p : ℕ) (vec : List ℕ) (rs : List AsyncResponse) → Bounded (p ∷ vec) rs → p < length rs
unfolding mem
head_bound p vec rs bound = bound p (ground arith)

notify_waiting-Notified :
    (b : Block) (vec : List ℕ) (rs : List AsyncResponse)
    → Bounded vec rs
    → AllValid rs
    → (rs' : List AsyncResponse) × Notified b vec rs rs'
notify_waiting-Notified b [] rs bound valid = (rs, unfold notify_waiting mem in (refl, λ j. refl))
notify_waiting-Notified b (p ∷ vec) rs bound valid =
    let here = head_bound p vec rs bound in
    Notified-next b p vec rs bound valid (notify_waiting-Notified b vec) (get_elem?-some rs p here)
      here

-- A response that does not wait for the block is not changed by it.
updated-absent :
    (b : Block) (r : AsyncResponse) → mem b.block_id r.waiting_on ≡ false → updated b r ≡ r
unfolding updated
updated-absent b r h = rw h

module _ (b : Block) (m : AsyncBlockManager) (valid : IsManager m) where
  -- Whoever the entry of the block does not name stays as it is.
  unnamed_absent :
      (j : ℕ) (r : AsyncResponse)
      → get_elem? m.responses j ≡ some r
      → mem j (entry b.block_id m.waiting) ≡ false
      → updated b r ≡ r
  unnamed_absent j r at out = elim (Bool-cases (mem b.block_id r.waiting_on)) [
    | inr h ↦ updated-absent b r h
    | inl h ↦ cc (valid.indexed j r b.block_id at h)
  ]

  unnamed_same :
      (j : ℕ)
      → mem j (entry b.block_id m.waiting) ≡ false
      → get_elem? m.responses j ≡ get_elem? (map (updated b) m.responses) j
  unnamed_same j out = elim (Option-cases (get_elem? m.responses j)) [
    | inl e ↦ rw (get_elem?-map, e)
    | inr (r, e) ↦ rw (get_elem?-map, e) (ap some (sym (unnamed_absent j r e out)))
  ]

  delivered :
      (rs' : List AsyncResponse)
      → Notified b (entry b.block_id m.waiting) m.responses rs'
      → rs' ≡ map (updated b) m.responses
  delivered rs' (runs, each) = list_ext rs' (map (updated b) m.responses) λ j.
      elim (Bool-cases (mem j (entry b.block_id m.waiting))) [
        | inl h ↦ each j ∙ rw (h, get_elem?-map)
        | inr h ↦ each j ∙ rw h (unnamed_same j h)
      ]

  nobody_waits : lookup b.block_id m.waiting ≡ none → m.responses ≡ map (updated b) m.responses
  unfolding mem
  nobody_waits e = list_ext m.responses (map (updated b) m.responses) (λ j. unnamed_same j (rw e))

  -- A block that arrives is delivered to every response, as if each had been asked: the entries of
  -- `waiting_` name all those that it concerns. No update throws.
  pub process-map :
      process b m
      ≡ ok
          (record { responses = map (updated b) m.responses; waiting = erase b.block_id m.waiting })
  unfolding process
  process-map = elim (Option-cases (lookup b.block_id m.waiting)) [
    | inl e ↦
        rw (e, process)
          (rw (erase-absent b.block_id m.waiting e)
            (ap (λ rs. ok (record { responses = rs; waiting = m.waiting })) (nobody_waits e)))
    | inr (vec, e) ↦
        let same : entry b.block_id m.waiting ≡ vec = rw e in
        let (rs', n) =
          notify_waiting-Notified b (entry b.block_id m.waiting) m.responses
            (valid.bounded b.block_id) valid.promises in
        rw (e, process) (rw (← same) (rw n.0 (rw (delivered rs' n))))
  ]
