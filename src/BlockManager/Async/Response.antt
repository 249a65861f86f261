-- ===== src/BlockManager/Async/Response.antt =====
-- One response of lib/src/block/block_manager/async_response.cc over its life.
use pingfs.Base.{
  Result, ◌>>=◌, ℕ, if◌then◌else◌, true, false, List, [], ◌∷◌, ◌++◌, none, some, ok, ◌≡◌, refl,
  arith, ap, ◌∙◌, append_assoc, append-nil, Bool-cases, inl, inr,
}
use pingfs.Base.Sets.{mem, remove, is_empty, mem-remove, remove-absent}
use pingfs.BlockData.Data.{BlockId}
use pingfs.BlockData.Block.{Block}
use pingfs.BlockManager.Async.{AsyncResponse, async_response, update, vec_to_set}

-- The promise has its value exactly while nothing is waited for, and the value is the blocks.
abbrev pub IsResponse : AsyncResponse → Type 0
IsResponse r = r.promise ≡ (if is_empty r.waiting_on then some r.blocks else none)

abbrev pub settled : List BlockId → List Block → AsyncResponse
settled waiting_on blocks = record {
  waiting_on = waiting_on;
  blocks = blocks;
  promise = if is_empty waiting_on then some blocks else none;
}

-- What `update` makes of a response.
unfoldable pub updated : Block → AsyncResponse → AsyncResponse
updated b r =
    if mem b.block_id r.waiting_on
    then settled (remove b.block_id r.waiting_on) (r.blocks ++ b ∷ [])
    else r

mem-is_empty : (k : ℕ) (s : List ℕ) → mem k s ≡ true → is_empty s ≡ false
unfolding mem
mem-is_empty k [] h = cc
mem-is_empty k (j ∷ s) h = refl

-- An update never sets the promise twice.
pub update-updated : (b : Block) (r : AsyncResponse) → IsResponse r → update b r ≡ ok (updated b r)
unfolding update updated
update-updated b r h = ground (arith, mem-is_empty b.block_id r.waiting_on)

pub updated-IsResponse : (b : Block) (r : AsyncResponse) → IsResponse r → IsResponse (updated b r)
unfolding updated
updated-IsResponse b r h = ground arith

pub updated-updated : (b : Block) (r : AsyncResponse) → updated b (updated b r) ≡ updated b r
unfolding updated
updated-updated b r = ground (arith, mem-remove b.block_id b.block_id r.waiting_on)

pub async_response-settled :
    (request : List BlockId) → async_response request ≡ ok (settled (vec_to_set request) [])
unfolding async_response
async_response-settled request = ground arith

-- The blocks that a request takes from those that arrive: for each id the first that has it.
unfoldable pub arrivals : List BlockId → List Block → List Block
arrivals wanted [] = []
arrivals wanted (b ∷ bs) =
    if mem b.block_id wanted then b ∷ arrivals (remove b.block_id wanted) bs else arrivals wanted bs

-- The ids that are still missing.
unfoldable pub missing : List BlockId → List Block → List BlockId
missing wanted [] = wanted
missing wanted (b ∷ bs) = missing (remove b.block_id wanted) bs

abbrev pub updates : List Block → AsyncResponse → AsyncResponse
updates [] r = r
updates (b ∷ bs) r = updates bs (updated b r)

pub updates-settled :
    (bs : List Block) (wanted : List BlockId) (got : List Block)
    → updates bs (settled wanted got) ≡ settled (missing wanted bs) (got ++ arrivals wanted bs)
unfolding arrivals missing updated
updates-settled [] wanted got = rw append-nil
updates-settled (b ∷ bs) wanted got = elim (Bool-cases (mem b.block_id wanted)) [
  | inl h ↦ rw h (
      updates-settled bs (remove b.block_id wanted) (got ++ b ∷ [])
      ∙ ap (settled (missing (remove b.block_id wanted) bs))
          (append_assoc got (b ∷ []) (arrivals (remove b.block_id wanted) bs)))
  | inr h ↦ rw (h, remove-absent b.block_id wanted h) (updates-settled bs wanted got)
]

-- `update` with each of some blocks in turn.
unfoldable pub update_all : List Block → AsyncResponse → Result AsyncResponse
update_all [] r = ok r
update_all (b ∷ bs) r = update b r >>= update_all bs

update_all-updates :
    (bs : List Block) (r : AsyncResponse) → IsResponse r → update_all bs r ≡ ok (updates bs r)
unfolding update_all
update_all-updates [] r h = refl
update_all-updates (b ∷ bs) r h =
    rw (update-updated b r h) (update_all-updates bs (updated b r) (updated-IsResponse b r h))

-- A response that is made for a request and then updated with any blocks in any order never throws.
-- It holds, for each id of the request, the first block with that id, in the order of arrival; it
-- waits for the ids that have not come; and its promise has a value exactly if there are none left.
pub update_all-async_response :
    (request : List BlockId) (bs : List Block)
    → (async_response request >>= update_all bs)
      ≡ ok (settled (missing (vec_to_set request) bs) (arrivals (vec_to_set request) bs))
update_all-async_response request bs =
    rw
      (async_response-settled request, update_all-updates bs (settled (vec_to_set request) []) refl)
      (ap ok (updates-settled bs (vec_to_set request) []))
