-- ===== src/BlockManager/Async.antt =====
-- lib/src/block/block_manager/async_response.cc and async_block_manager.cc: requests that wait for
-- blocks to arrive. A response is shared between its caller and the map `waiting_`, so responses
-- stand in a store and a pointer is an index. Every method holds its mutex from end to end, and is
-- one step.
pub mod Response
pub mod Wakeup
pub mod Progress
use pingfs.Base.{
  ℕ, ◌==◌, if◌then◌else◌, List, [], ◌∷◌, ◌++◌, Option, none, some, Result, ok, fail, Failure, ◌>>=◌,
  length, get_elem?, set, not,
}
use Failure.{thrown, undefined}
use pingfs.Base.Maps.{lookup, insert, erase}
use pingfs.Base.Sets.{mem, add_all, remove, is_empty}
use pingfs.BlockData.Data.{BlockId}
use pingfs.BlockData.Block.{Block}

pub record AsyncResponse : Type 0 where
  pub waiting_on : List BlockId
  pub blocks : List Block
  pub promise : Option (List Block)

-- `set_value` of a promise that has its value throws.
unfoldable pub set_value : List Block → AsyncResponse → Result AsyncResponse
set_value value r = elim r.promise [
  | none ↦ ok (record r { promise = some value })
  | some _ ↦ fail thrown
]

unfoldable pub notify_if_complete : AsyncResponse → Result AsyncResponse
unfolding set_value
notify_if_complete r = if is_empty r.waiting_on then set_value r.blocks r else ok r

unfoldable pub vec_to_set : List BlockId → List BlockId
unfolding add_all
vec_to_set blocks = add_all blocks []

-- The constructor.
unfoldable pub async_response : List BlockId → Result AsyncResponse
unfolding vec_to_set notify_if_complete
async_response request =
    notify_if_complete (record { waiting_on = vec_to_set request; blocks = []; promise = none })

unfoldable pub update : Block → AsyncResponse → Result AsyncResponse
unfolding notify_if_complete
update block r =
    if not (mem block.block_id r.waiting_on)
    then ok r
    else notify_if_complete (record r {
      waiting_on = remove block.block_id r.waiting_on;
      blocks = r.blocks ++ block ∷ [];
    })

-- `responses` is the store; `waiting` maps an id to the responses that wait for it.
pub record AsyncBlockManager : Type 0 where
  pub responses : List AsyncResponse
  pub waiting : List (BlockId × List ℕ)

-- The loop of `process` over the responses that wait.
unfoldable pub notify_waiting : Block → List ℕ → List AsyncResponse → Result (List AsyncResponse)
notify_waiting block [] responses = ok responses
notify_waiting block (p ∷ waiting_vec) responses = elim (get_elem? responses p) [
  | none ↦ fail undefined
  | some r ↦ update block r >>= λ r'. notify_waiting block waiting_vec (set responses p r')
]

unfoldable pub process : Block → AsyncBlockManager → Result AsyncBlockManager
unfolding notify_waiting
process block m = elim (lookup block.block_id m.waiting) [
  | none ↦ ok m
  | some waiting_vec ↦ notify_waiting block waiting_vec m.responses >>= λ responses.
      ok (record { responses = responses; waiting = erase block.block_id m.waiting })
]

-- `waiting_[id].push_back(resp_ptr)`.
unfoldable pub push_waiting : ℕ → BlockId → List (BlockId × List ℕ) → List (BlockId × List ℕ)
push_waiting p id waiting = elim (lookup id waiting) [
  | none ↦ insert id (p ∷ []) waiting
  | some resp_vec ↦ insert id (resp_vec ++ p ∷ []) waiting
]

-- The loop of `get_blocks` over the ids of the request.
unfoldable pub wait_for : ℕ → List BlockId → List (BlockId × List ℕ) → List (BlockId × List ℕ)
unfolding push_waiting
wait_for p [] waiting = waiting
wait_for p (id ∷ ids) waiting = wait_for p ids (push_waiting p id waiting)

-- `get_blocks` up to the wait for the future; the pointer that it waits on is returned.
unfoldable pub request_blocks : List BlockId → AsyncBlockManager → Result (ℕ × AsyncBlockManager)
unfolding async_response wait_for
request_blocks block_request m = async_response block_request >>= λ r. ok (
  length m.responses,
  record {
    responses = m.responses ++ r ∷ [];
    waiting = wait_for (length m.responses) block_request m.waiting;
  },
)

-- What the future holds: `none` while `get_blocks` still waits.
unfoldable pub future : ℕ → AsyncBlockManager → Option (List Block)
future p m = elim (get_elem? m.responses p) [ none ↦ none | some r ↦ r.promise ]
