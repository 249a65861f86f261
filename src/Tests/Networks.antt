-- ===== src/Tests/Networks.antt =====
-- A manager whose blocks are in flight, with a concrete way to write messages.
use pingfs.Base.{
  ok, Option, List, map, ap, inl, inr, ◌∙◌, sym, ℕ, [], ◌∷◌, length, ◌≡◌, refl, arith,
}
use mathlib.Core.List.Memᴰ
use mathlib.Core.List.{Memᴰ}
use pingfs.Ping.EchoRequest.{EchoRequest}
use pingfs.BlockManager.Async.Wakeup.{IsManager}
use pingfs.PingService.Service
use pingfs.Base.Sets.{mem}
use pingfs.BlockData.Data.{BlockData, file_contents}
use pingfs.BlockData.Block.{Block}
use pingfs.BlockManager.IdSupplier.{CounterSupplier, counter_supplier, counter_next_id}
use pingfs.BlockManager.Async.Progress.{after_request, request-IsManager, request_blocks-ok}
use pingfs.BlockManager.Async.{future}
use pingfs.PingService.Translator.{pass_through_translator}
use pingfs.PingService.Service.{track_freed_service}
use pingfs.PingService.Manager.{
  PingBlockManager, ping_block_manager, create_block, duplicate_create_block, register, free_block,
  request_blocks, take_out, delayed_send,
}
use pingfs.PingService.Network.{
  Network, arrive, Reaches, launch, start, then, created, duplicated, woken, freed, returned,
  without_id, Continues, stay, go_on,
}
use pingfs.PingService.Network.Carried.{carry, Carried}
use pingfs.PingService.Network.View.{Moves-IsManager}
use pingfs.PingService.Network.Arrive.{Arrived, arrive-Arrived}
use pingfs.PingService.Network.Aloft.{empty-IsManager, Reaches-Aloft}
use pingfs.PingService.Network.Fetch.{Answers, AllAlive, Reaches-fetch}
use pingfs.PingService.Network.Round.{fetch, Reaches-round}
use pingfs.Tests.Codec.{serialize, parse, parse-serialize}

abbrev piece : BlockData
piece = file_contents (record { data_ = 104 ∷ 105 ∷ [] })

abbrev first_block : Block
first_block = record { block_id = 1; data_ = piece }

abbrev second_block : Block
second_block = record { block_id = 2; data_ = piece }

abbrev empty : Network ℕ
empty = record {
  manager = ping_block_manager counter_supplier (track_freed_service 7 0 3).0;
  flight = [];
}

abbrev after_first : PingBlockManager CounterSupplier ℕ
after_first =
    register (pass_through_translator serialize parse) first_block
      (record empty.manager { id_supplier = record { next_id_ = 2 } })

abbrev one_block : Network ℕ
one_block = launch empty.manager [] after_first

one_block-Reaches :
    Reaches (pass_through_translator serialize parse) 7 3 0 (first_block ∷ []) one_block
unfolding create_block counter_next_id counter_supplier ping_block_manager
one_block-Reaches = then start (created piece (omega arith) refl)

abbrev after_second : PingBlockManager CounterSupplier ℕ
after_second =
    record (register (pass_through_translator serialize parse) second_block
      (record after_first { id_supplier = record { next_id_ = 3 } })) { asleep = second_block ∷ [] }

abbrev two_blocks : Network ℕ
two_blocks = launch after_first one_block.flight after_second

two_blocks-Reaches :
    Reaches
      (pass_through_translator serialize parse)
      7
      3
      0
      (second_block ∷ first_block ∷ [])
      two_blocks
unfolding create_block duplicate_create_block counter_next_id register ping_block_manager launch
two_blocks-Reaches = then one_block-Reaches (duplicated piece (omega arith) refl)

freed-Reaches :
    Reaches
      (pass_through_translator serialize parse)
      7
      3
      0
      (second_block ∷ [])
      (record two_blocks { manager = free_block 1 two_blocks.manager })
unfolding without_id launch
freed-Reaches = then two_blocks-Reaches (freed (Memᴰ.tail (Memᴰ.head refl)))

Reaches-Aloft_example :
    Memᴰ (carry serialize parse one_block.manager first_block) one_block.flight
    × ((b' : Block)
        → Memᴰ (carry serialize parse one_block.manager b') one_block.flight
        → b'.block_id ≡ 1
        → b' ≡ first_block)
Reaches-Aloft_example =
    Reaches-Aloft serialize parse parse-serialize one_block-Reaches first_block (Memᴰ.head refl)

only_second : AllAlive (2 ∷ []) (second_block ∷ [])
unfolding mem
only_second k h = (second_block, Memᴰ.head refl, ground arith)

-- The first block has been freed, and the second is asked for.
abbrev freed_one : Network ℕ
freed_one = record two_blocks { manager = free_block 1 two_blocks.manager }

abbrev asking : PingBlockManager CounterSupplier ℕ
asking = record freed_one.manager {
  requests = after_request (2 ∷ []) (record { responses = []; waiting = [] });
}

abbrev asked : Network ℕ
asked = record freed_one { manager = asking }

asked_ok : request_blocks (2 ∷ []) freed_one.manager ≡ ok (0, asking)
unfolding request_blocks launch ping_block_manager register free_block
asked_ok = rw (request_blocks-ok (2 ∷ []) (record { responses = []; waiting = [] }))

abbrev asked_carried : Carried serialize parse asked
unfolding launch ping_block_manager track_freed_service register Service.register_block free_block
    Service.free_block
asked_carried = record { flying = first_block ∷ second_block ∷ []; carries = refl }

asked-IsManager : IsManager asking.requests
asked-IsManager =
    request-IsManager (2 ∷ []) (record { responses = []; waiting = [] }) empty-IsManager

-- The second block comes back, then the first, and then the thread with the second one wakes up.
abbrev second_back :
    Arrived serialize parse parse-serialize
      (second_block ∷ [])
      asked
      asked_carried.flying
      (arrive (pass_through_translator serialize parse) 1 asked)
      second_block
      (first_block ∷ [])
unfolding take_out asked_carried
second_back = arrive-Arrived serialize parse parse-serialize 1 asked_carried asked-IsManager refl

abbrev first_back :
    Arrived serialize parse parse-serialize
      (second_block ∷ [])
      second_back.w'
      ((second_back.followed).carried).flying
      (arrive (pass_through_translator serialize parse) 0 second_back.w')
      first_block
      second_back.again
unfolding take_out second_back asked_carried
first_back =
    arrive-Arrived serialize parse parse-serialize 0 (second_back.followed).carried
      (Moves-IsManager (second_back.followed).moves asked-IsManager)
      (rw (second_back.flown, take_out))

abbrev at_end : Network ℕ
at_end =
    launch (first_back.w').manager (first_back.w').flight
      (delayed_send (pass_through_translator serialize parse) 0 (first_back.w').manager)

abbrev came_back : List EchoRequest
came_back =
    carry serialize parse asking second_block
    ∷ carry serialize parse (second_back.w').manager first_block
    ∷ []

way :
    Continues
      (pass_through_translator serialize parse)
      (second_block ∷ [])
      asked
      came_back
      (second_block ∷ [])
      at_end
unfolding take_out launch ping_block_manager track_freed_service register Service.register_block
    free_block Service.free_block
way =
    go_on
      (go_on
        (go_on stay
          (returned {rest = carry serialize parse asking first_block ∷ []} 1 refl second_back.done))
        (returned {rest = map (carry serialize parse (second_back.w').manager) second_back.again} 0
          (ap (take_out 0) ((second_back.followed).carried).carries
            ∙ rw (second_back.flown, take_out))
          first_back.done))
      (woken 0)

each_back : (r : EchoRequest) → Memᴰ r freed_one.flight → Memᴰ r came_back
unfolding launch ping_block_manager track_freed_service register Service.register_block free_block
    Service.free_block
each_back r m = elim (Memᴰ.cases_cons m) [
  | inl e ↦ Memᴰ.tail (Memᴰ.head (e ∙ sym ((second_back.followed).same first_block)))
  | inr m' ↦ elim (Memᴰ.cases_cons m') [ inl e ↦ Memᴰ.head e | inr n ↦ absurd (Memᴰ.not-nil n) ]
]

Reaches-fetch_example : Answers (2 ∷ []) (second_block ∷ []) (future 0 (at_end.manager).requests)
Reaches-fetch_example =
    Reaches-fetch serialize parse parse-serialize (2 ∷ []) freed-Reaches only_second asked_ok way
      each_back

Reaches-round_example :
    (held : Option (List Block)) × (fetch serialize parse
        (2 ∷ [])
        (length freed_one.flight)
        freed_one
      ≡ ok held)
    × Answers (2 ∷ []) (second_block ∷ []) held
Reaches-round_example =
    Reaches-round serialize parse parse-serialize (2 ∷ []) freed-Reaches only_second
