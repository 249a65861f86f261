-- ===== src/PingService/Network/Fetch.antt =====
-- `get_blocks` of lib/src/block/block_manager/async_block_manager.cc in a manager whose blocks are in
-- flight: an answer comes within one round of the requests in flight.
use pingfs.Base.{
  map, map_ext, ok-injective, get_elem?-append_length, map-append, ℕ, ◌==◌, true, Bool-cases, List,
  [], ◌∷◌, ◌++◌, Option, some, Bytes, ok, ◌≡◌, refl, sym, ap, ◌∙◌, subst, arith, length, inl, inr,
}
use mathlib.Core.List.Memᴰ
use mathlib.Core.List.{Memᴰ}
use pingfs.Base.Sets.{mem, remove, mem-remove, mem-add_all}
use pingfs.BlockData.Data.{BlockId}
use pingfs.BlockData.Block.{Block, BlockProto}
use pingfs.BlockManager.Async.{vec_to_set, future}
use pingfs.BlockManager.Async.Response.{arrivals, settled, updates-settled}
use pingfs.BlockManager.Async.Wakeup.{IsManager}
use pingfs.BlockManager.Async.Progress.{
  ids_of, missing_none, request_blocks-ok, request-IsManager, after_request,
}
use pingfs.PingService.Translator.{pass_through_translator}
use pingfs.BlockManager.IdSupplier.{CounterSupplier}
use pingfs.PingService.Manager.{PingBlockManager, request_blocks}
use pingfs.PingService.Network.View.{View, Moves-IsManager}
use pingfs.PingService.Network.Carried.{carry, Carried, view_of}
use pingfs.PingService.Network.Aloft.{Kept, Step-Followed, Reaches-Kept, carry-injective}
use pingfs.PingService.Network.Track.{Tracking, Moves-Tracking}
use pingfs.Ping.EchoRequest.{EchoRequest}
use pingfs.PingService.Network.{Network, Reaches, Continues, stay, go_on}

mem-ids_of : (b : Block) (bs : List Block) → Memᴰ b bs → mem b.block_id (ids_of bs) ≡ true
unfolding mem
mem-ids_of b [] m = absurd (Memᴰ.not-nil m)
mem-ids_of b (x ∷ bs) m = elim (Memᴰ.cases_cons m) [
  | inl e ↦ ground (arith, ap (λ (c : Block). c.block_id) e)
  | inr r ↦ ground (arith, mem-ids_of b bs r)
]

-- The blocks of an answer are among those that arrived, and wanted.
arrivals-Memᴰ :
    (b : Block) (wanted : List BlockId) (bs : List Block)
    → Memᴰ b (arrivals wanted bs)
    → Memᴰ b bs × (mem b.block_id wanted ≡ true)
unfolding arrivals
arrivals-Memᴰ b wanted [] m = absurd (Memᴰ.not-nil m)
arrivals-Memᴰ b wanted (x ∷ bs) m = elim (Bool-cases (mem x.block_id wanted)) [
  | inl h ↦
      let taken : arrivals wanted (x ∷ bs) ≡ x ∷ arrivals (remove x.block_id wanted) bs = rw h in
      elim (Memᴰ.cases_cons (subst (Memᴰ b) taken m)) [
        | inl e ↦ (Memᴰ.head e, ap (λ (c : Block). mem c.block_id wanted) e ∙ h)
        | inr r ↦
            let (there, still) = arrivals-Memᴰ b (remove x.block_id wanted) bs r in
            (Memᴰ.tail there, ground (arith, mem-remove b.block_id x.block_id wanted))
      ]
  | inr h ↦
      let skipped : arrivals wanted (x ∷ bs) ≡ arrivals wanted bs = rw h in
      let (there, still) = arrivals-Memᴰ b wanted bs (subst (Memᴰ b) skipped m) in
      (Memᴰ.tail there, still)
]

-- Each wanted id that arrived is in the answer.
arrivals-ids_of :
    (k : BlockId) (wanted : List BlockId) (bs : List Block)
    → mem k wanted ≡ true
    → mem k (ids_of bs) ≡ true
    → mem k (ids_of (arrivals wanted bs)) ≡ true
unfolding arrivals mem
arrivals-ids_of k wanted [] h i = i
arrivals-ids_of k wanted (x ∷ bs) h i = elim (Bool-cases (mem x.block_id wanted)) [
  | inl wants ↦ elim (Bool-cases (k == x.block_id)) [
    | inl same ↦ rw wants (ground arith)
    | inr differs ↦
        let rest =
          arrivals-ids_of k (remove x.block_id wanted) bs
            (ground (arith, mem-remove k x.block_id wanted)) (ground arith) in
        rw wants (ground arith)
  ]
  | inr out ↦ elim (Bool-cases (k == x.block_id)) [
    | inl same ↦ absurd (ground arith)
    | inr differs ↦ let rest = arrivals-ids_of k wanted bs h (ground arith) in rw out rest
  ]
]

-- A future that holds blocks that were alive, of the ids that were asked for and of each of them.
pub record Answers (ids : List BlockId) (live : List Block) (held : Option (List Block))
    : Type 0 where
  pub blocks : List Block
  pub holds : held ≡ some blocks
  pub alive : (b : Block) → Memᴰ b blocks → Memᴰ b live × (mem b.block_id ids ≡ true)
  pub complete : (k : BlockId) → mem k ids ≡ true → mem k (ids_of blocks) ≡ true

-- The ids are those of blocks that are alive.
abbrev pub AllAlive : List BlockId → List Block → Type 0
AllAlive ids live = (k : BlockId) → mem k ids ≡ true → (b : Block) × Memᴰ b live × (b.block_id ≡ k)

-- A response that has seen every block that was alive holds its answer.
Tracking-Answers :
    {ids : List BlockId} {p : ℕ} {live : List Block} {v : View} {seen : List Block}
    → Tracking ids p live v seen
    → AllAlive ids live
    → ((b : Block) → Memᴰ b live → Memᴰ b seen)
    → Answers ids live (future p v.requests)
unfolding future vec_to_set mem
Tracking-Answers {ids} {p} {live} {v} {seen} t all every =
    let arrived : (k : BlockId) → mem k (vec_to_set ids) ≡ true → mem k (ids_of seen) ≡ true =
      λ k h.
        let (b, there, named) = all k (ground (arith, mem-add_all k ids [])) in
        ap (λ j. mem j (ids_of seen)) (sym named) ∙ mem-ids_of b seen (every b there) in
    record {
      blocks = arrivals (vec_to_set ids) seen;
      holds = rw (
        t.waits,
        future,
        updates-settled seen (vec_to_set ids) [],
        missing_none (vec_to_set ids) seen arrived,
      );
      alive = λ b m.
          let (there, wanted) = arrivals-Memᴰ b (vec_to_set ids) seen m in
          let asked_for : mem b.block_id ids ≡ true =
            ground (arith, mem-add_all b.block_id ids []) in
          let (b', here, named) = all b.block_id asked_for in
          (subst (λ c. Memᴰ c live) ((t.known_seen b there).same b' here named) here, asked_for);
      complete = λ k h.
          let wanted : mem k (vec_to_set ids) ≡ true = ground (arith, mem-add_all k ids []) in
          arrivals-ids_of k (vec_to_set ids) seen wanted (arrived k wanted);
    }

module _ {Endpoint : Type 0} (serialize : BlockProto → Bytes) (parse : Bytes → BlockProto)
    (law : (p : BlockProto) → parse (serialize p) ≡ p) where
  -- A state after a request, with the blocks that have come back since.
  record Tracked (ids : List BlockId) (p : ℕ) (live : List Block) (w : Network Endpoint)
      (back : List EchoRequest) (w' : Network Endpoint) : Type 0 where
    carried : Carried serialize parse w'
    valid : IsManager (w'.manager).requests
    seen : List Block
    came : back ≡ map (carry serialize parse w.manager) seen
    same : (b : Block) → carry serialize parse w'.manager b ≡ carry serialize parse w.manager b
    tracking : Tracking ids p live (view_of serialize parse w' carried.flying) seen

  Continues-Tracked :
      {ids : List BlockId} {p : ℕ} {live live0 : List Block} {w w0 : Network Endpoint}
      {live' : List Block} {w' : Network Endpoint} {back : List EchoRequest}
      → Tracked ids p live w [] w0
      → Continues (pass_through_translator serialize parse) live0 w0 back live' w'
      → Tracked ids p live w back w'
  Continues-Tracked started stay = started
  Continues-Tracked {w} started (go_on {more = more} before step) =
      let t = Continues-Tracked started before in
      let f = Step-Followed serialize parse law t.carried t.valid step in
      record {
        carried = f.carried;
        valid = Moves-IsManager f.moves t.valid;
        seen = t.seen ++ f.seen;
        came =
            ap (λ l. l ++ more) t.came
            ∙ ap (λ l. map (carry serialize parse w.manager) t.seen ++ l)
                (f.came ∙ map_ext _ _ f.seen t.same)
            ∙ sym (map-append (carry serialize parse w.manager) t.seen f.seen);
        same = λ b. f.same b ∙ t.same b;
        tracking = Moves-Tracking _ _ _ f.moves t.tracking;
      }

  -- What a request leads to.
  Kept-Tracked :
      {live : List Block} {w : Network Endpoint} {p : ℕ}
      {m : PingBlockManager CounterSupplier Endpoint} (ids : List BlockId)
      → Kept serialize parse live w
      → request_blocks ids w.manager ≡ ok (p, m)
      → Tracked ids p live w [] (record w { manager = m })
  unfolding request_blocks
  Kept-Tracked {live} {w} {p} {m} ids kept e =
      let requests = (w.manager).requests in
      let same : ◌≡◌ {A = ℕ × PingBlockManager CounterSupplier Endpoint}
          (length requests.responses, record w.manager { requests = after_request ids requests })
          (p, m) =
        ok-injective (sym (rw (request_blocks-ok ids requests)) ∙ e) in
      let asked : Tracked ids (length requests.responses) live w []
          (record w { manager = record w.manager { requests = after_request ids requests } }) =
        record {
          carried = record { flying = (kept.carried).flying; carries = (kept.carried).carries };
          valid = request-IsManager ids requests kept.valid;
          seen = [];
          came = refl;
          same = λ b. refl;
          tracking = record {
            old = λ b m. (kept.tidy.known_flying b (kept.tidy.aloft b m)).older;
            known_flying = kept.tidy.known_flying;
            known_asleep = kept.tidy.known_asleep;
            known_seen = λ b m. absurd (Memᴰ.not-nil m);
            waits = get_elem?-append_length requests.responses (settled (vec_to_set ids) []);
          };
        } in
      subst
        (λ (r : ℕ × PingBlockManager CounterSupplier Endpoint).
          Tracked ids r.0 live w [] (record w { manager = r.1 }))
        same asked

  -- A request for blocks that are alive, in any state that can be reached, is answered once each of the
  -- requests that were in flight has come back, in whatever order, how often, and whatever blocks are
  -- created, freed, asked for or sent again meanwhile. The answer holds blocks that were alive, of the
  -- ids that were asked for, and of each of them. The parser of the protobuf library has to read what
  -- it serialises.
  pub Reaches-fetch :
      {fs_id id_ : ℕ} {endpoint : Endpoint} {live live' : List Block} {w w' : Network Endpoint}
      {p : ℕ} {m : PingBlockManager CounterSupplier Endpoint} {back : List EchoRequest}
      (ids : List BlockId)
      → Reaches (pass_through_translator serialize parse) fs_id id_ endpoint live w
      → AllAlive ids live
      → request_blocks ids w.manager ≡ ok (p, m)
      → Continues
          (pass_through_translator serialize parse)
          live
          (record w { manager = m })
          back
          live'
          w'
      → ((r : EchoRequest) → Memᴰ r w.flight → Memᴰ r back)
      → Answers ids live (future p (w'.manager).requests)
  Reaches-fetch {w} ids reached all e steps every =
      let kept = Reaches-Kept serialize parse law reached in
      let t = Continues-Tracked (Kept-Tracked ids kept e) steps in
      Tracking-Answers t.tracking all λ b alive.
        let up =
          subst (Memᴰ (carry serialize parse w.manager b)) (sym (kept.carried).carries)
            (Memᴰ.map (carry serialize parse w.manager) (kept.tidy.aloft b alive)) in
        let (c, there, same) =
          Memᴰ.of_map (carry serialize parse w.manager) t.seen
            (subst (Memᴰ _) t.came (every _ up)) in
        Memᴰ.cast (sym (carry-injective serialize parse law w.manager c b same)) there
