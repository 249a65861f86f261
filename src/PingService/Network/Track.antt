-- ===== src/PingService/Network/Track.antt =====
-- What becomes of one request of lib/src/block/block_manager/async_block_manager.cc while blocks are
-- created, freed, sent and returned in any order.
use pingfs.Base.{
  ℕ, ◌+◌, ◌<◌, List, [], ◌∷◌, ◌++◌, map, some, ◌≡◌, refl, sym, ap, ◌∙◌, subst, arith, get_elem?,
  get_elem?-append_left, get_elem?-lt, append-nil, inl, inr,
}
use mathlib.Core.Option
use mathlib.Core.List.Memᴰ
use mathlib.Core.List.{Memᴰ}
use pingfs.BlockData.Data.{BlockId}
use pingfs.BlockData.Block.{Block}
use pingfs.BlockManager.Async.{AsyncResponse, vec_to_set}
use pingfs.BlockManager.Async.Response.{settled, updated, updates}
use pingfs.BlockManager.Async.Wakeup.{get_elem?-map}
use pingfs.PingService.Network.View.{
  View, Moves, creates, duplicates, wakes, idles, frees, asks, lands, returns,
}
use pingfs.PingService.Network.Tidy.{Known}

updates-snoc :
    (seen : List Block) (b : Block) (r : AsyncResponse)
    → updates (seen ++ b ∷ []) r ≡ updated b (updates seen r)
updates-snoc [] b r = refl
updates-snoc (x ∷ seen) b r = updates-snoc seen b (updated x r)

module _ (ids : List BlockId) (p : ℕ) (live : List Block) where
  -- A response has seen the blocks that came back, and none of them, nor any that is still to come,
  -- is another block under the id of one that was alive at the time of the request.
  pub record Tracking (v : View) (seen : List Block) : Type 0 where
    pub old : (b : Block) → Memᴰ b live → b.block_id < v.next
    pub known_flying : (b : Block) → Memᴰ b v.flying → Known v.next live b
    pub known_asleep : (b : Block) → Memᴰ b v.asleep → Known v.next live b
    pub known_seen : (b : Block) → Memᴰ b seen → Known v.next live b
    pub waits : get_elem? v.requests.responses p ≡ some (updates seen (settled (vec_to_set ids) []))

  aged : {next : ℕ} {b : Block} → Known next live b → Known (next + 1) live b
  aged k = record { older = omega (arith, k.older); same = k.same }

  -- A block with the next id is none of those that were alive.
  newborn :
      {next : ℕ} (b : Block)
      → ((b' : Block) → Memᴰ b' live → b'.block_id < next)
      → b.block_id ≡ next
      → Known (next + 1) live b
  newborn b old is = record {
    older = omega (arith, is);
    same = λ b' m e. absurd (omega (arith, old b' m, e, is));
  }

  on_append :
      {P : Block → Type 0} (xs : List Block) (b : Block)
      → ((c : Block) → Memᴰ c xs → P c)
      → P b
      → (c : Block) → Memᴰ c (xs ++ b ∷ [])
      → P c
  on_append {P} xs b all one c m = elim (Memᴰ.append_cases xs m) [
    | inl h ↦ all c h
    | inr h ↦ subst P (sym (Memᴰ.eq_of_singleton h)) one
  ]

  -- The response of the request after a block has come by.
  seen_by :
      {v : View} {seen : List Block} (t : Tracking v seen) (b : Block)
      → get_elem? (map (updated b) v.requests.responses) p
        ≡ some (updates (seen ++ b ∷ []) (settled (vec_to_set ids) []))
  seen_by {v} {seen} t b =
      get_elem?-map (updated b) v.requests.responses p
      ∙ ap (Option.map (updated b)) t.waits
      ∙ ap some (sym (updates-snoc seen b (settled (vec_to_set ids) [])))

  -- Every move keeps track.
  pub Moves-Tracking :
      {w : List Block} {v v' : View} {seen new : List Block} {live' : List Block}
      → Moves w v new live' v'
      → Tracking v seen
      → Tracking v' (seen ++ new)
  Moves-Tracking {v} {seen} (creates b is) t = subst (Tracking _) (sym (append-nil seen)) (record {
    old = λ c m. omega (arith, t.old c m);
    known_flying = on_append v.flying b (λ c m. aged (t.known_flying c m)) (newborn b t.old is);
    known_asleep = λ c m. aged (t.known_asleep c m);
    known_seen = λ c m. aged (t.known_seen c m);
    waits = t.waits;
  })
  Moves-Tracking {v} {seen} (duplicates b is) t =
      subst (Tracking _) (sym (append-nil seen)) (record {
        old = λ c m. omega (arith, t.old c m);
        known_flying = on_append v.flying b (λ c m. aged (t.known_flying c m)) (newborn b t.old is);
        known_asleep = on_append v.asleep b (λ c m. aged (t.known_asleep c m)) (newborn b t.old is);
        known_seen = λ c m. aged (t.known_seen c m);
        waits = t.waits;
      })
  Moves-Tracking {v} {seen} (wakes b rest taken) t =
      subst (Tracking _) (sym (append-nil seen)) (record {
        old = t.old;
        known_flying = on_append v.flying b t.known_flying (t.known_asleep b taken.here);
        known_asleep = λ c m. t.known_asleep c (taken.back c m);
        known_seen = t.known_seen;
        waits = t.waits;
      })
  Moves-Tracking {v} {seen} idles t = subst (Tracking v) (sym (append-nil seen)) t
  Moves-Tracking {v} {seen} (frees b alive) t = subst (Tracking _) (sym (append-nil seen)) (record {
    old = t.old;
    known_flying = t.known_flying;
    known_asleep = t.known_asleep;
    known_seen = t.known_seen;
    waits = t.waits;
  })
  Moves-Tracking {v} {seen} (asks more) t = subst (Tracking _) (sym (append-nil seen)) (record {
    old = t.old;
    known_flying = t.known_flying;
    known_asleep = t.known_asleep;
    known_seen = t.known_seen;
    waits =
        get_elem?-append_left v.requests.responses _ p (get_elem?-lt v.requests.responses p t.waits)
        ∙ t.waits;
  })
  Moves-Tracking {seen} (lands b rest taken gone) t = record {
    old = t.old;
    known_flying = λ c m. t.known_flying c (taken.back c m);
    known_asleep = t.known_asleep;
    known_seen = on_append seen b t.known_seen (t.known_flying b taken.here);
    waits = seen_by t b;
  }
  Moves-Tracking {seen} (returns b rest taken) t = record {
    old = t.old;
    known_flying =
        on_append rest b (λ c m. t.known_flying c (taken.back c m)) (t.known_flying b taken.here);
    known_asleep = t.known_asleep;
    known_seen = on_append seen b t.known_seen (t.known_flying b taken.here);
    waits = seen_by t b;
  }
