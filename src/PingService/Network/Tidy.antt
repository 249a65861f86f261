-- ===== src/PingService/Network/Tidy.antt =====
-- The blocks of lib/src/block/block_manager/ping/ping_block_manager.cc as lists: those that are in
-- flight, those that a thread will send again, those that have been freed, and those that are alive.
use pingfs.Base.{
  ℕ, ◌+◌, ◌<◌, ◌==◌, true, false, Bool-cases, List, [], ◌∷◌, ◌++◌, ◌≡◌, refl, sym, ap, ◌∙◌, subst,
  arith, inl, inr,
}
use mathlib.Core.List.Memᴰ
use mathlib.Core.List.{Memᴰ}
use pingfs.Base.Sets.{mem, add, remove, mem-add, mem-remove}
use pingfs.BlockData.Data.{BlockId}
use pingfs.BlockData.Block.{Block}
use pingfs.PingService.Network.{without_id}
use pingfs.PingService.Network.View.{
  View, Taken, Moves, creates, duplicates, wakes, idles, frees, asks, lands, returns,
}

-- A block that is older than the next id, and that no other block that is alive has the id of.
pub record Known (next : ℕ) (live : List Block) (b : Block) : Type 0 where
  pub older : b.block_id < next
  pub same : (b' : Block) → Memᴰ b' live → b'.block_id ≡ b.block_id → b' ≡ b

pub record Tidy (next : ℕ) (freed_ids : List BlockId) (asleep live flying : List Block)
    : Type 0 where
  pub aloft : (b : Block) → Memᴰ b live → Memᴰ b flying
  pub unfreed : (b : Block) → Memᴰ b live → mem b.block_id freed_ids ≡ false
  pub known_flying : (b : Block) → Memᴰ b flying → Known next live b
  pub known_asleep : (b : Block) → Memᴰ b asleep → Known next live b
  pub older : (j : BlockId) → mem j freed_ids ≡ true → j < next

pub start-Tidy : {next : ℕ} → Tidy next [] [] [] []
unfolding mem
start-Tidy = record {
  aloft = λ b m. m;
  unfreed = λ b m. refl;
  known_flying = λ b m. absurd (Memᴰ.not-nil m);
  known_asleep = λ b m. absurd (Memᴰ.not-nil m);
  older = λ j h. cc;
}

pub without_id-Memᴰ :
    (id : BlockId) (live : List Block) (b : Block)
    → Memᴰ b (without_id id live)
    → Memᴰ b live × ((b.block_id == id) ≡ false)
unfolding without_id
without_id-Memᴰ id [] b m = absurd (Memᴰ.not-nil m)
without_id-Memᴰ id (x ∷ live) b m = elim (Bool-cases (x.block_id == id)) [
  | inl h ↦
      let skip : without_id id (x ∷ live) ≡ without_id id live = rw h in
      let (there, differs) = without_id-Memᴰ id live b (subst (Memᴰ b) skip m) in
      (Memᴰ.tail there, differs)
  | inr h ↦
      let keep : without_id id (x ∷ live) ≡ x ∷ without_id id live = rw h in
      elim (Memᴰ.cases_cons (subst (Memᴰ b) keep m)) [
        | inl e ↦ (Memᴰ.head e, ap (λ (c : Block). c.block_id == id) e ∙ h)
        | inr r ↦ let (there, differs) = without_id-Memᴰ id live b r in (Memᴰ.tail there, differs)
      ]
]

module _ {next : ℕ} {freed_ids : List BlockId} {asleep live flying : List Block}
    (tidy : Tidy next freed_ids asleep live flying) where
  -- A known block is sent once more.
  pub register-Tidy :
      (b : Block) → Known next live b → Tidy next freed_ids asleep live (flying ++ b ∷ [])
  register-Tidy b known = record {
    aloft = λ x m. Memᴰ.append_left (b ∷ []) (tidy.aloft x m);
    unfreed = tidy.unfreed;
    known_flying = λ x m. elim (Memᴰ.append_cases flying m) [
      | inl h ↦ tidy.known_flying x h
      | inr h ↦ subst (Known next live) (sym (Memᴰ.eq_of_singleton h)) known
    ];
    known_asleep = tidy.known_asleep;
    older = tidy.older;
  }

  -- A block with the next id is created and sent.
  pub create-Tidy :
      (b : Block)
      → b.block_id ≡ next
      → Tidy (next + 1) freed_ids asleep (b ∷ live) (flying ++ b ∷ [])
  create-Tidy b is =
      let grow : (x : Block) → Known next live x → Known (next + 1) (b ∷ live) x = λ x k. record {
        older = omega (arith, k.older);
        same = λ b' m e. elim (Memᴰ.cases_cons m) [
          | inl h ↦ absurd (omega (arith, k.older, ap (λ (c : Block). c.block_id) h))
          | inr h ↦ k.same b' h e
        ];
      } in
      let new : Known (next + 1) (b ∷ live) b = record {
        older = omega arith;
        same = λ b' m e. elim (Memᴰ.cases_cons m) [
          | inl h ↦ h
          | inr h ↦ absurd (omega (arith, (tidy.known_flying b' (tidy.aloft b' h)).older))
        ];
      } in
      record {
        aloft = λ x m. elim (Memᴰ.cases_cons m) [
          | inl h ↦ Memᴰ.append_right flying (Memᴰ.head h)
          | inr h ↦ Memᴰ.append_left (b ∷ []) (tidy.aloft x h)
        ];
        unfreed = λ x m. elim (Memᴰ.cases_cons m) [
          | inl h ↦ elim (Bool-cases (mem x.block_id freed_ids)) [
            | inl old ↦
                absurd
                  (omega (arith, tidy.older x.block_id old, ap (λ (c : Block). c.block_id) h, is))
            | inr out ↦ out
          ]
          | inr h ↦ tidy.unfreed x h
        ];
        known_flying = λ x m. elim (Memᴰ.append_cases flying m) [
          | inl h ↦ grow x (tidy.known_flying x h)
          | inr h ↦ subst (Known (next + 1) (b ∷ live)) (sym (Memᴰ.eq_of_singleton h)) new
        ];
        known_asleep = λ x m. grow x (tidy.known_asleep x m);
        older = λ j h. omega (arith, tidy.older j h);
      }

  -- A thread with a known block falls asleep, or one wakes up.
  pub sleep-Tidy :
      (b : Block) → Known next live b → Tidy next freed_ids (asleep ++ b ∷ []) live flying
  sleep-Tidy b known = record {
    aloft = tidy.aloft;
    unfreed = tidy.unfreed;
    known_flying = tidy.known_flying;
    known_asleep = λ x m. elim (Memᴰ.append_cases asleep m) [
      | inl h ↦ tidy.known_asleep x h
      | inr h ↦ subst (Known next live) (sym (Memᴰ.eq_of_singleton h)) known
    ];
    older = tidy.older;
  }

  pub wake-Tidy :
      {rest : List Block}
      → ((b : Block) → Memᴰ b rest → Memᴰ b asleep)
      → Tidy next freed_ids rest live flying
  wake-Tidy within = record {
    aloft = tidy.aloft;
    unfreed = tidy.unfreed;
    known_flying = tidy.known_flying;
    known_asleep = λ x m. tidy.known_asleep x (within x m);
    older = tidy.older;
  }

  -- A block that is alive is freed.
  pub free-Tidy :
      (b : Block)
      → Memᴰ b live
      → Tidy next (add b.block_id freed_ids) asleep (without_id b.block_id live) flying
  free-Tidy b alive =
      let shrink : (x : Block) → Known next live x → Known next (without_id b.block_id live) x =
        λ x k. record {
          older = k.older;
          same = λ b' m e. k.same b' (without_id-Memᴰ b.block_id live b' m).0 e;
        } in
      record {
        aloft = λ x m. tidy.aloft x (without_id-Memᴰ b.block_id live x m).0;
        unfreed = λ x m. ground (
          arith,
          tidy.unfreed x (without_id-Memᴰ b.block_id live x m).0,
          mem-add x.block_id b.block_id freed_ids,
          (without_id-Memᴰ b.block_id live x m).1,
        );
        known_flying = λ x m. shrink x (tidy.known_flying x m);
        known_asleep = λ x m. shrink x (tidy.known_asleep x m);
        older = λ j h. ground (
          arith,
          mem-add j b.block_id freed_ids,
          (tidy.known_flying b (tidy.aloft b alive)).older,
          tidy.older j,
        );
      }

  -- A freed block comes back and is dropped.
  pub land-Tidy :
      {b : Block} {rest : List Block}
      → Taken b flying rest
      → mem b.block_id freed_ids ≡ true
      → Tidy next (remove b.block_id freed_ids) asleep live rest
  land-Tidy {b} t gone = record {
    aloft = λ x m. elim (t.out x (tidy.aloft x m)) [
      | inl h ↦ absurd (cc (tidy.unfreed x m, ap (λ (c : Block). mem c.block_id freed_ids) h, gone))
      | inr h ↦ h
    ];
    unfreed = λ x m. ground (arith, tidy.unfreed x m, mem-remove x.block_id b.block_id freed_ids);
    known_flying = λ x m. tidy.known_flying x (t.back x m);
    known_asleep = tidy.known_asleep;
    older = λ j h. tidy.older j (ground (arith, mem-remove j b.block_id freed_ids));
  }

  -- Another block comes back and is sent again.
  pub return-Tidy :
      {b : Block} {rest : List Block}
      → Taken b flying rest
      → Tidy next freed_ids asleep live (rest ++ b ∷ [])
  return-Tidy {b} {rest} t = record {
    aloft = λ x m. elim (t.out x (tidy.aloft x m)) [
      | inl h ↦ Memᴰ.append_right rest (Memᴰ.head h)
      | inr h ↦ Memᴰ.append_left (b ∷ []) h
    ];
    unfreed = tidy.unfreed;
    known_flying = λ x m. elim (Memᴰ.append_cases rest m) [
      | inl h ↦ tidy.known_flying x (t.back x h)
      | inr h ↦ tidy.known_flying x (Memᴰ.cast (Memᴰ.eq_of_singleton h) t.here)
    ];
    known_asleep = tidy.known_asleep;
    older = tidy.older;
  }

-- The lists of a view are tidy.
abbrev pub TidyView : List Block → View → Type 0
TidyView live v = Tidy v.next v.freed_ids v.asleep live v.flying

pub Moves-TidyView :
    {live live' seen : List Block} {v v' : View}
    → Moves live v seen live' v'
    → TidyView live v
    → TidyView live' v'
Moves-TidyView (creates b is) tidy = create-Tidy tidy b is
Moves-TidyView {v} (duplicates b is) tidy =
    let made = create-Tidy tidy b is in
    sleep-Tidy made b (made.known_flying b (Memᴰ.append_right v.flying (Memᴰ.head refl)))
Moves-TidyView (wakes b rest t) tidy =
    register-Tidy (wake-Tidy tidy t.back) b (tidy.known_asleep b t.here)
Moves-TidyView idles tidy = tidy
Moves-TidyView (frees b alive) tidy = free-Tidy tidy b alive
Moves-TidyView (asks ids) tidy = tidy
Moves-TidyView (lands b rest t gone) tidy = land-Tidy tidy t gone
Moves-TidyView (returns b rest t) tidy = return-Tidy tidy t
