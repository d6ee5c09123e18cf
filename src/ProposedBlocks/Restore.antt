-- ===== src/ProposedBlocks/Restore.antt =====
-- ProposedBlocks and the column of the database: the calls as steps.
use rustaxa.Common.{
  ℕ, ◌≡◌, refl, sym, ap, subst, ◌∙◌, inl, inr, Bool, true, false, ◌&&◌, some, [], ◌∷◌, arith, ◌==◌,
  ==_iff, Bool-cases, Option-cases, All,
}
use rustaxa.Common.Outcome.{done}
use rustaxa.Common.Map.{Map, lookup, put, erase, emplace, lookup-put}
use rustaxa.Common.Map.Sorted.{IsSorted, put-From, drop_below-From, From-weaken}
use rustaxa.Common.Map.Entries.{put-All, erase-All}
use rustaxa.PbftBlock.{PbftBlock}
use rustaxa.ProposedBlocks.{
  ProposedBlocks, push_proposed_pbft_block, mark_block_as_valid, get_pbft_proposed_block,
  cleanup_proposed_pbft_blocks_by_period, remove_old, remove_blocks, blocks_of,
}
use rustaxa.ProposedBlocks.Cleanup.{
  mark_block_as_valid-IsSorted, get-push_proposed_pbft_block, lookup-remove_old, found,
  get-cleanup_proposed_pbft_blocks_by_period, get-mark_block_as_valid,
}

unfoldable pub new_proposed_blocks : ProposedBlocks
new_proposed_blocks = record { proposed_blocks = []; db = [] }

-- A hash stands for one block, `block_of` it.
module _ (block_of : ℕ → PbftBlock) where
  pub data Step (s : ProposedBlocks) : ProposedBlocks → Type 0 where
    push :
        (b : PbftBlock) → b ≡ block_of b.block_hash → Step s (push_proposed_pbft_block b true s).0
    mark : {s' : ProposedBlocks} (b : PbftBlock) → mark_block_as_valid b s ≡ done s' → Step s s'
    cleanup : (period : ℕ) → Step s (cleanup_proposed_pbft_blocks_by_period period s)

  pub data Reach : ProposedBlocks → Type 0 where
    start : Reach new_proposed_blocks
    next : {s s' : ProposedBlocks} → Reach s → Step s s' → Reach s'

  abbrev pub IsNamed : ℕ × PbftBlock → Type 0
  IsNamed (h, b) = (b ≡ block_of h) × (b.block_hash ≡ h)

  -- Memory and column hold the same blocks.
  pub record IsStored (s : ProposedBlocks) : Type 0 where
    pub sorted : IsSorted s.proposed_blocks
    pub named : All IsNamed s.db
    pub kept :
        (h : ℕ) (b : PbftBlock)
        → lookup h s.db ≡ some b
        → (flag : Bool) × (get_pbft_proposed_block b.period h s ≡ some (b, flag))
    pub stored :
        (period h : ℕ) (b : PbftBlock) (flag : Bool)
        → get_pbft_proposed_block period h s ≡ some (b, flag)
        → (b.period ≡ period) × (lookup h s.db ≡ some b)

  remove_blocks-IsNamed :
      (m : Map (PbftBlock × Bool)) (db : Map PbftBlock)
      → All IsNamed db
      → All IsNamed (remove_blocks m db)
  unfolding remove_blocks
  remove_blocks-IsNamed [] db all = all
  remove_blocks-IsNamed ((h, _) ∷ m) db all =
      remove_blocks-IsNamed m (erase h db) (erase-All IsNamed h db all)

  pub lookup-IsNamed :
      (h : ℕ) (m : Map PbftBlock) {b : PbftBlock}
      → All IsNamed m
      → lookup h m ≡ some b
      → IsNamed (h, b)
  unfolding lookup
  lookup-IsNamed h [] all e = cc
  lookup-IsNamed h ((j, w) ∷ m) {b} all e = elim (Bool-cases (j == h)) [
    | inl same ↦
        let one : w ≡ b = ground arith in
        subst (λ x. IsNamed (h, x)) one (subst (λ i. IsNamed (i, w)) ((==_iff j h).0 same) all.0)
    | inr other ↦ lookup-IsNamed h m all.1 (ground arith)
  ]

  -- Two blocks of one hash are one block.
  named_same :
      (h : ℕ) (b c : PbftBlock) (m : Map PbftBlock)
      → b ≡ block_of b.block_hash
      → b.block_hash ≡ h
      → All IsNamed m
      → lookup h m ≡ some c
      → c ≡ b
  named_same h b c m name e all there =
      (lookup-IsNamed h m all there).0 ∙ ap block_of (sym e) ∙ sym name

  push-db :
      (b : PbftBlock) (s : ProposedBlocks)
      → (push_proposed_pbft_block b true s).0.db ≡ put b.block_hash b s.db
  unfolding push_proposed_pbft_block
  push-db b s = refl

  push-IsSorted :
      (b : PbftBlock) (s : ProposedBlocks)
      → IsSorted s.proposed_blocks
      → IsSorted (push_proposed_pbft_block b true s).0.proposed_blocks
  unfolding push_proposed_pbft_block
  push-IsSorted b s sorted =
      put-From 0 b.period
        (emplace b.block_hash (b, false) (blocks_of (lookup b.period s.proposed_blocks)))
        s.proposed_blocks (omega arith) sorted

  push-kept :
      (b : PbftBlock) (s : ProposedBlocks)
      → b ≡ block_of b.block_hash
      → IsStored s
      → (h : ℕ) (c : PbftBlock) → lookup h (put b.block_hash b s.db) ≡ some c
      → (flag : Bool) × (get_pbft_proposed_block c.period h (push_proposed_pbft_block b true s).0
          ≡ some (c, flag))
  push-kept b s name i h c e = elim (Bool-cases (b.block_hash == h)) [
    | inr other ↦
        let (flag, there) = i.kept h c (ground (arith, lookup-put b.block_hash h b s.db)) in
        (flag, ground (arith, get-push_proposed_pbft_block b true c.period h s))
    | inl same ↦
        let one : b ≡ c = ground (arith, lookup-put b.block_hash h b s.db) in
        elim (Option-cases (get_pbft_proposed_block c.period h s)) [
          | inl new ↦ (false, ground (arith, get-push_proposed_pbft_block b true c.period h s))
          | inr ((d, flag), old) ↦
              let d_b =
                named_same h b d s.db name ((==_iff b.block_hash h).0 same) i.named
                  (i.stored c.period h d flag old).1 in
              (flag, ground (arith, get-push_proposed_pbft_block b true c.period h s))
        ]
  ]

  push-stored :
      (b : PbftBlock) (s : ProposedBlocks)
      → b ≡ block_of b.block_hash
      → IsStored s
      → (period h : ℕ) (c : PbftBlock) (flag : Bool)
      → get_pbft_proposed_block period h (push_proposed_pbft_block b true s).0 ≡ some (c, flag)
      → (c.period ≡ period) × (lookup h (put b.block_hash b s.db) ≡ some c)
  push-stored b s name i period h c flag e = elim (Bool-cases (b.block_hash == h)) [
    | inr other ↦
        let old =
          i.stored period h c flag
            (ground (arith, get-push_proposed_pbft_block b true period h s)) in
        (old.0, ground (arith, lookup-put b.block_hash h b s.db))
    | inl same ↦ elim (Option-cases (get_pbft_proposed_block period h s)) [
      | inl new ↦
          ground (
            arith,
            get-push_proposed_pbft_block b true period h s,
            lookup-put b.block_hash h b s.db,
          )
      | inr ((d, f), old) ↦
          let d_b =
            named_same h b d s.db name ((==_iff b.block_hash h).0 same) i.named
              (i.stored period h d f old).1 in
          let d_period = (i.stored period h d f old).0 in
          ground (
            arith,
            get-push_proposed_pbft_block b true period h s,
            lookup-put b.block_hash h b s.db,
          )
    ]
  ]

  push-IsStored :
      (b : PbftBlock) (s : ProposedBlocks)
      → b ≡ block_of b.block_hash
      → IsStored s
      → IsStored (push_proposed_pbft_block b true s).0
  push-IsStored b s name i = record {
    sorted = push-IsSorted b s i.sorted;
    named = rw (push-db b s) (put-All IsNamed b.block_hash b s.db (name, refl) i.named);
    kept = rw (push-db b s) (push-kept b s name i);
    stored = rw (push-db b s) (push-stored b s name i);
  }

  mark-IsStored :
      (b : PbftBlock) (s : ProposedBlocks) {s' : ProposedBlocks}
      → mark_block_as_valid b s ≡ done s'
      → IsStored s
      → IsStored s'
  mark-IsStored b s {s'} to i =
      let (sorted, same) = mark_block_as_valid-IsSorted b s to i.sorted in
      record {
        sorted = sorted;
        named = rw same i.named;
        kept = λ h c e.
            let (flag, there) = i.kept h c (ground arith) in
            elim (Bool-cases (b.period == c.period && b.block_hash == h)) [
              | inl hit ↦ (true, ground (arith, get-mark_block_as_valid b c.period h s to))
              | inr miss ↦ (flag, ground (arith, get-mark_block_as_valid b c.period h s to))
            ];
        stored = λ period h c flag e. elim (Option-cases (get_pbft_proposed_block period h s)) [
          | inl gone ↦ ground (arith, get-mark_block_as_valid b period h s to)
          | inr ((d, f), old) ↦
              ground (arith, get-mark_block_as_valid b period h s to, i.stored period h d f old)
        ];
      }

  remove_old-IsNamed :
      (bound : ℕ) (m : Map (Map (PbftBlock × Bool))) (db : Map PbftBlock)
      → All IsNamed db
      → All IsNamed (remove_old bound m db)
  unfolding remove_old
  remove_old-IsNamed bound [] db all = all
  remove_old-IsNamed bound ((p, blocks) ∷ m) db all =
      ground (
        arith,
        remove_old-IsNamed bound m (remove_blocks blocks db),
        remove_blocks-IsNamed blocks db,
      )

  cleanup-kept :
      (bound : ℕ) (s : ProposedBlocks)
      → IsStored s
      → (h : ℕ) (c : PbftBlock) → lookup h (remove_old bound s.proposed_blocks s.db) ≡ some c
      → (flag : Bool) × (get_pbft_proposed_block c.period h
            (cleanup_proposed_pbft_blocks_by_period bound s)
          ≡ some (c, flag))
  unfolding get_pbft_proposed_block
  cleanup-kept bound s i h c e =
      elim (lookup-remove_old bound h 0 s.proposed_blocks s.db i.sorted) [
        | inr (gone, _, _, _) ↦ ground arith
        | inl (same, none_old) ↦
            let (flag, there) = i.kept h c (ground arith) in
            (
              flag,
              ground (
                arith,
                get-cleanup_proposed_pbft_blocks_by_period bound c.period h s i.sorted,
                none_old c.period,
              ),
            )
      ]

  cleanup-stored :
      (bound : ℕ) (s : ProposedBlocks)
      → IsStored s
      → (period h : ℕ) (c : PbftBlock) (flag : Bool)
      → get_pbft_proposed_block period h (cleanup_proposed_pbft_blocks_by_period bound s)
        ≡ some (c, flag)
      → (c.period ≡ period) × (lookup h (remove_old bound s.proposed_blocks s.db) ≡ some c)
  unfolding get_pbft_proposed_block
  cleanup-stored bound s i period h c flag e =
      let kept = get-cleanup_proposed_pbft_blocks_by_period bound period h s i.sorted in
      let (at, there) = i.stored period h c flag (ground arith) in
      elim (lookup-remove_old bound h 0 s.proposed_blocks s.db i.sorted) [
        | inl (same, none_old) ↦ (at, ground arith)
        | inr (gone, p, lt, held) ↦ elim (Option-cases (found p h s.proposed_blocks)) [
          | inl free ↦ absurd (held free)
          | inr ((d, f), old) ↦ ground (arith, i.stored p h d f old)
        ]
      ]

  cleanup-IsStored :
      (bound : ℕ) (s : ProposedBlocks)
      → IsStored s
      → IsStored (cleanup_proposed_pbft_blocks_by_period bound s)
  unfolding cleanup_proposed_pbft_blocks_by_period
  cleanup-IsStored bound s i = record {
    sorted =
        From-weaken bound 0 _ (omega arith) (drop_below-From bound 0 s.proposed_blocks i.sorted);
    named = remove_old-IsNamed bound s.proposed_blocks s.db i.named;
    kept = cleanup-kept bound s i;
    stored = cleanup-stored bound s i;
  }

  new-IsStored : IsStored new_proposed_blocks
  unfolding new_proposed_blocks get_pbft_proposed_block lookup
  new-IsStored = record {
    sorted = tt;
    named = tt;
    kept = λ h b e. cc;
    stored = λ period h b flag e. cc;
  }

  -- In every state that pushes, marks and cleanups lead to, a block is found in memory, under its
  -- own period, exactly if the column of the database holds it, and the periods are in order.
  pub Reach-IsStored : {s : ProposedBlocks} → Reach s → IsStored s
  Reach-IsStored start = new-IsStored
  Reach-IsStored (next {s} r (push b name)) = push-IsStored b s name (Reach-IsStored r)
  Reach-IsStored (next {s} r (mark b to)) = mark-IsStored b s to (Reach-IsStored r)
  Reach-IsStored (next {s} r (cleanup period)) = cleanup-IsStored period s (Reach-IsStored r)
