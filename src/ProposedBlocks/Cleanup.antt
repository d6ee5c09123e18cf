-- ===== src/ProposedBlocks/Cleanup.antt =====
-- ProposedBlocks as a machine: what is found in memory and in the column of the database after each
-- call, cleanupProposedPbftBlocksByPeriod included.
use rustaxa.Common.{
  ℕ, suc, ◌<◌, ◌≡◌, refl, sym, ap, subst, ◌≢◌, ◌⊎◌, inl, inr, Bool, true, false, ◌&&◌, Option, none,
  some, [], ◌∷◌, arith, ltb, ◌==◌, if◌then◌else◌, ==_iff, Bool-cases, Option-cases,
}
use rustaxa.Common.Outcome.{done}
use rustaxa.Common.Map.{Map, lookup, put, erase, emplace, lookup-put, lookup-erase}
use rustaxa.Common.Map.Sorted.{IsSorted, From, put-From, lookup-drop_below, lookup_below}
use rustaxa.PbftBlock.{PbftBlock}
use rustaxa.ProposedBlocks.{
  ProposedBlocks, push_proposed_pbft_block, mark_block_as_valid, get_pbft_proposed_block,
  cleanup_proposed_pbft_blocks_by_period, remove_old, remove_blocks, blocks_of,
}

abbrev pub or_new {ℓ} : {A : Type ℓ} → A → Option A → A
or_new d none = d
or_new d (some a) = a

pushed_same :
    (b : PbftBlock) (save : Bool) (h : ℕ) (s : ProposedBlocks)
    → get_pbft_proposed_block b.period h (push_proposed_pbft_block b save s).0 ≡ (
        if b.block_hash == h
        then some (or_new (b, false) (get_pbft_proposed_block b.period b.block_hash s))
        else get_pbft_proposed_block b.period h s)
unfolding get_pbft_proposed_block push_proposed_pbft_block emplace lookup
pushed_same b save h s =
    let blocks = blocks_of (lookup b.period s.proposed_blocks) in
    ground (
      arith,
      lookup-put b.period b.period (emplace b.block_hash (b, false) blocks) s.proposed_blocks,
      lookup-put b.block_hash h (b, false) blocks,
      ==_iff b.block_hash h,
    )

-- What is found after a push, by what was found before.
abbrev pub after_push : PbftBlock → ℕ → ℕ → Option (PbftBlock × Bool) → Option (PbftBlock × Bool)
after_push b period h before =
    if b.period == period && b.block_hash == h then some (or_new (b, false) before) else before

pushed_period :
    (b : PbftBlock) (save : Bool) (h : ℕ) (s : ProposedBlocks)
    → get_pbft_proposed_block b.period h (push_proposed_pbft_block b save s).0
      ≡ after_push b b.period h (get_pbft_proposed_block b.period h s)
pushed_period b save h s = elim (Bool-cases (b.block_hash == h)) [
  | inl e ↦
      subst
        (λ j.
          get_pbft_proposed_block b.period j (push_proposed_pbft_block b save s).0
          ≡ after_push b b.period j (get_pbft_proposed_block b.period j s))
        ((==_iff b.block_hash h).0 e) (ground (arith, pushed_same b save b.block_hash s))
  | inr e ↦ ground (arith, pushed_same b save h s)
]

pub get-push_proposed_pbft_block :
    (b : PbftBlock) (save : Bool) (period h : ℕ) (s : ProposedBlocks)
    → get_pbft_proposed_block period h (push_proposed_pbft_block b save s).0
      ≡ after_push b period h (get_pbft_proposed_block period h s)
unfolding get_pbft_proposed_block push_proposed_pbft_block
get-push_proposed_pbft_block b save period h s = elim (Bool-cases (b.period == period)) [
  | inl e ↦
      subst
        (λ p.
          get_pbft_proposed_block p h (push_proposed_pbft_block b save s).0
          ≡ after_push b p h (get_pbft_proposed_block p h s))
        ((==_iff b.period period).0 e) (pushed_period b save h s)
  | inr e ↦
      let blocks = blocks_of (lookup b.period s.proposed_blocks) in
      ground (
        arith,
        lookup-put b.period period (emplace b.block_hash (b, false) blocks) s.proposed_blocks,
      )
]

lookup-remove_blocks :
    (h : ℕ) (m : Map (PbftBlock × Bool)) (db : Map PbftBlock)
    → lookup h (remove_blocks m db) ≡ elim (lookup h m) [ none ↦ lookup h db | some _ ↦ none ]
unfolding lookup remove_blocks
lookup-remove_blocks h [] db = refl
lookup-remove_blocks h ((k, x) ∷ m) db =
    ground (arith, lookup-remove_blocks h m (erase k db), lookup-erase k h db)

abbrev pub found : ℕ → ℕ → Map (Map (PbftBlock × Bool)) → Option (PbftBlock × Bool)
found period h m = elim (lookup period m) [ none ↦ none | some blocks ↦ lookup h blocks ]

-- What the database loses is what the old periods hold.
pub lookup-remove_old :
    (bound h lo : ℕ) (m : Map (Map (PbftBlock × Bool))) (db : Map PbftBlock)
    → From lo m
    → (lookup h (remove_old bound m db) ≡ lookup h db) × ((p : ℕ) → p < bound → found p h m ≡ none)
      ⊎ (lookup h (remove_old bound m db) ≡ none) × (p : ℕ) × (p < bound) × (found p h m ≢ none)
unfolding lookup remove_old
lookup-remove_old bound h lo [] db s = inl (refl, λ p lt. refl)
lookup-remove_old bound h lo ((k, blocks) ∷ m) db s = elim (Bool-cases (ltb k bound)) [
  | inr e ↦ inl (ground arith, λ p lt. ground (arith, lookup_below (suc k) p m))
  | inl e ↦ elim (Option-cases (lookup h blocks)) [
    | inr (x, held) ↦ elim (lookup-remove_old bound h (suc k) m (remove_blocks blocks db) s.1) [
      | inl (same, none_old) ↦
          inr (ground (arith, lookup-remove_blocks h blocks db), k, ground arith, ground arith)
      | inr (gone, p, lt, there) ↦ inr (ground arith, k, ground arith, ground arith)
    ]
    | inl free ↦ elim (lookup-remove_old bound h (suc k) m (remove_blocks blocks db) s.1) [
      | inl (same, none_old) ↦
          inl (ground (arith, lookup-remove_blocks h blocks db), λ p lt. ground (arith, none_old p))
      | inr (gone, p, lt, there) ↦
          inr (ground arith, p, lt, λ n. there (ground (arith, lookup_below (suc k) p m)))
    ]
  ]
]

pub get-cleanup_proposed_pbft_blocks_by_period :
    (bound period h : ℕ) (s : ProposedBlocks)
    → IsSorted s.proposed_blocks
    → get_pbft_proposed_block period h (cleanup_proposed_pbft_blocks_by_period bound s)
      ≡ (if ltb period bound then none else get_pbft_proposed_block period h s)
unfolding get_pbft_proposed_block cleanup_proposed_pbft_blocks_by_period
get-cleanup_proposed_pbft_blocks_by_period bound period h s sorted =
    ground (arith, lookup-drop_below bound period 0 s.proposed_blocks sorted)

-- The flag is set of the block that is found.
abbrev pub flagged : PbftBlock → ℕ → ℕ → Option (PbftBlock × Bool) → Option (PbftBlock × Bool)
flagged b period h before =
    if b.period == period && b.block_hash == h
    then elim before [ none ↦ none | some found ↦ some (found.0, true) ]
    else before

abbrev marked : PbftBlock → Map (PbftBlock × Bool) → PbftBlock → ProposedBlocks → ProposedBlocks
marked b blocks found s = record s {
  proposed_blocks = put b.period (put b.block_hash (found, true) blocks) s.proposed_blocks;
}

mark_block_as_valid_cases :
    (b : PbftBlock) (s : ProposedBlocks) {s' : ProposedBlocks}
    → mark_block_as_valid b s ≡ done s'
    → (blocks : Map (PbftBlock × Bool)) × (held : PbftBlock × Bool) × (lookup b.period
          s.proposed_blocks
        ≡ some blocks)
      × (lookup b.block_hash blocks ≡ some held)
      × (s' ≡ marked b blocks held.0 s)
unfolding mark_block_as_valid
mark_block_as_valid_cases b s to = elim (Option-cases (lookup b.period s.proposed_blocks)) [
  | inl e ↦ ground arith
  | inr (blocks, e) ↦ elim (Option-cases (lookup b.block_hash blocks)) [
    | inl f ↦ ground arith
    | inr (held, f) ↦ (blocks, held, e, f, ground arith)
  ]
]

pub mark_block_as_valid-IsSorted :
    (b : PbftBlock) (s : ProposedBlocks) {s' : ProposedBlocks}
    → mark_block_as_valid b s ≡ done s'
    → IsSorted s.proposed_blocks
    → IsSorted s'.proposed_blocks × (s'.db ≡ s.db)
mark_block_as_valid-IsSorted b s to sorted =
    let (blocks, held, e, f, same) = mark_block_as_valid_cases b s to in
    let kept =
      put-From 0 b.period (put b.block_hash (held.0, true) blocks) s.proposed_blocks (omega arith)
        sorted in
    (
      subst (λ (x : ProposedBlocks). IsSorted x.proposed_blocks) (sym same) kept,
      ap (λ (x : ProposedBlocks). x.db) same,
    )

marked_period :
    (b : PbftBlock) (h : ℕ) (s : ProposedBlocks) (blocks : Map (PbftBlock × Bool))
    (held : PbftBlock × Bool)
    → lookup b.period s.proposed_blocks ≡ some blocks
    → lookup b.block_hash blocks ≡ some held
    → get_pbft_proposed_block b.period h (marked b blocks held.0 s)
      ≡ flagged b b.period h (get_pbft_proposed_block b.period h s)
unfolding get_pbft_proposed_block
marked_period b h s blocks held e f = elim (Bool-cases (b.block_hash == h)) [
  | inl same ↦
      subst
        (λ j.
          get_pbft_proposed_block b.period j (marked b blocks held.0 s)
          ≡ flagged b b.period j (get_pbft_proposed_block b.period j s))
        ((==_iff b.block_hash h).0 same)
        (ground (
          arith,
          lookup-put b.period b.period (put b.block_hash (held.0, true) blocks) s.proposed_blocks,
          lookup-put b.block_hash b.block_hash (held.0, true) blocks,
        ))
  | inr other ↦ ground (
    arith,
    lookup-put b.period b.period (put b.block_hash (held.0, true) blocks) s.proposed_blocks,
    lookup-put b.block_hash h (held.0, true) blocks,
  )
]

pub get-mark_block_as_valid :
    (b : PbftBlock) (period h : ℕ) (s : ProposedBlocks) {s' : ProposedBlocks}
    → mark_block_as_valid b s ≡ done s'
    → get_pbft_proposed_block period h s' ≡ flagged b period h (get_pbft_proposed_block period h s)
unfolding get_pbft_proposed_block
get-mark_block_as_valid b period h s to =
    let (blocks, held, e, f, same) = mark_block_as_valid_cases b s to in
    rw same (elim (Bool-cases (b.period == period)) [
      | inl here ↦
          subst
            (λ p.
              get_pbft_proposed_block p h (marked b blocks held.0 s)
              ≡ flagged b p h (get_pbft_proposed_block p h s))
            ((==_iff b.period period).0 here) (marked_period b h s blocks held e f)
      | inr there ↦ ground (
        arith,
        lookup-put b.period period (put b.block_hash (held.0, true) blocks) s.proposed_blocks,
      )
    ])
