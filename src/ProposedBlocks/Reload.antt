-- ===== src/ProposedBlocks/Reload.antt =====
-- ProposedBlocks: the restart that reads the column of the database again.
use rustaxa.Common.{
  ℕ, ◌≡◌, sym, ap, subst, ◌∙◌, inl, inr, Bool, false, Option, none, some, [], ◌∷◌, arith, ◌==◌,
  if◌then◌else◌, ==_iff, Bool-cases, Option-cases, All,
}
use rustaxa.Common.Map.{Map, lookup, or_else}
use rustaxa.PbftBlock.{PbftBlock}
use rustaxa.ProposedBlocks.{
  ProposedBlocks, push_proposed_pbft_block, get_pbft_proposed_block, load_blocks,
}
use rustaxa.ProposedBlocks.Cleanup.{get-push_proposed_pbft_block}
use rustaxa.ProposedBlocks.Restore.{Reach, IsNamed, lookup-IsNamed, Reach-IsStored}

module _ (block_of : ℕ → PbftBlock) where
  -- What a block of the column is found with after a restart.
  abbrev pub unvalidated : Option (PbftBlock × Bool) → Option (PbftBlock × Bool)
  unvalidated none = none
  unvalidated (some (b, _)) = some (b, false)

  abbrev at_period : ℕ → Option PbftBlock → Option (PbftBlock × Bool)
  at_period period none = none
  at_period period (some b) = if b.period == period then some (b, false) else none

  get-load_blocks :
      (period h : ℕ) (m : Map PbftBlock) (s : ProposedBlocks)
      → All (IsNamed block_of) m
      → get_pbft_proposed_block period h (load_blocks m s)
        ≡ or_else (get_pbft_proposed_block period h s) (at_period period (lookup h m))
  unfolding load_blocks lookup
  get-load_blocks period h [] s all = ground arith
  get-load_blocks period h ((k, b) ∷ m) s all =
      let later = get-load_blocks period h m (push_proposed_pbft_block b false s).0 all.1 in
      let pushed = get-push_proposed_pbft_block b false period h s in
      elim (Bool-cases (k == h)) [
        | inr other ↦ ground arith
        | inl here ↦ elim (Option-cases (lookup h m)) [
          | inl single ↦ ground arith
          | inr (c, again) ↦
              let c_b : c ≡ b =
                (lookup-IsNamed block_of h m all.1 again).0
                ∙ ap block_of (sym ((==_iff k h).0 here))
                ∙ sym all.0.0 in
              ground arith
        ]
      ]

  -- In a state that is reached, loading the column into an empty ProposedBlocks finds each block that was found
  -- before, and no other, with its flag unset.
  pub get-load_blocks_restart :
      {s : ProposedBlocks} (period h : ℕ)
      → Reach block_of s
      → get_pbft_proposed_block period h
          (load_blocks s.db (record { proposed_blocks = []; db = s.db }))
        ≡ unvalidated (get_pbft_proposed_block period h s)
  unfolding get_pbft_proposed_block lookup
  get-load_blocks_restart {s} period h r =
      let i = Reach-IsStored block_of r in
      let loaded =
        get-load_blocks period h s.db (record { proposed_blocks = []; db = s.db }) i.named in
      elim (Option-cases (get_pbft_proposed_block period h s)) [
        | inr ((b, flag), e) ↦ ground (arith, i.stored period h b flag e)
        | inl e ↦ elim (Option-cases (lookup h s.db)) [
          | inl free ↦ ground arith
          | inr (b, held) ↦ elim (Bool-cases (b.period == period)) [
            | inr other ↦ ground arith
            | inl same ↦
                let there =
                  subst (λ p. (flag : Bool) × (get_pbft_proposed_block p h s ≡ some (b, flag)))
                    ((==_iff b.period period).0 same) (i.kept h b held) in
                ground (arith, there)
          ]
        ]
      ]
