-- ===== src/PbftManager/Steps/Proposal.antt =====
-- PbftManager: what proposeBlock_ leaves as it was, and the propose vote it adds.
use rustaxa.Common.{
  ℕ, ◌≡◌, refl, subst, ◌∙◌, inl, inr, true, false, ◌&&◌, none, some, List, [], ◌∷◌, ◌++◌, arith,
  ◌==◌, if◌then◌else◌, Bool-cases, Option-cases, All,
}
use rustaxa.Common.Outcome.{done, Outcome-cases}
use rustaxa.Common.ListLaws.{All-append}
use rustaxa.Vote.{PbftVote, propose_vote, null_block_hash}
use rustaxa.PbftBlock.{PbftBlock}
use rustaxa.VerifiedVotes.{next_voted_block}
use rustaxa.VoteManager.{add_verified_vote, is_unique_vote}
use rustaxa.VoteManager.Rewards.{get_reward_votes}
use rustaxa.ProposedBlocks.{ProposedBlocks, is_none, push_proposed_pbft_block}
use rustaxa.PbftManager.{World, PbftManager, get_pbft_period}
use rustaxa.PbftManager.Validate.{BlockChecks, is_ficus_hardfork}
use rustaxa.PbftManager.Leader.{identify_leader_block, Leader}
use rustaxa.PbftManager.Leader.Lowest.{OfLeader, identify_leader_block-OfLeader}
use rustaxa.PbftManager.Voting.{generate_vote_with_weight, get_wallets, chain_of}
use rustaxa.PbftManager.Voting.Placed.{generate_vote_with_weight-IsAt}
use rustaxa.PbftManager.Propose.{
  Content, make_block, make_blocks, keep_leader, generate_blocks, new_block, hashes_of,
  check_reward_period, generate_pbft_block, propose_pbft_block, choose_content,
  create_pbft_block_extra_data, proposing_wallets,
}
use rustaxa.PbftManager.Steps.{voted_in, round_before, starts_anew, repropose, propose_block}
use rustaxa.PbftManager.Steps.Place.{
  place, IsNow, Votes, Votes-refl, Votes-same, Votes-trans, Votes-to,
}
use rustaxa.PbftManager.Steps.Votes.{repropose-Votes}

-- The propose votes are of the period of the blocks, and of the round and step of the node.
make_block-All :
    (w : World) (s : PbftManager) (b : PbftBlock) (wallet : ℕ)
    (made : ProposedBlocks × List PbftVote)
    → b.period ≡ (place s).period
    → All (IsNow (place s)) made.1
    → All (IsNow (place s)) (make_block w s b wallet made).1
unfolding make_block
make_block-All w s b wallet made same all =
    elim (Option-cases (
      generate_vote_with_weight w b.block_hash propose_vote b.period s.machine.round s.machine.step
        wallet)) [
          | inl e ↦ subst (All (IsNow (place s))) (rw (make_block, e) refl) all
          | inr (v, e) ↦ elim (Option-cases (is_unique_vote v s.vote_mgr)) [
            | inr (x, f) ↦ subst (All (IsNow (place s))) (rw (make_block, e, f) refl) all
            | inl f ↦
                let at =
                  generate_vote_with_weight-IsAt w b.block_hash propose_vote b.period
                    s.machine.round s.machine.step wallet e in
                subst (All (IsNow (place s))) (rw (make_block, e, f) refl) (
                  All-append (IsNow (place s)) made.1 (v ∷ []) all
                    ((at.at_period ∙ same, at.at_round, at.at_step), tt))
          ]
        ]

make_blocks-All :
    (w : World) (s : PbftManager) (block_of : ℕ → PbftBlock) (wallets : List ℕ)
    (made : ProposedBlocks × List PbftVote)
    → ((wallet : ℕ) → (block_of wallet).period ≡ (place s).period)
    → All (IsNow (place s)) made.1
    → All (IsNow (place s)) (make_blocks w s block_of wallets made).1
unfolding make_blocks
make_blocks-All w s block_of [] made same all = all
make_blocks-All w s block_of (wallet ∷ rest) made same all =
    make_blocks-All w s block_of rest (make_block w s (block_of wallet) wallet made) same
      (make_block-All w s (block_of wallet) wallet made (same wallet) all)

keep_leader-Votes :
    (w : World) (r : Leader) (s : PbftManager) {s' : PbftManager} {r' : Leader}
    → OfLeader (IsNow (place s)) r
    → keep_leader w r s ≡ done (s', r')
    → Votes s s'
unfolding keep_leader get_pbft_period
keep_leader-Votes w none s now h = Votes-to (Votes-refl s) (ground arith)
keep_leader-Votes w (some (b, v)) s now h =
    elim (Outcome-cases (add_verified_vote (chain_of w s) v s.vote_mgr)) [
      | inl e ↦ ground arith
      | inr ((m, false), e) ↦
          let t : PbftManager = record s { vote_mgr = m } in
          Votes-to (Votes-same s t refl refl) (ground arith)
      | inr ((m, true), e) ↦
          let t : PbftManager = record s {
            vote_mgr = m;
            proposed_blocks = (push_proposed_pbft_block b true s.proposed_blocks).0;
            own_verified_votes = s.own_verified_votes ++ v ∷ [];
          } in
          let voted : Votes s t = record {
            same_place = refl;
            votes = λ P new all. All-append P s.own_verified_votes (v ∷ []) all (new v now, tt);
          } in
          Votes-to voted (ground arith)
    ]

generate_blocks-Votes :
    (w : World) (block_of : ℕ → PbftBlock) (wallets : List ℕ) (s : PbftManager) {s' : PbftManager}
    {r : Leader}
    → ((wallet : ℕ) → (block_of wallet).period ≡ (place s).period)
    → generate_blocks w block_of wallets s ≡ done (s', r)
    → Votes s s'
unfolding generate_blocks get_pbft_period
generate_blocks-Votes w block_of wallets s {s'} {r} same h =
    let made = make_blocks w s block_of wallets (record { proposed_blocks = []; db = [] }, []) in
    let checks : BlockChecks = record {
      proposed = made.0;
      cache = s.anchor_dag_block_order_cache;
    } in
    elim (Outcome-cases (identify_leader_block w s made.1 checks)) [
      | inl e ↦ ground arith
      | inr ((p, leader), e) ↦
          let seen : PbftManager = record s { anchor_dag_block_order_cache = p.cache } in
          let now = identify_leader_block-OfLeader (IsNow (place s)) w s made.1 checks e (
            make_blocks-All w s block_of wallets (record { proposed_blocks = []; db = [] }, []) same
              tt) in
          Votes-trans (Votes-same s seen refl refl)
            (keep_leader-Votes w leader seen {s' = s'} {r' = r} now (ground arith))
    ]

generate_pbft_block-Votes :
    (w : World) (prev : ℕ) (content : Content) (wallets : List ℕ) (s : PbftManager)
    {s' : PbftManager} {r : Leader}
    → generate_pbft_block w (get_pbft_period s) prev content wallets s ≡ done (s', r)
    → Votes s s'
unfolding generate_pbft_block new_block
generate_pbft_block-Votes w prev content wallets s {s'} {r} h =
    let period = get_pbft_period s in
    elim (Outcome-cases (get_reward_votes s.vote_mgr)) [
      | inl e ↦ ground arith
      | inr (reward_votes, e) ↦ elim (Outcome-cases (check_reward_period period reward_votes)) [
        | inl f ↦ ground arith
        | inr (u, f) ↦ elim (Option-cases (w.final_chain_hash period)) [
          | inl g ↦ Votes-to (Votes-refl s) (ground arith)
          | inr (final_chain_hash, g) ↦
              generate_blocks-Votes w
                (new_block w period prev final_chain_hash content (hashes_of reward_votes)) wallets
                s {s' = s'} {r = r} (λ wallet. refl) (ground arith)
        ]
      ]
    ]

propose_pbft_block-Votes :
    (w : World) (s : PbftManager) {s' : PbftManager} {r : Leader}
    → propose_pbft_block w s ≡ done (s', r)
    → Votes s s'
unfolding propose_pbft_block
propose_pbft_block-Votes w s {s'} {r} h =
    let period = get_pbft_period s in
    let extra = create_pbft_block_extra_data w period in
    let ficus = is_ficus_hardfork period w.config.ficus_hf in
    let anchor = s.pbft_chain.last_non_null_pbft_dag_anchor_hash in
    let last_anchor =
      if anchor == null_block_hash then w.config.dag_genesis_block_hash else anchor in
    elim (Outcome-cases (get_wallets period s.eligible_wallets)) [
      | inl e ↦ ground arith
      | inr (wallets, e) ↦ elim (Bool-cases (ficus && is_none extra)) [
        | inl missing ↦ Votes-to (Votes-refl s) (ground arith)
        | inr there ↦ elim (Outcome-cases (choose_content w period last_anchor)) [
          | inl f ↦ ground arith
          | inr (content, f) ↦
              generate_pbft_block-Votes w s.pbft_chain.last_pbft_block_hash
                (record content { extra_data = if ficus then extra else none })
                (proposing_wallets w period s.machine.round wallets) s {s' = s'} {r = r}
                (ground arith)
        ]
      ]
    ]

pub propose_block-Votes :
    (w : World) (s : PbftManager) {s' : PbftManager} → propose_block w s ≡ done s' → Votes s s'
unfolding propose_block
propose_block-Votes w s h = elim (Bool-cases (starts_anew s)) [
  | inl anew ↦ elim (Outcome-cases (propose_pbft_block w s)) [
    | inl e ↦ ground arith
    | inr ((t, r), e) ↦ Votes-to (propose_pbft_block-Votes w s e) (ground arith)
  ]
  | inr again ↦ elim (Option-cases (voted_in (round_before s) next_voted_block s)) [
    | inl e ↦ ground arith
    | inr (block_hash, e) ↦ elim (Outcome-cases (repropose w block_hash s)) [
      | inl f ↦ ground arith
      | inr ((t, placed), f) ↦ Votes-to (repropose-Votes w block_hash s f) (ground arith)
    ]
  ]
]
