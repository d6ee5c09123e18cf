-- ===== src/PbftManager/Propose.antt =====
-- PbftManager: proposePbftBlock, which chooses the DAG blocks of a new block, and generatePbftBlock,
-- which makes it for each wallet and keeps the best one.
use rustaxa.Common.{
  ℕ, zero, suc, ◌+◌, ◌-◌, ◌%◌, ◌^◌, Bool, true, false, not, ◌&&◌, ◌||◌, Option, none, some, List,
  [], ◌∷◌, ◌++◌, ltb, leb, ◌==◌, if◌then◌else◌, length, get_elem?, drop, is_nil,
}
use rustaxa.Common.Outcome.{Outcome, done, fault, deref, assert, ◌>>=◌, ◌>>◌}
use rustaxa.Vote.{PbftVote, propose_vote, null_block_hash}
use rustaxa.PbftBlock.{PbftBlock, PbftBlockExtraData}
use rustaxa.VoteManager.{add_verified_vote, is_unique_vote}
use rustaxa.VoteManager.Rewards.{get_reward_votes}
use rustaxa.ProposedBlocks.{ProposedBlocks, is_none, push_proposed_pbft_block}
use rustaxa.PbftManager.{GenesisConfig, World, PbftManager, get_pbft_period}
use rustaxa.PbftManager.Validate.{is_pbft_with_pillar_block_period, is_ficus_hardfork}
use rustaxa.PbftManager.Leader.{identify_leader_block, Leader}
use rustaxa.PbftManager.Voting.{generate_vote_with_weight, get_wallets, chain_of, period_before}

-- What a block says apart from its wallet.
pub record Content : Type 0 where
  pub anchor_hash : ℕ
  pub order_hash : ℕ
  pub extra_data : Option PbftBlockExtraData

-- The wallets that may propose a block.
unfoldable pub proposing_wallets : World → ℕ → ℕ → List (Bool × ℕ) → List ℕ
proposing_wallets w period round [] = []
proposing_wallets w period round ((eligible, wallet) ∷ rest) =
    let others = proposing_wallets w period round rest in
    if eligible && w.valid_vrf_sortition period round wallet then wallet ∷ others else others

-- none: the data cannot be made.
unfoldable pub create_pbft_block_extra_data : World → ℕ → Option PbftBlockExtraData
create_pbft_block_extra_data w period =
    if is_pbft_with_pillar_block_period period w.config.ficus_hf
    then elim w.current_pillar_block [
      | none ↦ none
      | some pillar ↦
          if pillar.period == period_before period
          then some (record { pillar_block_hash = some pillar.hash })
          else none
    ]
    else some (record { pillar_block_hash = none })

-- The walk along the ghost path past the last anchor, but not past the last block.
unfoldable pub skip_anchor : ℕ → List ℕ → Outcome ℕ
skip_anchor last_anchor [] = fault
skip_anchor last_anchor (x ∷ []) = done x
skip_anchor last_anchor (x ∷ y ∷ rest) =
    let later = skip_anchor last_anchor (y ∷ rest) in if x == last_anchor then later else done x

unfoldable pub choose_in_ghost : GenesisConfig → ℕ → List ℕ → Outcome ℕ
unfolding skip_anchor
choose_in_ghost g last_anchor ghost =
    let n = length ghost in
    if leb n g.dag_blocks_size
    then skip_anchor last_anchor (drop (n - 1 - g.ghost_path_move_back) ghost)
    else deref (get_elem? ghost (g.dag_blocks_size - 1))

-- The first block of the highest level, if there is a level.
unfoldable pub last_level_block : List (ℕ × List ℕ) → Outcome (Option ℕ)
last_level_block [] = done none
last_level_block ((_, []) ∷ []) = fault
last_level_block ((_, h ∷ _) ∷ []) = done (some h)
last_level_block (_ ∷ x ∷ rest) = last_level_block (x ∷ rest)

-- How many blocks fit into the gas limit, on 256 bits.
unfoldable pub count_included : World → ℕ → List ℕ → ℕ → Outcome ℕ
count_included w limit [] total_weight = done 0
count_included w limit (h ∷ hs) total_weight = do
  d ← deref (w.dag_block h)
  let sum = (total_weight + d.gas_estimation) % 2 ^ 256
  let later = count_included w limit hs sum
  if ltb limit sum then done 0 else (do n ← later; done (suc n))

abbrev pub is_among : ℕ → List ℕ → Bool
is_among x [] = false
is_among x (y ∷ ys) = y == x || is_among x ys

-- The last of the included blocks that is on the ghost path, or else the second block of the path.
unfoldable pub find_closest_anchor : List ℕ → List ℕ → ℕ → Outcome ℕ
find_closest_anchor ghost order zero = deref (get_elem? ghost 1)
find_closest_anchor ghost order (suc i) = do
  h ← deref (get_elem? order i)
  let earlier = find_closest_anchor ghost order i
  if is_among h ghost then done h else earlier

unfoldable pub clip_anchor : World → ℕ → List ℕ → ℕ → Outcome Content
unfolding find_closest_anchor count_included
clip_anchor w period ghost anchor =
    let order = w.dag_block_order anchor period in
    do
      assert (not (is_nil order))
      included ← count_included w (w.pbft_gas_limit period) order 0
      anchor' ←
          if included == length order then done anchor else find_closest_anchor ghost order included
      done (record {
        anchor_hash = anchor';
        order_hash = w.order_hash (w.dag_block_order anchor' period);
        extra_data = none;
      })

abbrev pub null_content : Content
null_content = record {
  anchor_hash = null_block_hash;
  order_hash = null_block_hash;
  extra_data = none;
}

-- The anchor and the order of the DAG blocks. The hash of an order is that of the list, and of an
-- empty one null.
unfoldable pub choose_content : World → ℕ → ℕ → Outcome Content
unfolding choose_in_ghost last_level_block clip_anchor
choose_content w period last_anchor =
    let ghost = w.ghost_path last_anchor in
    if is_nil ghost then done null_content else do
      anchor ← choose_in_ghost w.config last_anchor ghost
      if anchor == w.config.dag_genesis_block_hash
          then done null_content
          else if anchor == last_anchor
          then (do
            other ← last_level_block w.non_finalized_dag_blocks
            elim other [ none ↦ done null_content | some h ↦ clip_anchor w period ghost h ])
          else clip_anchor w period ghost anchor

unfoldable pub new_block : World → ℕ → ℕ → ℕ → Content → List ℕ → ℕ → PbftBlock
new_block w period prev final_chain_hash content reward_votes wallet =
    let b : PbftBlock = record {
      block_hash = 0;
      prev_block_hash = prev;
      pivot_dag_block_hash = content.anchor_hash;
      order_hash = content.order_hash;
      final_chain_hash = final_chain_hash;
      period = period;
      reward_votes = reward_votes;
      extra_data = content.extra_data;
    } in
    record b { block_hash = w.block_hash b wallet }

-- The block of a wallet, if the wallet has a propose vote for it.
unfoldable pub make_block :
    World
    → PbftManager
    → PbftBlock
    → ℕ
    → ProposedBlocks × List PbftVote
    → ProposedBlocks × List PbftVote
make_block w s b wallet made =
    elim (generate_vote_with_weight w b.block_hash propose_vote b.period s.machine.round
      s.machine.step wallet) [
        | none ↦ made
        | some vote ↦ elim (is_unique_vote vote s.vote_mgr) [
          | some _ ↦ made
          | none ↦ ((push_proposed_pbft_block b false made.0).0, made.1 ++ vote ∷ [])
        ]
      ]

unfoldable pub make_blocks :
    World
    → PbftManager
    → (ℕ → PbftBlock)
    → List ℕ
    → ProposedBlocks × List PbftVote
    → ProposedBlocks × List PbftVote
unfolding make_block
make_blocks w s block_of [] made = made
make_blocks w s block_of (wallet ∷ rest) made =
    make_blocks w s block_of rest (make_block w s (block_of wallet) wallet made)

abbrev pub hashes_of : List PbftVote → List ℕ
hashes_of [] = []
hashes_of (v ∷ vs) = v.hash ∷ hashes_of vs

-- After the first period there are reward votes, and they are of the period before.
unfoldable pub check_reward_period : ℕ → List PbftVote → Outcome (Unit {0})
check_reward_period period votes =
    if ltb 1 period
    then elim votes [ [] ↦ fault | v ∷ _ ↦ assert (v.period == period - 1) ]
    else done tt

-- The leader among the blocks is kept, if its vote can be added.
unfoldable pub keep_leader : World → Leader → PbftManager → Outcome (PbftManager × Leader)
keep_leader w none s = done (s, none)
keep_leader w (some (b, v)) s = do
  (m, added) ← add_verified_vote (chain_of w s) v s.vote_mgr
  let kept : PbftManager = record s { vote_mgr = m }
  if added
      then done (
        record kept {
          proposed_blocks = (push_proposed_pbft_block b true s.proposed_blocks).0;
          own_verified_votes = s.own_verified_votes ++ v ∷ [];
        },
        some (b, v),
      )
      else done (kept, none)

-- The blocks are proposed to identifyLeaderBlock in a map of their own.
unfoldable pub generate_blocks :
    World → (ℕ → PbftBlock) → List ℕ → PbftManager → Outcome (PbftManager × Leader)
unfolding make_blocks keep_leader
generate_blocks w block_of wallets s =
    let (blocks, votes) =
      make_blocks w s block_of wallets (record { proposed_blocks = []; db = [] }, []) in
    do
      (p, leader) ←
          identify_leader_block w s votes
            (record { proposed = blocks; cache = s.anchor_dag_block_order_cache })
      keep_leader w leader (record s { anchor_dag_block_order_cache = p.cache })

unfoldable pub generate_pbft_block :
    World → ℕ → ℕ → Content → List ℕ → PbftManager → Outcome (PbftManager × Leader)
unfolding new_block generate_blocks check_reward_period
generate_pbft_block w period prev content wallets s = do
  reward_votes ← get_reward_votes s.vote_mgr
  _ ← check_reward_period period reward_votes
  elim (w.final_chain_hash period) [
    | none ↦ done (s, none)
    | some final_chain_hash ↦
        generate_blocks w
          (new_block w period prev final_chain_hash content (hashes_of reward_votes)) wallets s
  ]

unfoldable pub propose_pbft_block : World → PbftManager → Outcome (PbftManager × Leader)
unfolding choose_content generate_pbft_block proposing_wallets create_pbft_block_extra_data
propose_pbft_block w s =
    let period = get_pbft_period s in
    let anchor = s.pbft_chain.last_non_null_pbft_dag_anchor_hash in
    let last_anchor =
      if anchor == null_block_hash then w.config.dag_genesis_block_hash else anchor in
    let extra = create_pbft_block_extra_data w period in
    let ficus = is_ficus_hardfork period w.config.ficus_hf in
    do
      wallets ← get_wallets period s.eligible_wallets
      if ficus && is_none extra then done (s, none) else do
        content ← choose_content w period last_anchor
        generate_pbft_block w period s.pbft_chain.last_pbft_block_hash
            (record content { extra_data = if ficus then extra else none })
            (proposing_wallets w period s.machine.round wallets) s
