-- ===== src/VoteManager/Steady.antt =====
-- VoteManager: each 2t+1 block has votes of 2t+1 of the stake, in the states that calls lead to.
use rustaxa.Common.{ℕ, ◌≤◌, ◌≡◌, refl, subst, inl, inr, Bool, some, List, [], ◌∷◌, arith}
use rustaxa.Common.Outcome.{done}
use rustaxa.Common.Map.{Map, lookup}
use rustaxa.Vote.{PbftVote, PbftVoteTypes, get_type}
use rustaxa.VerifiedVotes.{
  VerifiedVotes, VotesWithWeight, TwoTPlusOneVotedBlockType, insert_unique_voter,
  set_network_t_plus_one_step,
}
use rustaxa.VerifiedVotes.HandOut.{IsThere}
use rustaxa.VerifiedVotes.Weighed.{
  Weighs, HasQuorums, voter-HasQuorums, value-HasQuorums, network-HasQuorums, block-HasQuorums,
  insert_voted_value_finds,
}
use rustaxa.VerifiedVotes.Invariant.{weigh}
use rustaxa.VerifiedVotes.Within.{IsSound, insert_voted_value-IsSound}
use rustaxa.VerifiedVotes.Store.{find_voted}
use rustaxa.VerifiedVotes.TwoTPlusOne.{get_step_votes-set_network_t_plus_one_step}
use rustaxa.VerifiedVotes.Reach.{Step-IsSound, voter}
use rustaxa.VoteManager.{
  PbftConfig, Chain, VoteManager, get_pbft_sortition_threshold, voted_block_type, note_thresholds,
  add_verified_vote,
}
use rustaxa.VoteManager.Add.{
  note_thresholds-Noted, get_pbft_two_t_plus_one_votes, Noted, nothing, raised, entered, both,
}
use rustaxa.VoteManager.Quorum.{
  Agrees, threshold, IsCached, get_pbft_two_t_plus_one_threshold, get_pbft_two_t_plus_one-IsCached,
}
use rustaxa.VoteManager.Weighed.{
  before, EntersFor, note_thresholds-EntersFor, refused, checked, known, noted,
  add_verified_vote-Adds,
}
use rustaxa.VerifiedVotes.{
  get_two_t_plus_one_voted_block, get_two_t_plus_one_voted_block_votes, VotedBlock, or_new, values,
}
use rustaxa.VerifiedVotes.Weighed.{cleanup-HasQuorums}
use rustaxa.VerifiedVotes.HandOut.{get_two_t_plus_one_voted_block_votes_lem}
use rustaxa.VoteManager.Own.{set_current_pbft_period_and_round}
use rustaxa.VoteManager.Rewards.{reset_reward_votes}
use rustaxa.VoteManager.Reach.{
  Call, added, asked, cleaned, moved, rewarded, IsCalled, fresh, then_call, IsCalled-IsSound,
  set_current_pbft_period_and_round_votes, reset_reward_votes_votes,
}
use rustaxa.Common.{total}

abbrev pub weight_of : PbftVote → ℕ
weight_of v = or_new 0 v.weight

weigh_lem : (m : Map PbftVote) → weigh m ≡ total weight_of (values m)
weigh_lem [] = refl
weigh_lem ((h, v) ∷ m) = ground (arith, weigh_lem m)

set_current_pbft_period_and_round_cache :
    (period round : ℕ) (m : VoteManager) {m' : VoteManager}
    → set_current_pbft_period_and_round period round m ≡ done m'
    → m.current_two_t_plus_one ≡ m'.current_two_t_plus_one
unfolding set_current_pbft_period_and_round
set_current_pbft_period_and_round_cache period round m h = ground arith

reset_reward_votes_cache :
    (period round step block_hash : ℕ) (m : VoteManager) {m' : VoteManager}
    → reset_reward_votes period round step block_hash m ≡ done m'
    → m.current_two_t_plus_one ≡ m'.current_two_t_plus_one
unfolding reset_reward_votes
reset_reward_votes_cache period round step block_hash m h = ground arith

module _ (config : PbftConfig) (stake : ℕ → ℕ) where
  -- 2t+1 of the stake of the period before.
  abbrev pub quorum : ℕ → ℕ
  quorum period = threshold config stake (before period) PbftVoteTypes.cert_vote

  -- All votes but proposals have the same threshold.
  voted_block_type-quorum :
      (v : PbftVote)
      → IsThere (voted_block_type v)
      → threshold config stake (before v.period) (get_type v.step) ≡ quorum v.period
  unfolding voted_block_type get_pbft_sortition_threshold
  voted_block_type-quorum v (type, e) = ground arith

  -- The part of the invariant that the stake is in.
  record IsQuorate (m : VoteManager) : Type 0 where
    pub quorums : HasQuorums quorum m.verified_votes
    pub cached : IsCached config stake m.current_two_t_plus_one

  Noted-HasQuorums :
      (v : PbftVote) (s s' : VerifiedVotes)
      → Noted v s s'
      → Weighs (quorum v.period) (find_voted v.period v.round v.step v.block_hash s)
      → HasQuorums quorum s
      → HasQuorums quorum s'
  unfolding find_voted
  Noted-HasQuorums v s s' (nothing e) enough q = rw e q
  Noted-HasQuorums v s s' (raised e) enough q = rw e (network-HasQuorums quorum v s q)
  Noted-HasQuorums v s s' (entered type e) enough q =
      rw e (block-HasQuorums quorum type v s enough q)
  Noted-HasQuorums v s s' (both type e) (voted, f, enough) q = rw e (
      block-HasQuorums quorum type v (set_network_t_plus_one_step v s)
        (
          voted,
          ground (arith, get_step_votes-set_network_t_plus_one_step v s v.period v.round v.step),
          enough,
        )
        (network-HasQuorums quorum v s q))

  note_thresholds-IsQuorate :
      (c : Chain) (v : PbftVote) (voted : VotesWithWeight) (m : VoteManager) {m' : VoteManager}
      → Agrees config stake c
      → find_voted v.period v.round v.step v.block_hash m.verified_votes ≡ some voted
      → voted.weight ≤ weigh voted.votes
      → note_thresholds c v voted m ≡ done m'
      → IsQuorate m
      → IsQuorate m'
  unfolding EntersFor
  note_thresholds-IsQuorate c v voted m {m'} a found light h i =
      let (enters, cache) = note_thresholds-EntersFor c v voted m h in
      record {
        cached = rw cache (
            get_pbft_two_t_plus_one-IsCached config stake c (before v.period) (get_type v.step) m a
              i.cached);
        quorums = elim enters [
          | inl e ↦ rw e i.quorums
          | inr (inl e) ↦ rw e (network-HasQuorums quorum v m.verified_votes i.quorums)
          | inr (inr (t, asked_for, reached, there)) ↦
              let right =
                get_pbft_two_t_plus_one_threshold config stake c (before v.period) (get_type v.step)
                  m {value = t} a i.cached asked_for in
              let same = voted_block_type-quorum v there in
              Noted-HasQuorums v m.verified_votes m'.verified_votes
                (note_thresholds-Noted c v voted m h)
                (voted, found, omega (arith, right, same, reached, light)) i.quorums
        ];
      }

  add_verified_vote-IsQuorate :
      (c : Chain) (v : PbftVote) (m : VoteManager) {m' : VoteManager} {b : Bool}
      → Agrees config stake c
      → add_verified_vote c v m ≡ done (m', b)
      → IsSound m.verified_votes
      → IsQuorate m
      → IsQuorate m'
  add_verified_vote-IsQuorate c v m a h sound i =
      let s = (insert_unique_voter v m.verified_votes).0 in
      let entered_s = voter-HasQuorums quorum v m.verified_votes i.quorums in
      elim (add_verified_vote-Adds c v m h) [
        | refused e cache ↦ record { quorums = rw e i.quorums; cached = rw cache i.cached }
        | checked e cache ↦ record { quorums = rw e entered_s; cached = rw cache i.cached }
        | known e cache ↦ record {
          quorums = value-HasQuorums quorum v s e entered_s;
          cached = rw cache i.cached;
        }
        | noted vv voted m0 e votes cache rest ↦
            let found = insert_voted_value_finds v s e in
            let kept = insert_voted_value-IsSound v s e (Step-IsSound (voter v) sound) in
            let weighed = kept.filed.weighed v.period v.round v.step v.block_hash voted found in
            note_thresholds-IsQuorate c v voted m0 a (rw votes found) (omega (arith, weighed)) rest
              (record {
                quorums = rw votes (value-HasQuorums quorum v s e entered_s);
                cached = rw cache i.cached;
              })
      ]

  -- What a call reads of the chain agrees with the stake.
  abbrev pub IsAgreed : {m m' : VoteManager} → Call m m' → Type 0
  IsAgreed (added c v b e) = Agrees config stake c
  IsAgreed (asked c period type) = Agrees config stake c
  IsAgreed (cleaned period) = Unit {0}
  IsAgreed (moved period round e) = Unit {0}
  IsAgreed (rewarded period round step block_hash e) = Unit {0}

  -- The states that calls lead to from one without votes and with an empty cache, where each call
  -- finds the configuration and the stake, or that a period is ahead of the final chain.
  pub data IsSteady : VoteManager → Type 0 where
    unused : (m : VoteManager) → m.verified_votes ≡ [] → m.current_two_t_plus_one ≡ [] → IsSteady m
    then_agreed :
        {m m' : VoteManager} → IsSteady m → (call : Call m m') → IsAgreed call → IsSteady m'

  pub IsSteady-IsCalled : {m : VoteManager} → IsSteady m → IsCalled m
  IsSteady-IsCalled (unused m votes cache) = fresh m votes
  IsSteady-IsCalled (then_agreed r call a) = then_call (IsSteady-IsCalled r) call

  unused-IsQuorate :
      (m : VoteManager) → m.verified_votes ≡ [] → m.current_two_t_plus_one ≡ [] → IsQuorate m
  unfolding get_two_t_plus_one_voted_block lookup
  unused-IsQuorate m votes cache = record {
    quorums = λ period round type b e. absurd (ground arith);
    cached = λ type period value e. absurd (ground arith);
  }

  Call-IsQuorate :
      {m m' : VoteManager} (call : Call m m')
      → IsAgreed call
      → IsSound m.verified_votes
      → IsQuorate m
      → IsQuorate m'
  Call-IsQuorate {m} (added c v b e) a sound i = add_verified_vote-IsQuorate c v m a e sound i
  Call-IsQuorate {m} (asked c period type) a sound i = record {
    quorums = rw (get_pbft_two_t_plus_one_votes c period type m) i.quorums;
    cached = get_pbft_two_t_plus_one-IsCached config stake c period type m a i.cached;
  }
  Call-IsQuorate {m} (cleaned period) a sound i = record {
    quorums = cleanup-HasQuorums quorum period m.verified_votes sound.sorted i.quorums;
    cached = i.cached;
  }
  Call-IsQuorate {m} (moved period round e) a sound i = record {
    quorums = rw (← set_current_pbft_period_and_round_votes period round m e) i.quorums;
    cached = rw (← set_current_pbft_period_and_round_cache period round m e) i.cached;
  }
  Call-IsQuorate {m} (rewarded period round step block_hash e) a sound i = record {
    quorums = rw (← reset_reward_votes_votes period round step block_hash m e) i.quorums;
    cached = rw (← reset_reward_votes_cache period round step block_hash m e) i.cached;
  }

  IsSteady-IsQuorate : {m : VoteManager} → IsSteady m → IsQuorate m
  IsSteady-IsQuorate (unused m votes cache) = unused-IsQuorate m votes cache
  IsSteady-IsQuorate (then_agreed r call a) =
      Call-IsQuorate call a (IsCalled-IsSound (IsSteady-IsCalled r)) (IsSteady-IsQuorate r)

  -- In a state that calls lead to from one without votes and with an empty cache, where each call finds
  -- the configuration and the stake, or that a period is ahead of the final chain: the votes that
  -- getTwoTPlusOneVotedBlockVotes hands out for a 2t+1 block have together at least the weight of 2t+1
  -- for the stake of the period before.
  pub IsSteady-quorum :
      (period round : ℕ) (type : TwoTPlusOneVotedBlockType) {m : VoteManager} {b : VotedBlock}
      {vs : List PbftVote}
      → IsSteady m
      → get_two_t_plus_one_voted_block period round type m.verified_votes ≡ some b
      → get_two_t_plus_one_voted_block_votes period round type m.verified_votes ≡ done vs
      → quorum period ≤ total weight_of vs
  IsSteady-quorum period round type {m} {b} {vs} r e h =
      let sound = IsCalled-IsSound (IsSteady-IsCalled r) in
      let (voted, f, enough) = (IsSteady-IsQuorate r).quorums period round type b e in
      let call =
        get_two_t_plus_one_voted_block_votes_lem period round type m.verified_votes sound.handed in
      let same : values voted.votes ≡ vs = ground arith in
      subst (λ x. quorum period ≤ total weight_of x) same
        (omega (arith, weigh_lem voted.votes, enough))
