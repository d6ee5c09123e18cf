-- ===== src/PeriodDataQueue/Examples.antt =====
-- Tests of PeriodDataQueue, and its theorems at concrete queues.
use rustaxa.Common.{none, ℕ, ◌+◌, ◌≡◌, refl, inl, true, List, [], ◌∷◌, ◌++◌, arith}
use rustaxa.Vote.{PbftVote}
use rustaxa.VerifiedVotes.Samples.{vote_a, vote_b}
use rustaxa.PeriodDataQueue.{
  PeriodData, PeriodDataQueue, size, empty, clear, next_period, push, pop, last_pbft_block,
  drop_old, clean_old_data,
}
use rustaxa.PeriodDataQueue.Certified.{certify, certified, pop-certified, push-certified}
use rustaxa.PeriodDataQueue.Consecutive.{
  pushed, Reach, start, next, IsConsecutive, Reach-IsConsecutive,
}

program : Unit {0}
unfolding size empty clear next_period push pop last_pbft_block drop_old clean_old_data
program = tt

abbrev data_of : ℕ → List PbftVote → PeriodData
data_of period votes = record {
  pbft_blk = record {
    block_hash = period + 100;
    prev_block_hash = period + 99;
    pivot_dag_block_hash = 1;
    period = period;
    order_hash = 0;
    final_chain_hash = 0;
    reward_votes = [];
    extra_data = none;
  };
  previous_block_cert_votes = votes;
}

abbrev new_queue : PeriodDataQueue
new_queue = record { queue = []; period = 0; last_block_cert_votes = [] }

abbrev queue_6 : PeriodDataQueue
queue_6 = record { queue = (data_of 6 [], 1) ∷ []; period = 6; last_block_cert_votes = vote_a ∷ [] }

abbrev queue_67 : PeriodDataQueue
queue_67 = record {
  queue = (data_of 6 [], 1) ∷ (data_of 7 (vote_a ∷ []), 1) ∷ [];
  period = 7;
  last_block_cert_votes = vote_b ∷ [];
}

pushed_6 : push (data_of 6 []) 1 5 (vote_a ∷ []) new_queue ≡ (queue_6, true)
unfolding program
pushed_6 = refl

-- A gap of periods is let in behind another block.
pushed_gap : (push (data_of 60 []) 1 5 [] queue_6).1 ≡ true
unfolding program
pushed_gap = refl

-- A queue that is emptied as old keeps its period.
cleaned_all :
    clean_old_data 7 queue_6
    ≡ record { queue = []; period = 6; last_block_cert_votes = vote_a ∷ [] }
unfolding program
cleaned_all = refl

pop-certified_example :
    certified queue_67
    ≡ (data_of 6 [], vote_a ∷ [], 1)
      ∷ certified (record queue_67 { queue = (data_of 7 (vote_a ∷ []), 1) ∷ [] })
unfolding program
pop-certified_example = pop-certified queue_67

push-certified_example :
    certified (push (data_of 7 (vote_a ∷ [])) 1 5 (vote_b ∷ []) queue_6).0
    ≡ certify (vote_a ∷ []) ((data_of 6 [], 1) ∷ [])
      ++ (data_of 7 (vote_a ∷ []), vote_b ∷ [], 1) ∷ []
unfolding program
push-certified_example = push-certified (data_of 7 (vote_a ∷ [])) 1 5 (vote_b ∷ []) queue_6 refl

abbrev reach_6 : Reach queue_6
unfolding program
reach_6 = next (start new_queue) (pushed (data_of 6 []) 1 5 (vote_a ∷ []) (inl refl) (omega arith))

Reach-IsConsecutive_example : IsConsecutive queue_6
Reach-IsConsecutive_example = Reach-IsConsecutive reach_6
