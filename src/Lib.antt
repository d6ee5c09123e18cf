-- ===== src/Lib.antt =====
-- A node of the Taraxa network: the rounds and steps of PBFT consensus, its votes and those of the
-- pillar chain, proposed blocks, the head of the chain, synced periods, rewards, and the thread pool
-- that processes packets.
--
-- The program (paths from the repository's root):
-- - libraries/core_libs/consensus/src/pbft/pbft_manager.cpp takes the node through the states of a
--   round: it proposes a block, votes for the leader of the proposed blocks (soft), for a block with
--   2t+1 soft votes (cert) and for what the next round starts with (next), pushes a block with 2t+1
--   cert votes and moves to the next period, or to a later round with 2t+1 next votes. It keeps the
--   proposed blocks in proposed_blocks.cpp and the head of the chain in pbft_chain.cpp, and takes up
--   its round from the database when it starts again.
-- - libraries/core_libs/consensus/src/vote_manager holds the votes that a node has verified.
--   VerifiedVotes (verified_votes.cpp) files them by period, round, step and block and keeps, for
--   each voter of a step, the votes that it may have. VoteManager (vote_manager.cpp) decides which
--   votes go in, notes when a block has 2t+1 votes, finds the next round, and checks and resets the
--   votes that a block rewards. The PBFT manager and the packet handlers call it.
-- - libraries/core_libs/consensus/src/pillar_chain/pillar_votes.cpp files the votes for pillar
--   blocks, one for each voter and period, and selects those that finalize a block.
-- - libraries/core_libs/consensus/src/pbft/period_data_queue.cpp queues the periods that are synced
--   from peers until the PBFT manager takes them.
-- - libraries/core_libs/consensus/src/rewards/block_stats.cpp counts what the validators of a block are
--   rewarded for.
-- - libraries/core_libs/consensus/src/transaction/gas_pricer.cpp suggests a gas price from the lowest
--   prices of the last blocks.
-- - libraries/core_libs/network/src/threadpool processes the packets of other nodes. A packet waits
--   in the queue of its priority (packets_queue.cpp) until the mask of blocked packets
--   (packets_blocking_mask.cpp) lets it through and a worker is free (priority_queue.cpp).
-- - libraries/types/vote and libraries/types/pbft_block hold the votes and blocks.
--
-- The files:
-- - Common: names of the library, tests on numbers, lists, results (`Outcome`) and maps.
--   `fault` is a failed assertion or an access of an empty optional, with which the program stops.
--   A map is a list of pairs that `put` keeps in the order of the keys, as `std::map` does.
-- - Vote, PbftBlock, DagBlock, Transaction: the fields that the components read; `get_type` is
--   VrfPbftMsg::getType.
-- - VerifiedVotes: one function for each method of VerifiedVotes, in snake_case. The nested maps
--   are its state. Its child modules are named for what they prove; VerifiedVotes/Reach has the
--   calls as steps, where a 2t+1 block is entered only once its votes are there (this is not checked
--   by insertTwoTPlusOneVotedBlock, but addVerifiedVote sees to it), VerifiedVotes/Within the parts of the invariant, VerifiedVotes/Rounds the order
--   of the rounds.
-- - VoteManager: addVerifiedVote in the parts that it is written in (`add_unique_vote`,
--   `note_thresholds`, `save_two_t_plus_one_votes`), isUniqueVote and the 2t+1 threshold.
--   VoteManager/Rounds has determineNewRound, VoteManager/Rewards the reward votes, VoteManager/Own
--   what the PBFT manager calls to read proposals and to move to another round. VoteManager/Reach has
--   the calls as steps, and that they take the verified votes through steps of VerifiedVotes;
--   VoteManager/Quorum, Weighed and Steady are about the weight behind 2t+1 blocks.
-- - ProposedBlocks: the methods of ProposedBlocks, over memory and the column of the database.
--   ProposedBlocks/Restore has the calls as steps, ProposedBlocks/Reload the restart.
-- - PbftChain: the methods of PbftChain; `Head` is the JSON text of the head. PbftChain/Saved has the
--   chains that come from pushing blocks.
-- - PbftManager: the state, with what the code asks of other components as the record `World`. Its
--   children: Lambda (adjustDynamicLambda, the deadline), Validate (validatePbftBlock,
--   getValidPbftProposedBlock), Leader (identifyLeaderBlock), Voting (genAndPlaceVote), Propose
--   (proposePbftBlock, generatePbftBlock), Steps (proposeBlock_, identifyBlock_, certifyBlock_,
--   setPbftStep), Finishing (firstFinish_, secondFinish_), Advance (resetPbftConsensus, advancePeriod,
--   advanceRound), Push (pushPbftBlock_ and its callers), Turn (run and stateOperations_; one call
--   of `turn` is one pass of the loop) and Start (initialState and the constructor).
--   PbftManager/Turn/Safe has the invariant, PbftManager/Turn/Reach the steps of the machine.
-- - PillarVotes: the methods of PillarVotes. PillarVotes/Unique has the invariant,
--   PillarVotes/Reach the calls as steps, PillarVotes/Select the votes above the threshold.
-- - PeriodDataQueue: the methods of PeriodDataQueue. PeriodDataQueue/Certified reads the queue as
--   blocks with their cert votes, PeriodDataQueue/Consecutive has the calls as steps.
-- - BlockStats: the methods of BlockStats. BlockStats/Balance and BlockStats/Process are about
--   its sums, BlockStats/Spent about the fees that are left.
-- - GasPricer: the methods of GasPricer, with its buffer as a list of at most `capacity` prices.
-- - ThreadPool/Packet, Mask, Queue, Blocking and Priority: packet types, PacketsBlockingMask,
--   PacketsQueue, updateBlockingDependencies, and PriorityQueue. `take_packet` is the part of a
--   worker's loop that runs under the lock (tarcap_thread_pool.cpp). ThreadPool/Priority/Workers has
--   the calls of the pool as steps over the packets that are processed at the time, and
--   ThreadPool/Blocking/Update the table of the packet types that a type excludes.
--
-- What the model assumes:
-- - Hashes and addresses are numbers, and kNullBlockHash is 0. A vote is not changed once it is
--   shared, and its weight is none until it is calculated.
-- - Unordered maps have some order, here that of the keys. No theorem depends on it, except where
--   a list of votes is handed out.
-- - Each call holds its lock to the end, so calls follow each other. `addVerifiedVote` makes its
--   calls of VerifiedVotes in sequence; an interleaving of two calls is not modelled.
-- - Sums of 64 bits wrap around where the program's do. Periods are such numbers; rounds and steps have
--   32 bits, and so has the period of the reward votes, whose member is declared as a round.
-- - What a packet's bytes say of its DAG block is a field, none if the number of items is wrong.
--   Whether the queue of synced periods is empty is a parameter of the calls that ask.
-- - updateDependenciesFinish takes the lock only for its change of the mask, and counts workers
--   without it; here a call of it is one step.
-- - The final chain, the DAG, the pillar chain, the clock and the crypto of the PBFT manager are the
--   parameter `World`, which may be another one in each step. A vote's hash depends on block, period,
--   round, step and wallet, and its weight on hash, stakes and threshold. Waiting for the final
--   chain is taken to be over. The network may change votes and proposed blocks in whatever
--   way between two turns. A node stops between two turns, not within one. Its first
--   start is from a database without own votes and without a cert voted block.
-- - The configuration has intervals and a number of DAG blocks above 0. A hash names one block, where a
--   theorem says so.
-- - Effects on the database and on the slashing manager are collected in a list. The stake from the
--   final chain and the size of the PBFT chain are the parameter `Chain`.
-- - Loops are structural recursion over lists. The walk of the constructor of PbftChain back to a block
--   with an anchor has fuel; the number of blocks in the database is enough, since each step goes to
--   an earlier block, and a walk that runs out of it is a fault.
--
-- Not modelled: signatures, VRF and RLP; what is sent to other nodes, threads and sleeping; the
-- validation of votes; the queue of synced blocks as the PBFT manager reads it (processPeriodData and
-- the checks of its votes: any block may come from it); reorderTransactions; what pushPbftBlock_ does
-- in the final chain, the DAG, the transactions and the sortition parameters; the components other
-- than these, such as the DAG, transactions, the final chain and the packet handlers.
pub mod Common
pub mod Vote
pub mod PbftBlock
pub mod DagBlock
pub mod Transaction
pub mod VerifiedVotes
pub mod VoteManager
pub mod PillarVotes
pub mod PeriodDataQueue
pub mod BlockStats
pub mod ProposedBlocks
pub mod PbftChain
pub mod PbftManager
pub mod GasPricer
pub mod ThreadPool
