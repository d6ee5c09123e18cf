-- ===== src/PbftManager/Start.antt =====
-- PbftManager: initialState and the constructor, with which a node starts from its database.
use rustaxa.Common.{
  ℕ, ◌+◌, ◌%◌, true, false, not, ◌&&◌, Option, none, some, [], ltb, leb, ◌==◌, if◌then◌else◌, u64,
}
use rustaxa.Common.Outcome.{Outcome, done, deref, assert, ◌>>=◌, ◌>>◌}
use rustaxa.PbftBlock.{PbftBlock}
use rustaxa.ProposedBlocks.{push_proposed_pbft_block, load_blocks}
use rustaxa.VoteManager.Own.{set_current_pbft_period_and_round}
use rustaxa.PbftManager.{
  World, PbftManager, Machine, PbftDb, Lambdas, PbftStates, value_proposal_state, finish_state,
  finish_polling_state, get_pbft_period, is_on_cacti_hardfork,
}
use rustaxa.PbftManager.Lambda.{get_round_lambda}
use rustaxa.PbftManager.Steps.{set_pbft_step}
use rustaxa.PbftManager.Advance.{update_wallets_eligibility}
use rustaxa.PbftManager.Push.{is_pillar_block_period, process_pillar_block}
use rustaxa.PbftManager.Turn.{in_state}

-- The state and the step in which a node starts again.
unfoldable pub initial_step : ℕ → ℕ → PbftStates × ℕ
initial_step round step =
    if round == 1 && step == 1
    then (value_proposal_state, step)
    else if ltb step 4
    then (finish_state, 4)
    else if step % 2 == 0
    then (finish_state, step)
    else (finish_polling_state, step)

-- The lambdas of a node that starts again; 1 is a value that was never saved.
unfoldable pub initial_lambdas : World → ℕ → ℕ → PbftDb → Lambdas → Outcome Lambdas
initial_lambdas w chain_size round db l =
    if is_on_cacti_hardfork chain_size w.config
    then (do
      assert (not (leb 1 chain_size && db.lambda == 1))
      let loaded : Lambdas = record l {
        rounds_count_dynamic_lambda = db.rounds_count_dynamic_lambda;
        dynamic_lambda = if leb 1 chain_size then db.lambda else w.config.cacti_hf.lambda_max;
      }
      done (record loaded {
        current_round_lambda = get_round_lambda w.config.cacti_hf round loaded;
      }))
    else done (record l { current_round_lambda = w.config.lambda_ms })

-- The cert voted block of the database, if it is of this period and round.
unfoldable pub initial_cert_voted : ℕ → ℕ → Option (ℕ × PbftBlock) → Option PbftBlock
initial_cert_voted period round none = none
initial_cert_voted period round (some (cert_round, b)) =
    if period == b.period && round == cert_round then some b else none

abbrev pub push_cert_voted : Option (ℕ × PbftBlock) → PbftManager → PbftManager
push_cert_voted none s = s
push_cert_voted (some (_, b)) s = record s {
  proposed_blocks = (push_proposed_pbft_block b true s.proposed_blocks).0;
}

-- A manager that is constructed anew, with the database and the other components of the one before.
unfoldable pub new_pbft_manager : World → PbftManager → PbftManager
new_pbft_manager w s = record s {
  machine = record {
    state = value_proposal_state;
    round = 1;
    step = 1;
    cert_voted_block_for_round = none;
    next_step_time_ms = 0;
    current_round_start = 0;
    second_finish_step_start = 0;
    executed_pbft_block = false;
    already_next_voted_value = false;
    already_next_voted_null_block_hash = false;
    go_finish_state = false;
    loop_back_finish_state = false;
  };
  lambdas = record {
    rounds_count_dynamic_lambda = 0;
    dynamic_lambda = w.config.cacti_hf.lambda_max;
    current_round_lambda = 0;
  };
  last_placed_pillar_vote_period = 0;
  anchor_dag_block_order_cache = [];
  eligible_wallets = record { period = 0; wallets = s.eligible_wallets.wallets };
}

-- The place in which a node starts again.
abbrev pub restored : World → PbftManager → Machine → Machine
restored w s m = record m {
  round = s.db.round;
  cert_voted_block_for_round =
      initial_cert_voted (get_pbft_period s) s.db.round s.db.cert_voted_block_in_round;
  executed_pbft_block = s.db.executed_block;
  already_next_voted_value = s.db.next_voted_soft_value;
  already_next_voted_null_block_hash = s.db.next_voted_null_block_hash;
  current_round_start = w.now;
  second_finish_step_start = w.now;
  next_step_time_ms = 0;
}

abbrev pub reload_blocks : PbftManager → PbftManager
reload_blocks s = record s {
  proposed_blocks =
      load_blocks s.proposed_blocks.db (record { proposed_blocks = []; db = s.proposed_blocks.db });
}

-- initialState. The wait for the final chain is taken to be over. Only one of the start times is set
-- in finish state; the other one is not read there.
unfoldable pub initial_state : World → PbftManager → Outcome PbftManager
unfolding initial_lambdas initial_cert_voted
initial_state w s =
    let period = get_pbft_period s in
    let (state, step) = initial_step s.db.round s.db.step in
    do
      l ← initial_lambdas w s.pbft_chain.size s.db.round s.db s.lambdas
      m ← set_current_pbft_period_and_round period s.db.round s.vote_mgr
      let stepped = set_pbft_step w step (in_state state (record s { lambdas = l }))
      let loaded = push_cert_voted s.db.cert_voted_block_in_round (reload_blocks stepped)
      done (record loaded { vote_mgr = m; machine = restored w s stepped.machine })

-- A pillar block that was not made before the node stopped is made now.
unfoldable pub restart_pillar : World → PbftManager → Outcome PbftManager
restart_pillar w s =
    let chain_size = s.pbft_chain.size in
    if is_pillar_block_period chain_size w.config.ficus_hf
    then (do
      pillar ← deref w.current_pillar_block
      if chain_size == (pillar.period + w.config.ficus_hf.pillar_blocks_interval) % u64
          then process_pillar_block w chain_size s
          else done s)
    else done s

-- The constructor, after the blocks that the final chain has not executed.
unfoldable pub restart : World → PbftManager → Outcome PbftManager
unfolding new_pbft_manager initial_state restart_pillar
restart w s = do
  s' ← initial_state w (new_pbft_manager w s)
  wallets ← update_wallets_eligibility w s'.pbft_chain.size s'.eligible_wallets
  restart_pillar w (record s' { eligible_wallets = wallets })
