-- ===== src/VerifiedVotes.antt =====
-- libraries/core_libs/consensus: VerifiedVotes, the votes that passed validation, by period, round,
-- step and voted block. A method takes the state (`verified_votes_`) last and returns the new one.
pub mod Store
pub mod Insert
pub mod Invariant
pub mod Voters
pub mod TwoTPlusOne
pub mod Size
pub mod Cleanup
pub mod Keep
pub mod HandOut
pub mod Within
pub mod Reach
pub mod Listed
pub mod Weighed
pub mod Rounds
pub mod Samples
mod Examples
use rustaxa.Common.{
  ℕ, zero, suc, ◌+◌, ◌-◌, ◌%◌, ◌^◌, ◌≡◌, Bool, true, false, not, ◌&&◌, ◌||◌, Option, none, some,
  List, [], ◌∷◌, ◌++◌, map, ◌==◌, ltb, if◌then◌else◌, u64, length,
}
use rustaxa.Common.Outcome.{Outcome, done, fault, ◌>>=◌, deref}
use rustaxa.Common.Map.{Map, lookup, contains, put, emplace}
use rustaxa.Common.Map.Sorted.{drop_below}
use rustaxa.Vote.{PbftVote, null_block_hash, is_next_vote, is_odd_step}

pub data TwoTPlusOneVotedBlockType : Type 0 where
  soft_voted_block cert_voted_block next_voted_block next_voted_null_block :
      TwoTPlusOneVotedBlockType

-- The value of the enumerator, under which the map of voted blocks has its entry.
unfoldable pub type_code : TwoTPlusOneVotedBlockType → ℕ
type_code TwoTPlusOneVotedBlockType.soft_voted_block = 0
type_code TwoTPlusOneVotedBlockType.cert_voted_block = 1
type_code TwoTPlusOneVotedBlockType.next_voted_block = 2
type_code TwoTPlusOneVotedBlockType.next_voted_null_block = 3

pub record VotedBlock : Type 0 where
  pub hash : ℕ
  pub step : ℕ

-- `votes` has the hash of a vote for its key.
pub record VotesWithWeight : Type 0 where
  pub weight : ℕ
  pub votes : Map PbftVote

-- `unique_voters` has a voter's address for its key; the second vote may be a null pointer.
pub record StepVotes : Type 0 where
  pub votes : Map VotesWithWeight
  pub unique_voters : Map (PbftVote × Option PbftVote)

pub record RoundVerifiedVotes : Type 0 where
  pub two_t_plus_one_voted_blocks : Map VotedBlock
  pub step_votes : Map StepVotes
  pub network_t_plus_one_step : ℕ

abbrev pub VerifiedVotes : Type 0
VerifiedVotes = Map (Map RoundVerifiedVotes)

abbrev pub no_votes : VotesWithWeight
no_votes = record { weight = 0; votes = [] }

abbrev pub new_step : StepVotes
new_step = record { votes = []; unique_voters = [] }

abbrev pub new_round : RoundVerifiedVotes
new_round = record {
  two_t_plus_one_voted_blocks = [];
  step_votes = [];
  network_t_plus_one_step = 0;
}

-- `m.insert({k, d}).first->second`: the entry, or a new one.
abbrev pub or_new {ℓ} : {A : Type ℓ} → A → Option A → A
or_new d none = d
or_new d (some a) = a

-- Reading.

unfoldable pub get_period_votes : ℕ → VerifiedVotes → Option (Map RoundVerifiedVotes)
unfolding lookup
get_period_votes period s = lookup period s

unfoldable pub get_round_votes : ℕ → ℕ → VerifiedVotes → Option RoundVerifiedVotes
get_round_votes period round s = elim (lookup period s) [
  | none ↦ none
  | some rounds ↦ lookup round rounds
]

unfoldable pub get_step_votes : ℕ → ℕ → ℕ → VerifiedVotes → Option StepVotes
get_step_votes period round step s = elim (lookup period s) [
  | none ↦ none
  | some rounds ↦ elim (lookup round rounds) [ none ↦ none | some r ↦ lookup step r.step_votes ]
]

unfoldable pub get_two_t_plus_one_voted_block :
    ℕ → ℕ → TwoTPlusOneVotedBlockType → VerifiedVotes → Option VotedBlock
get_two_t_plus_one_voted_block period round type s = elim (lookup period s) [
  | none ↦ none
  | some rounds ↦ elim (lookup round rounds) [
    | none ↦ none
    | some r ↦ lookup (type_code type) r.two_t_plus_one_voted_blocks
  ]
]

-- The values of a map, in its order.
abbrev pub values {ℓ} : {V : Type ℓ} → Map V → List V
values [] = []
values ((_, v) ∷ m) = v ∷ values m

-- The `assert(false)` is for a 2t+1 block with no votes in its step.
unfoldable pub get_two_t_plus_one_voted_block_votes :
    ℕ → ℕ → TwoTPlusOneVotedBlockType → VerifiedVotes → Outcome (List PbftVote)
get_two_t_plus_one_voted_block_votes period round type s =
    elim (get_two_t_plus_one_voted_block period round type s) [
      | none ↦ done []
      | some voted ↦ elim (get_step_votes period round voted.step s) [
        | none ↦ done []
        | some step_votes ↦ elim (lookup voted.hash step_votes.votes) [
          | none ↦ fault
          | some found ↦ done (values found.votes)
        ]
      ]
    ]

-- Writing.

unfoldable pub set_network_t_plus_one_step : PbftVote → VerifiedVotes → VerifiedVotes
set_network_t_plus_one_step v s = elim (lookup v.period s) [
  | none ↦ s
  | some rounds ↦ elim (lookup v.round rounds) [
    | none ↦ s
    | some r ↦ put v.period (put v.round (record r { network_t_plus_one_step = v.step }) rounds) s
  ]
]

-- An entry of the type that is there already stays.
unfoldable pub insert_two_t_plus_one_voted_block :
    TwoTPlusOneVotedBlockType → PbftVote → VerifiedVotes → VerifiedVotes
insert_two_t_plus_one_voted_block type v s = elim (lookup v.period s) [
  | none ↦ s
  | some rounds ↦ elim (lookup v.round rounds) [
    | none ↦ s
    | some r ↦
        let block : VotedBlock = record { hash = v.block_hash; step = v.step } in
        let blocks = emplace (type_code type) block r.two_t_plus_one_voted_blocks in
        put v.period (put v.round (record r { two_t_plus_one_voted_blocks = blocks }) rounds) s
  ]
]

-- The entry of the step, with the levels above it, replaced.
unfoldable pub store_step : PbftVote → StepVotes → VerifiedVotes → VerifiedVotes
store_step v step s =
    let rounds = or_new [] (lookup v.period s) in
    let r = or_new new_round (lookup v.round rounds) in
    put v.period (put v.round (record r { step_votes = put v.step step r.step_votes }) rounds) s

-- The vote that the caller is told of, for a voter with these votes already.
unfoldable pub conflicting_vote : PbftVote → PbftVote → Option PbftVote → PbftVote
conflicting_vote v first none = first
conflicting_vote v first (some second) = if v.hash == second.hash then first else second

-- Of two next votes of a voter, one is for the null block.
unfoldable pub one_is_null : PbftVote → PbftVote → Bool
one_is_null first v =
    (first.block_hash == null_block_hash && not (v.block_hash == null_block_hash))
    || (not (first.block_hash == null_block_hash) && v.block_hash == null_block_hash)

-- What becomes of a voter's entry: the new entry if it changes, and the conflicting vote.
unfoldable pub check_voter :
    PbftVote → PbftVote → Option PbftVote → Option (PbftVote × Option PbftVote) × Option PbftVote
check_voter v first none =
    if first.hash == v.hash
    then (none, none)
    else if is_next_vote v && is_odd_step v && one_is_null first v
    then (some (first, some v), none)
    else (none, some (conflicting_vote v first none))
check_voter v first (some second) =
    if first.hash == v.hash
    then (none, none)
    else if is_next_vote v && is_odd_step v && second.hash == v.hash
    then (none, none)
    else (none, some (conflicting_vote v first (some second)))

unfoldable pub insert_unique_voter : PbftVote → VerifiedVotes → VerifiedVotes × Option PbftVote
insert_unique_voter v s = elim (get_step_votes v.period v.round v.step s) [
  | none ↦ (s, none)
  | some step ↦
      let enter = λ (e : PbftVote × Option PbftVote).
        store_step v (record step { unique_voters = put v.voter e step.unique_voters }) s in
      elim (lookup v.voter step.unique_voters) [
        | none ↦ (enter (v, none), none)
        | some (first, second) ↦
            let (entry, conflict) = check_voter v first second in
            elim entry [ none ↦ (s, conflict) | some e ↦ (enter e, conflict) ]
      ]
]

-- The entry of the voted block, with the levels above it, replaced.
unfoldable pub store_voted_value : PbftVote → VotesWithWeight → VerifiedVotes → VerifiedVotes
unfolding store_step
store_voted_value v voted s =
    let step = or_new new_step (get_step_votes v.period v.round v.step s) in
    store_step v (record step { votes = put v.block_hash voted step.votes }) s

-- The voted value of a vote, or an empty one.
unfoldable pub voted_value : PbftVote → VerifiedVotes → VotesWithWeight
voted_value v s =
    let step = or_new new_step (get_step_votes v.period v.round v.step s) in
    or_new no_votes (lookup v.block_hash step.votes)

-- The levels that are missing are inserted also where the vote is there already.
unfoldable pub insert_voted_value :
    PbftVote → VerifiedVotes → Outcome (VerifiedVotes × Option VotesWithWeight)
insert_voted_value v s =
    let voted = voted_value v s in
    if contains v.hash voted.votes then done (store_voted_value v voted s, none) else do
      w ← deref v.weight
      let voted' : VotesWithWeight = record {
        weight = (voted.weight + w) % u64;
        votes = put v.hash v voted.votes;
      }
      done (store_voted_value v voted' s, some voted')

unfoldable pub cleanup_votes_by_period : ℕ → VerifiedVotes → VerifiedVotes
cleanup_votes_by_period period s = drop_below period s

-- Counting. `std::accumulate` starts from the `int` 0, so a step's count is cut to 32 bits after
-- each voted value, and is extended by its sign when it is added to the `uint64_t`.

abbrev pub int_mod : ℕ
int_mod = 2 ^ 32

unfoldable pub sign_extend : ℕ → ℕ
sign_extend n = if ltb n (2 ^ 31) then n else n + (u64 - int_mod)

unfoldable pub count_voted_values : ℕ → Map VotesWithWeight → ℕ
count_voted_values acc [] = acc
count_voted_values acc ((_, voted) ∷ m) =
    count_voted_values ((sign_extend acc + length voted.votes) % u64 % int_mod) m

unfoldable pub count_steps : ℕ → Map StepVotes → ℕ
count_steps n [] = n
count_steps n ((_, step) ∷ m) =
    count_steps ((n + sign_extend (count_voted_values 0 step.votes)) % u64) m

unfoldable pub count_rounds : ℕ → Map RoundVerifiedVotes → ℕ
count_rounds n [] = n
count_rounds n ((_, r) ∷ m) = count_rounds (count_steps n r.step_votes) m

unfoldable pub count_periods : ℕ → VerifiedVotes → ℕ
count_periods n [] = n
count_periods n ((_, rounds) ∷ m) = count_periods (count_rounds n rounds) m

unfoldable pub size : VerifiedVotes → ℕ
size s = count_periods 0 s

-- `votes()`: the five nested loops.

abbrev pub concat_map {ℓ} : {V : Type ℓ} → (V → List PbftVote) → Map V → List PbftVote
concat_map f [] = []
concat_map f ((_, v) ∷ m) = f v ++ concat_map f m

unfoldable pub votes : VerifiedVotes → List PbftVote
votes = concat_map (
    concat_map
      λ r. concat_map (λ step. concat_map (λ voted. values voted.votes) step.votes) r.step_votes)
