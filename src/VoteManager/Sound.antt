-- ===== src/VoteManager/Sound.antt =====
-- VoteManager::addVerifiedVote: the verified votes after a call.
use rustaxa.VerifiedVotes.Keep.{find_voted-insert_unique_voter}
use rustaxa.VerifiedVotes.TwoTPlusOne.{
  get_step_votes-insert_two_t_plus_one_voted_block, get_step_votes-set_network_t_plus_one_step,
}
use rustaxa.VerifiedVotes.HandOut.{IsThere}
use rustaxa.VerifiedVotes.Store.{find_voted-store_voted_value, find_vote, find_voted}
use rustaxa.Common.{ℕ, ◌≡◌, refl, ◌∙◌, Bool, ◌&&◌, none, some, arith, if◌then◌else◌, Option-cases}
use rustaxa.Common.Outcome.{done}
use rustaxa.Vote.{PbftVote}
use rustaxa.VerifiedVotes.{
  voted_value, set_network_t_plus_one_step, insert_unique_voter, get_step_votes, insert_voted_value,
  VerifiedVotes, VotesWithWeight,
}
use rustaxa.VerifiedVotes.Reach.{Step-IsSound, voter, value, network, block}
use rustaxa.VerifiedVotes.Within.{IsSound}
use rustaxa.VerifiedVotes.Insert.{
  voted_value_lem, Inserted, insert_voted_value-Inserted, find_vote-insert_voted_value,
  insert_voted_value_result, at_vote,
}
use rustaxa.VoteManager.{Chain, VoteManager, add_verified_vote}
use rustaxa.VoteManager.Add.{
  add_verified_vote-AddedVote, Noted, nothing, raised, entered, both, refused, checked, known,
  stored,
}

pub Noted-steps :
    (v : PbftVote) (s s' : VerifiedVotes)
    → Noted v s s'
    → (period round step : ℕ)
    → get_step_votes period round step s' ≡ get_step_votes period round step s
Noted-steps v s s' (nothing e) period round step = rw e
Noted-steps v s s' (raised e) period round step =
    rw e (get_step_votes-set_network_t_plus_one_step v s period round step)
Noted-steps v s s' (entered type e) period round step =
    rw e (get_step_votes-insert_two_t_plus_one_voted_block type v s period round step)
Noted-steps v s s' (both type e) period round step = rw e (
    get_step_votes-insert_two_t_plus_one_voted_block type v (set_network_t_plus_one_step v s) period
      round step
    ∙ get_step_votes-set_network_t_plus_one_step v s period round step)

pub network-IsThere :
    (v : PbftVote) (s : VerifiedVotes)
    → IsThere (find_voted v.period v.round v.step v.block_hash s)
    → IsThere (find_voted v.period v.round v.step v.block_hash (set_network_t_plus_one_step v s))
unfolding find_voted
network-IsThere v s (voted, e) =
    (voted, ground (arith, get_step_votes-set_network_t_plus_one_step v s v.period v.round v.step))

Noted-IsSound :
    (v : PbftVote) (s s' : VerifiedVotes)
    → Noted v s s'
    → IsThere (find_voted v.period v.round v.step v.block_hash s)
    → IsSound s
    → IsSound s'
Noted-IsSound v s s' (nothing e) there i = rw e i
Noted-IsSound v s s' (raised e) there i = rw e (Step-IsSound (network v) i)
Noted-IsSound v s s' (entered type e) there i = rw e (Step-IsSound (block type v there) i)
Noted-IsSound v s s' (both type e) there i =
    rw e (Step-IsSound (block type v (network-IsThere v s there)) (Step-IsSound (network v) i))

-- A vote that is reported as added is there.
pub insert_voted_value-IsThere :
    (v : PbftVote) (s : VerifiedVotes) {s' : VerifiedVotes} {voted : VotesWithWeight}
    → insert_voted_value v s ≡ done (s', some voted)
    → IsThere (find_voted v.period v.round v.step v.block_hash s')
insert_voted_value-IsThere v s {s'} {voted} h = (
  voted,
  ground (
    arith,
    insert_voted_value_result v s h,
    Option-cases (find_vote v.period v.round v.step v.block_hash v.hash s),
  ),
)

-- A call that returns keeps the whole invariant of the verified votes.
pub add_verified_vote-IsSound :
    (c : Chain) (v : PbftVote) (m : VoteManager) {m' : VoteManager} {b : Bool}
    → add_verified_vote c v m ≡ done (m', b)
    → IsSound m.verified_votes
    → IsSound m'.verified_votes
add_verified_vote-IsSound c v m h i = elim (add_verified_vote-AddedVote c v m h) [
  | refused e _ ↦ rw e i
  | checked e _ ↦ rw e (Step-IsSound (voter v) i)
  | known _ e _ ↦ Step-IsSound (value v none e) (Step-IsSound (voter v) i)
  | stored vv voted _ e noted _ ↦
      Noted-IsSound v vv _ noted
        (insert_voted_value-IsThere v (insert_unique_voter v m.verified_votes).0 e)
        (Step-IsSound (value v (some voted) e) (Step-IsSound (voter v) i))
]

find_vote-Noted :
    (v : PbftVote) (s s' : VerifiedVotes)
    → Noted v s s'
    → (period round step block hash : ℕ)
    → find_vote period round step block hash s' ≡ find_vote period round step block hash s
unfolding find_vote find_voted
find_vote-Noted v s s' n period round step block_hash hash =
    ground (arith, Noted-steps v s s' n period round step)

find_vote-insert_unique_voter :
    (v : PbftVote) (s : VerifiedVotes) (period round step block hash : ℕ)
    → find_vote period round step block hash (insert_unique_voter v s).0
      ≡ find_vote period round step block hash s
unfolding find_vote
find_vote-insert_unique_voter v s period round step block_hash hash =
    ground (arith, find_voted-insert_unique_voter v s period round step block_hash)

-- Of a known vote nothing changes, and a new one is found where it belongs.
find_vote-known :
    (v : PbftVote) (s : VerifiedVotes) {s' : VerifiedVotes}
    → insert_voted_value v s ≡ done (s', none)
    → (period round step block hash : ℕ)
    → find_vote period round step block hash s' ≡ find_vote period round step block hash s
unfolding find_vote
find_vote-known v s h period round step b hash = elim (insert_voted_value-Inserted v s h) [
  | Inserted.known old e to _ ↦ rw to (
      ground (
        arith,
        find_voted-store_voted_value v (voted_value v s) s period round step b,
        voted_value_lem v s,
      ))
  | Inserted.added _ _ _ _ r ↦ absurd (ground arith)
]

find_vote-new :
    (v : PbftVote) (s : VerifiedVotes) {s' : VerifiedVotes} {voted : VotesWithWeight}
    → insert_voted_value v s ≡ done (s', some voted)
    → (period round step block hash : ℕ)
    → find_vote period round step block hash s' ≡ (
        if at_vote v period round step block hash
        then some v
        else find_vote period round step block hash s)
find_vote-new v s h period round step b hash = ground (
  arith,
  find_vote-insert_voted_value v s h period round step b hash,
  insert_voted_value_result v s h,
)

-- Of the calls that return, one that reports true adds its vote under the vote's coordinates and changes no other; a call
-- that reports false leaves the votes as they were.
pub find_vote-add_verified_vote :
    (c : Chain) (v : PbftVote) (m : VoteManager) {m' : VoteManager} {b : Bool}
    → add_verified_vote c v m ≡ done (m', b)
    → (period round step block hash : ℕ)
    → find_vote period round step block hash m'.verified_votes ≡ (
        if b && at_vote v period round step block hash
        then some v
        else find_vote period round step block hash m.verified_votes)
find_vote-add_verified_vote c v m {b = b} h period round step bl hash =
    let s = m.verified_votes in
    let checks = find_vote-insert_unique_voter v s period round step bl hash in
    elim (add_verified_vote-AddedVote c v m h) [
      | refused e f ↦ rw (e, f) refl
      | checked e f ↦ rw (e, f) checks
      | known _ e f ↦
          rw f (find_vote-known v (insert_unique_voter v s).0 e period round step bl hash ∙ checks)
      | stored vv voted _ e noted f ↦ rw f (
          find_vote-Noted v vv _ noted period round step bl hash
          ∙ ground (
            arith,
            find_vote-new v (insert_unique_voter v s).0 e period round step bl hash,
            checks,
          ))
    ]
