-- ===== src/VerifiedVotes/Size.antt =====
-- VerifiedVotes::size against VerifiedVotes::votes.
use rustaxa.Common.{
  ℕ, suc, ◌+◌, ◌%◌, ◌^◌, ◌<◌, ◌≡◌, refl, ap, List, [], ◌∷◌, arith, u64, length, length-append,
}
use native.Mathlib.Nat.{zero-add}
use rustaxa.Common.Map.{Map}
use rustaxa.VerifiedVotes.{
  votes, count_periods, count_steps, int_mod, count_rounds, size, sign_extend, concat_map, values,
  count_voted_values, VerifiedVotes, VotesWithWeight, StepVotes, RoundVerifiedVotes,
}
use rustaxa.Vote.{PbftVote}

length-values {ℓ} : {V : Type ℓ} (m : Map V) → length (values m) ≡ length m
length-values [] = refl
length-values (e ∷ m) = ap suc (length-values m)

abbrev pub voted_votes : Map VotesWithWeight → List PbftVote
voted_votes = concat_map (λ voted. values voted.votes)

abbrev pub step_votes : Map StepVotes → List PbftVote
step_votes = concat_map (λ step. voted_votes step.votes)

abbrev pub round_votes : Map RoundVerifiedVotes → List PbftVote
round_votes = concat_map (λ r. step_votes r.step_votes)

abbrev limit : ℕ
limit = 2 ^ 31

-- One addition to the `int`, and to the `uint64_t`, where nothing wraps.
narrow : (acc n : ℕ) → acc + n < limit → (sign_extend acc + n) % u64 % int_mod ≡ acc + n
unfolding sign_extend
narrow acc n h = ground arith

widen : (n k : ℕ) → n + k < limit → (n + sign_extend k) % u64 ≡ n + k
unfolding sign_extend
widen n k h = ground arith

count_voted_values-length :
    (acc : ℕ) (m : Map VotesWithWeight)
    → acc + length (voted_votes m) < limit
    → count_voted_values acc m ≡ acc + length (voted_votes m)
unfolding count_voted_values
count_voted_values-length acc [] h = omega arith
count_voted_values-length acc ((b, voted) ∷ m) h =
    let split = length-append (values voted.votes) (voted_votes m) in
    let own = length-values voted.votes in
    rw (narrow acc (length voted.votes) (omega (arith, split, own))) (
      omega (
        arith,
        split,
        own,
        count_voted_values-length (acc + length voted.votes) m (omega (arith, split, own)),
      ))

count_steps-length :
    (n : ℕ) (m : Map StepVotes)
    → n + length (step_votes m) < limit
    → count_steps n m ≡ n + length (step_votes m)
unfolding count_steps
count_steps-length n [] h = omega arith
count_steps-length n ((i, step) ∷ m) h =
    let split = length-append (voted_votes step.votes) (step_votes m) in
    let k = length (voted_votes step.votes) in
    rw (count_voted_values-length 0 step.votes (omega (arith, split)), zero-add k)
      (rw (widen n k (omega (arith, split)))
        (omega (arith, split, count_steps-length (n + k) m (omega (arith, split)))))

count_rounds-length :
    (n : ℕ) (m : Map RoundVerifiedVotes)
    → n + length (round_votes m) < limit
    → count_rounds n m ≡ n + length (round_votes m)
unfolding count_rounds
count_rounds-length n [] h = omega arith
count_rounds-length n ((i, r) ∷ m) h =
    let split = length-append (step_votes r.step_votes) (round_votes m) in
    let k = length (step_votes r.step_votes) in
    rw (count_steps-length n r.step_votes (omega (arith, split)))
      (omega (arith, split, count_rounds-length (n + k) m (omega (arith, split))))

count_periods-length :
    (n : ℕ) (s : VerifiedVotes)
    → n + length (votes s) < limit
    → count_periods n s ≡ n + length (votes s)
unfolding count_periods votes
count_periods-length n [] h = omega arith
count_periods-length n ((i, rounds) ∷ m) h =
    let split = length-append (round_votes rounds) (concat_map round_votes m) in
    let k = length (round_votes rounds) in
    rw (count_rounds-length n rounds (omega (arith, split)))
      (omega (arith, split, count_periods-length (n + k) m (omega (arith, split))))

-- With fewer than 2^31 votes, `size` is the number of votes that `votes` lists.
pub size-votes : (s : VerifiedVotes) → length (votes s) < 2 ^ 31 → size s ≡ length (votes s)
unfolding size
size-votes s h = omega (arith, count_periods-length 0 s (omega arith))
