-- ===== src/VerifiedVotes/Cleanup.antt =====
-- VerifiedVotes::cleanupVotesByPeriod.
use rustaxa.VerifiedVotes.{VerifiedVotes, cleanup_votes_by_period, get_step_votes}
use rustaxa.Common.{ℕ, ◌≡◌, none, arith, ltb, if◌then◌else◌}
use rustaxa.Common.Map.Sorted.{IsSorted, lookup-drop_below}

-- With the periods in order, exactly the steps of the periods below the bound are removed.
pub get_step_votes-cleanup_votes_by_period :
    (bound period round step : ℕ) (s : VerifiedVotes)
    → IsSorted s
    → get_step_votes period round step (cleanup_votes_by_period bound s)
      ≡ (if ltb period bound then none else get_step_votes period round step s)
unfolding get_step_votes cleanup_votes_by_period
get_step_votes-cleanup_votes_by_period bound period round step s h =
    ground (arith, lookup-drop_below bound period 0 s h)
