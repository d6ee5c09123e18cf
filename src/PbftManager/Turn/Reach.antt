-- ===== src/PbftManager/Turn/Reach.antt =====
-- PbftManager as a machine: its turns, synced blocks, restarts and what the network changes are steps.
use rustaxa.Common.{◌≡◌, refl, Bool, none, List, [], arith}
use rustaxa.Common.Outcome.{done}
use rustaxa.Common.ListLaws.{All-mem}
use mathlib.Core.List.{Memᴰ}
use rustaxa.Vote.{PbftVote}
use rustaxa.PbftBlock.{PbftBlock}
use rustaxa.ProposedBlocks.{ProposedBlocks}
use rustaxa.VoteManager.{VoteManager}
use rustaxa.PbftManager.{World, PbftManager, get_pbft_period}
use rustaxa.PbftManager.Steps.Place.{place}
use rustaxa.PbftManager.Steps.Certify.{waits}
use rustaxa.PbftManager.Push.{push_pbft_block}
use rustaxa.PbftManager.Turn.{turn}
use rustaxa.PbftManager.Start.{restart}
use rustaxa.PbftManager.Turn.Safe.{IsOwn, IsSafe}
use rustaxa.PbftManager.Turn.Rounds.{Waits-IsSafe}
use rustaxa.PbftManager.Turn.Pushed.{Fits, turn-IsSafe, push_pbft_block-IsSafe}
use rustaxa.PbftManager.Turn.Restart.{IsRestorable, IsSafe-IsRestorable, restart-IsSafe}

-- A database without own votes and without a cert voted block.
abbrev pub IsUnused : PbftManager → Type 0
IsUnused s = (s.own_verified_votes ≡ []) × (s.db.cert_voted_block_in_round ≡ none)

-- `network` stands for the packets: they change votes and proposed blocks in whatever way.
pub data Step (s : PbftManager) : PbftManager → Type 0 where
  turn_of :
      {s' : PbftManager} (w : World) (synced : Bool)
      → Fits w synced s
      → turn w synced s ≡ done s'
      → Step s s'
  synced_block :
      {s' : PbftManager} {pushed : Bool} (w : World) (b : PbftBlock) (cert_votes : List PbftVote)
      → push_pbft_block w b cert_votes s ≡ done (s', pushed)
      → Step s s'
  restart_of : {s' : PbftManager} (w : World) → restart w s ≡ done s' → Step s s'
  network :
      (m : VoteManager) (p : ProposedBlocks)
      → Step s (record s { vote_mgr = m; proposed_blocks = p })

pub data Reach : PbftManager → Type 0 where
  start :
      {s' : PbftManager} (w : World) (s : PbftManager)
      → IsUnused s
      → restart w s ≡ done s'
      → Reach s'
  next : {s s' : PbftManager} → Reach s → Step s s' → Reach s'

network-IsSafe :
    (s : PbftManager) (m : VoteManager) (p : ProposedBlocks)
    → IsSafe s
    → IsSafe (record s { vote_mgr = m; proposed_blocks = p })
unfolding get_pbft_period
network-IsSafe s m p i =
    let t : PbftManager = record s { vote_mgr = m; proposed_blocks = p } in
    Waits-IsSafe s t (waits s t refl refl) i

IsUnused-IsRestorable : (s : PbftManager) → IsUnused s → IsRestorable s
IsUnused-IsRestorable s (own, cert) = record { own = rw own tt; cert = rw cert tt }

-- In a state that is reached from a database without own votes and without a cert voted block, the
-- step is one of the state, round and step are those in the database, each own vote is of the current
-- period and round and of a step up to the current one, an own cert vote is for the cert voted block,
-- and that block is of the period and in the database with the round, or the database has none.
pub Reach-IsSafe : {s : PbftManager} → Reach s → IsSafe s
Reach-IsSafe (start w s unused e) = restart-IsSafe w s (IsUnused-IsRestorable s unused) e
Reach-IsSafe (next {s} r (turn_of w synced fits e)) = turn-IsSafe w synced s (Reach-IsSafe r) fits e
Reach-IsSafe (next {s} r (synced_block w b cert_votes e)) =
    push_pbft_block-IsSafe w b cert_votes s (Reach-IsSafe r) e
Reach-IsSafe (next {s} r (restart_of w e)) =
    restart-IsSafe w s (IsSafe-IsRestorable s (Reach-IsSafe r)) e
Reach-IsSafe (next {s} r (network m p)) = network-IsSafe s m p (Reach-IsSafe r)

-- In a state that is reached from a database without own votes and without a cert voted block, two own
-- votes of step 3 are for the same block, whichever wallets cast them.
pub one_cert_vote-Reach :
    {s : PbftManager} (u v : PbftVote)
    → Reach s
    → Memᴰ u s.own_verified_votes
    → Memᴰ v s.own_verified_votes
    → u.step ≡ 3
    → v.step ≡ 3
    → u.block_hash ≡ v.block_hash
one_cert_vote-Reach {s} u v r in_u in_v u3 v3 =
    let own = (Reach-IsSafe r).own in
    let (b, e, same) = (All-mem (IsOwn (place s)) own in_u).3 u3 in
    let (c, f, same') = (All-mem (IsOwn (place s)) own in_v).3 v3 in ground arith
