-- ===== src/PbftManager/Leader/Lowest.antt =====
-- PbftManager: which of the proposed blocks identifyLeaderBlock returns.
use rustaxa.Common.{
  ℕ, ◌≡◌, refl, sym, ap, subst, ◌∙◌, ◌≢◌, inl, inr, true, false, none, some, List, [], ◌∷◌, ◌++◌,
  arith, ◌==◌, ==_iff, Bool-cases, All,
}
use rustaxa.Common.Outcome.{done, Outcome-cases}
use rustaxa.Common.Map.{Map, put}
use rustaxa.Common.Map.Sorted.{IsSorted, put-From}
use rustaxa.Common.Map.Entries.{put-All}
use rustaxa.Vote.{PbftVote, null_block_hash}
use rustaxa.PbftBlock.{PbftBlock}
use rustaxa.PbftChain.{find_pbft_block_in_chain}
use rustaxa.PbftManager.{World, PbftManager}
use rustaxa.PbftManager.Validate.{BlockChecks, get_valid_pbft_proposed_block}
use rustaxa.PbftManager.Leader.{
  leader_candidates, get_proposal, find_leader, identify_leader_block, Leader, first_of,
}

-- A property of the votes of a map.
abbrev pub AllVotes : (PbftVote → Type 0) → Map PbftVote → Type 0
AllVotes P = All (λ e. P e.1)

abbrev pub OfLeader : (PbftVote → Type 0) → Leader → Type 0
OfLeader P none = Unit
OfLeader P (some (_, v)) = P v

-- A candidate stands under its proposal.
abbrev pub IsProposed : World → ℕ × PbftVote → Type 0
IsProposed w (k, v) = k ≡ get_proposal w v

leader_candidates-IsSorted :
    (w : World) (vs : List PbftVote) (m : Map PbftVote)
    → IsSorted m × All (IsProposed w) m
    → IsSorted (leader_candidates w vs m) × All (IsProposed w) (leader_candidates w vs m)
unfolding leader_candidates
leader_candidates-IsSorted w [] m h = h
leader_candidates-IsSorted w (v ∷ vs) m h = elim (Bool-cases (v.block_hash == null_block_hash)) [
  | inl e ↦ rw e (leader_candidates-IsSorted w vs m h)
  | inr e ↦ rw e (
      leader_candidates-IsSorted w vs (put (get_proposal w v) v m) (
        put-From 0 (get_proposal w v) v m (omega arith) h.0,
        put-All (IsProposed w) (get_proposal w v) v m refl h.1,
      ))
]

leader_candidates-AllVotes :
    (P : PbftVote → Type 0) (w : World) (vs : List PbftVote) (m : Map PbftVote)
    → All P vs
    → AllVotes P m
    → AllVotes P (leader_candidates w vs m)
unfolding leader_candidates
leader_candidates-AllVotes P w [] m all in_m = in_m
leader_candidates-AllVotes P w (v ∷ vs) m all in_m =
    elim (Bool-cases (v.block_hash == null_block_hash)) [
      | inl e ↦ rw e (leader_candidates-AllVotes P w vs m all.1 in_m)
      | inr e ↦ rw e (
          leader_candidates-AllVotes P w vs (put (get_proposal w v) v m) all.1
            (put-All (λ x. P x.1) (get_proposal w v) v m all.0 in_m))
    ]

-- The candidates before a leader: in the chain, not valid, or of a null anchor, each as the checks
-- before it left the blocks.
pub data Passed (w : World) (s : PbftManager)
    : BlockChecks → List PbftVote → BlockChecks → Type 0 where
  none_left : {p : BlockChecks} → Passed w s p [] p
  in_chain :
      {p q : BlockChecks} {vs : List PbftVote} (v : PbftVote)
      → find_pbft_block_in_chain v.block_hash s.pbft_blocks ≡ true
      → Passed w s p vs q
      → Passed w s p (v ∷ vs) q
  not_valid :
      {p p' q : BlockChecks} {vs : List PbftVote} (v : PbftVote)
      → get_valid_pbft_proposed_block w s v.period v.block_hash p ≡ done (p', none)
      → Passed w s p' vs q
      → Passed w s p (v ∷ vs) q
  null_anchor :
      {p p' q : BlockChecks} {vs : List PbftVote} (v : PbftVote) (b : PbftBlock)
      → get_valid_pbft_proposed_block w s v.period v.block_hash p ≡ done (p', some b)
      → b.pivot_dag_block_hash ≡ null_block_hash
      → Passed w s p' vs q
      → Passed w s p (v ∷ vs) q

-- The first candidate with a null anchor.
abbrev pub empty_of :
    {w : World} {s : PbftManager} {p q : BlockChecks} {vs : List PbftVote}
    → Passed w s p vs q
    → Leader
    → Leader
empty_of none_left e = e
empty_of (in_chain v found rest) e = empty_of rest e
empty_of (not_valid v invalid rest) e = empty_of rest e
empty_of (null_anchor v b checked null rest) e = empty_of rest (first_of e (b, v))

abbrev pub votes_in : Map PbftVote → List PbftVote
votes_in [] = []
votes_in ((_, v) ∷ m) = v ∷ votes_in m

-- A valid block with an anchor that is not in the chain, all candidates before it being passed over.
pub record IsFirst (w : World) (s : PbftManager) (p : BlockChecks) (m : Map PbftVote)
    (q : BlockChecks) (b : PbftBlock) (v : PbftVote) : Type 0 where
  pub before : Map PbftVote
  pub proposal : ℕ
  pub after : Map PbftVote
  pub checks : BlockChecks
  pub split : m ≡ before ++ (proposal, v) ∷ after
  pub passed : Passed w s p (votes_in before) checks
  pub outside : find_pbft_block_in_chain v.block_hash s.pbft_blocks ≡ false
  pub checked : get_valid_pbft_proposed_block w s v.period v.block_hash checks ≡ done (q, some b)
  pub anchored : b.pivot_dag_block_hash ≢ null_block_hash

-- The leader: the first candidate of that kind, or if there is none the first one with a null anchor.
pub data Best (w : World) (s : PbftManager) (e : Leader) (p : BlockChecks) (m : Map PbftVote)
    (q : BlockChecks) (r : Leader) : Type 0 where
  first :
      {b : PbftBlock} {v : PbftVote} → IsFirst w s p m q b v → r ≡ some (b, v) → Best w s e p m q r
  fallback : (passed : Passed w s p (votes_in m) q) → r ≡ empty_of passed e → Best w s e p m q r

-- A candidate in front that is passed over.
Best-cons :
    {w : World} {s : PbftManager} {e e' : Leader} {p p' q : BlockChecks} {m : Map PbftVote}
    {r : Leader} (k : ℕ) (v : PbftVote)
    → (one : (vs : List PbftVote) (t : BlockChecks) → Passed w s p' vs t → Passed w s p (v ∷ vs) t)
    → ((vs : List PbftVote) (t : BlockChecks) (later : Passed w s p' vs t)
        → empty_of (one vs t later) e ≡ empty_of later e')
    → Best w s e' p' m q r
    → Best w s e p ((k, v) ∷ m) q r
Best-cons k v one same (first i is) =
    first
      (record {
        before = (k, v) ∷ i.before;
        proposal = i.proposal;
        after = i.after;
        checks = i.checks;
        split = ap (λ xs. (k, v) ∷ xs) i.split;
        passed = one (votes_in i.before) i.checks i.passed;
        outside = i.outside;
        checked = i.checked;
        anchored = i.anchored;
      })
      is
Best-cons {q} {m} k v one same (fallback passed is) =
    fallback (one (votes_in m) q passed) (is ∙ sym (same (votes_in m) q passed))

find_leader-Best :
    (w : World) (s : PbftManager) (m : Map PbftVote) (e : Leader) (p : BlockChecks)
    {q : BlockChecks} {r : Leader}
    → find_leader w s m e p ≡ done (q, r)
    → Best w s e p m q r
unfolding find_leader
find_leader-Best w s [] e p {q} {r} h =
    let same_p : p ≡ q = ground arith in
    let same_r : e ≡ r = ground arith in
    subst (λ x. Best w s e p [] q x) same_r
      (subst (λ x. Best w s e p [] x e) same_p (fallback none_left refl))
find_leader-Best w s ((k, v) ∷ m) e p {q} {r} h =
    elim (Bool-cases (find_pbft_block_in_chain v.block_hash s.pbft_blocks)) [
      | inl found ↦
          Best-cons k v (λ vs t later. in_chain v found later) (λ vs t later. refl)
            (find_leader-Best w s m e p {q = q} {r = r} (ground arith))
      | inr outside ↦
          elim (Outcome-cases (get_valid_pbft_proposed_block w s v.period v.block_hash p)) [
            | inl f ↦ ground arith
            | inr ((p', none), f) ↦
                Best-cons k v (λ vs t later. not_valid v f later) (λ vs t later. refl)
                  (find_leader-Best w s m e p' {q = q} {r = r} (ground arith))
            | inr ((p', some b), f) ↦
                elim (Bool-cases (b.pivot_dag_block_hash == null_block_hash)) [
                  | inl null ↦
                      let is_null = (==_iff b.pivot_dag_block_hash null_block_hash).0 null in
                      Best-cons k v (λ vs t later. null_anchor v b f is_null later)
                        (λ vs t later. refl)
                        (find_leader-Best w s m (first_of e (b, v)) p' {q = q} {r = r}
                          (ground arith))
                  | inr anchored ↦
                      let same : p' ≡ q = ground arith in
                      first {b = b} {v = v}
                        (record {
                          before = [];
                          proposal = k;
                          after = m;
                          checks = p;
                          split = refl;
                          passed = none_left;
                          outside = outside;
                          checked = rw (← same) f;
                          anchored = λ is_null. ground arith;
                        })
                        (ground arith)
                ]
          ]
    ]

-- If identifyLeaderBlock returns, its candidates are in the order of their proposals, and its result
-- is the first one whose block is not in the chain, passes getValidPbftProposedBlock and has an
-- anchor, all candidates before it being in the chain, not valid or without an anchor; with no such
-- candidate it is the first valid one without an anchor, if any.
pub identify_leader_block-Best :
    (w : World) (s : PbftManager) (votes : List PbftVote) (p : BlockChecks) {q : BlockChecks}
    {r : Leader}
    → identify_leader_block w s votes p ≡ done (q, r)
    → let m = leader_candidates w votes [] in
      IsSorted m × All (IsProposed w) m × Best w s none p m q r
unfolding identify_leader_block
identify_leader_block-Best w s votes p h =
    let (sorted, proposed) = leader_candidates-IsSorted w votes [] (tt, tt) in
    (sorted, proposed, find_leader-Best w s (leader_candidates w votes []) none p h)

empty_of-OfLeader :
    (P : PbftVote → Type 0) {w : World} {s : PbftManager} {p q : BlockChecks} {vs : List PbftVote}
    (passed : Passed w s p vs q) (e : Leader)
    → All P vs
    → OfLeader P e
    → OfLeader P (empty_of passed e)
empty_of-OfLeader P none_left e all of_e = of_e
empty_of-OfLeader P (in_chain v found rest) e all of_e = empty_of-OfLeader P rest e all.1 of_e
empty_of-OfLeader P (not_valid v invalid rest) e all of_e = empty_of-OfLeader P rest e all.1 of_e
empty_of-OfLeader P (null_anchor v b checked null rest) none all of_e =
    empty_of-OfLeader P rest (some (b, v)) all.1 all.0
empty_of-OfLeader P (null_anchor v b checked null rest) (some x) all of_e =
    empty_of-OfLeader P rest (some x) all.1 of_e

All-votes_in : (P : PbftVote → Type 0) (m : Map PbftVote) → AllVotes P m → All P (votes_in m)
All-votes_in P [] all = tt
All-votes_in P ((_, v) ∷ m) all = (all.0, All-votes_in P m all.1)

All-middle :
    (P : PbftVote → Type 0) (xs : Map PbftVote) (k : ℕ) (v : PbftVote) (ys : Map PbftVote)
    → AllVotes P (xs ++ (k, v) ∷ ys)
    → P v
All-middle P [] k v ys all = all.0
All-middle P (x ∷ xs) k v ys all = All-middle P xs k v ys all.1

-- The vote for the leader is one of the votes.
pub identify_leader_block-OfLeader :
    (P : PbftVote → Type 0) (w : World) (s : PbftManager) (votes : List PbftVote) (p : BlockChecks)
    {q : BlockChecks} {r : Leader}
    → identify_leader_block w s votes p ≡ done (q, r)
    → All P votes
    → OfLeader P r
identify_leader_block-OfLeader P w s votes p h all =
    let in_m = leader_candidates-AllVotes P w votes [] all tt in
    elim ((identify_leader_block-Best w s votes p h).2) [
      | first {b} {v} i is ↦
          subst (OfLeader P) (sym is)
            (All-middle P i.before i.proposal v i.after (subst (AllVotes P) i.split in_m))
      | fallback passed is ↦
          subst (OfLeader P) (sym is) (
            empty_of-OfLeader P passed none (All-votes_in P (leader_candidates w votes []) in_m) tt)
    ]
