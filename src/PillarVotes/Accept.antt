-- ===== src/PillarVotes/Accept.antt =====
-- PillarVotes::addVerifiedVote: the invariant after a call.
use rustaxa.Common.{
  ℕ, ◌%◌, ◌≡◌, refl, sym, subst, inl, inr, Bool, true, ◌&&◌, some, arith, ◌==◌, if◌then◌else◌,
  Bool-cases, Option-cases, u64,
}
use rustaxa.Common.Map.{lookup, contains}
use rustaxa.PillarVotes.{
  PillarVote, PillarVotes, WeightVotes, add_weight_vote, or_no_votes, or_hash,
}
use rustaxa.PillarVotes.Unique.{
  find_block, find_vote, find_voter, weigh, weigh-put, IsAt, IsSound, Added, refused, accepted,
  find_vote-accepted,
}

accepted-filed :
    (v : PillarVote) (count : ℕ) (s s' : PillarVotes)
    → ((period voter : ℕ)
        → find_voter period voter s' ≡ (
            if period == v.period && voter == v.voter
            then some v.hash
            else find_voter period voter s))
    → (period block hash : ℕ) (u : PillarVote)
    → or_hash v.hash (find_voter v.period v.voter s) ≡ v.hash
    → IsAt u period block hash s
    → IsAt u period block hash s'
accepted-filed v count s s' h period block hash u same i = record {
  period_eq = i.period_eq;
  block_eq = i.block_eq;
  hash_eq = i.hash_eq;
  voter_eq = elim (Bool-cases (period == v.period && u.voter == v.voter)) [
    | inl e ↦
        let p : period ≡ v.period = ground arith in
        let w : u.voter ≡ v.voter = ground arith in
        let old : find_voter v.period v.voter s ≡ some hash = rw (← p, ← w) i.voter_eq in
        let eq : v.hash ≡ hash = ground arith in ground (arith, h period u.voter)
    | inr e ↦ ground (arith, h period u.voter, i.voter_eq)
  ];
}

new-IsAt :
    (v : PillarVote) (s s' : PillarVotes)
    → ((period voter : ℕ)
        → find_voter period voter s' ≡ (
            if period == v.period && voter == v.voter
            then some v.hash
            else find_voter period voter s))
    → (period block hash : ℕ) → period ≡ v.period
    → block ≡ v.block_hash
    → hash ≡ v.hash
    → IsAt v period block hash s'
new-IsAt v s s' h period block hash p b e = record {
  period_eq = sym p;
  block_eq = sym b;
  hash_eq = sym e;
  voter_eq = ground (arith, h period v.voter);
}

pub Added-filed :
    (v : PillarVote) (count : ℕ) (s s' : PillarVotes) {b : Bool}
    → Added v count s s' b
    → IsSound s
    → (period block hash : ℕ) (u : PillarVote) (c : ℕ)
    → find_vote period block hash s' ≡ some (u, c)
    → IsAt u period block hash s'
Added-filed v count s s' (refused old _ _ to _) i period block hash u c =
    rw to (i.filed period block hash u c)
Added-filed v count s s' (accepted same _ voters blocks) i period block hash u c = λ e.
    elim (Option-cases (find_vote period block hash s)) [
      | inl f ↦
          let at : (period == v.period && (block == v.block_hash && hash == v.hash)) ≡ true =
            ground (arith, find_vote-accepted v count s s' blocks period block hash) in
          let eq : v ≡ u =
            ground (arith, find_vote-accepted v count s s' blocks period block hash) in
          subst (λ x. IsAt x period block hash s') eq
            (new-IsAt v s s' voters period block hash (ground arith) (ground arith) (ground arith))
      | inr (old, f) ↦
          let eq : find_vote period block hash s ≡ some (u, c) =
            ground (arith, find_vote-accepted v count s s' blocks period block hash) in
          accepted-filed v count s s' voters period block hash u same
            (i.filed period block hash u c eq)
    ]

add_weight_vote-weighed :
    (v : PillarVote) (count : ℕ) (b : WeightVotes)
    → b.weight ≡ weigh b.votes % u64
    → (add_weight_vote v count b).weight ≡ weigh (add_weight_vote v count b).votes % u64
unfolding add_weight_vote contains
add_weight_vote-weighed v count b h = elim (Option-cases (lookup v.hash b.votes)) [
  | inl e ↦ ground (arith, weigh-put v.hash (v, count) b.votes e)
  | inr (old, e) ↦ ground arith
]

pub Added-weighed :
    (v : PillarVote) (count : ℕ) (s s' : PillarVotes) {b : Bool}
    → Added v count s s' b
    → IsSound s
    → (period block : ℕ) (w : WeightVotes) → find_block period block s' ≡ some w
    → w.weight ≡ weigh w.votes % u64
Added-weighed v count s s' (refused old _ _ to _) i period block w =
    rw to (i.weighed period block w)
Added-weighed v count s s' (accepted same _ voters blocks) i period block w = λ e.
    let o = or_no_votes (find_block v.period v.block_hash s) in
    let old : o.weight ≡ weigh o.votes % u64 =
      elim (Option-cases (find_block v.period v.block_hash s)) [
        | inl f ↦ rw f refl
        | inr (b, f) ↦ rw f (i.weighed v.period v.block_hash b f)
      ] in
    let new = add_weight_vote-weighed v count o old in
    elim (Bool-cases (period == v.period && block == v.block_hash)) [
      | inl f ↦
          let eq : add_weight_vote v count o ≡ w = ground (arith, blocks period block) in
          subst (λ x. x.weight ≡ weigh x.votes % u64) eq new
      | inr f ↦ i.weighed period block w (ground (arith, blocks period block))
    ]
