-- ===== src/VerifiedVotes/Voters.antt =====
-- VerifiedVotes::insertUniqueVoter: the votes that a voter has in a step.
use rustaxa.VerifiedVotes.Store.{get_step_votes-store_step, at_step}
use rustaxa.Common.{
  ℕ, ◌≡◌, refl, sym, subst, ◌∙◌, ◌≢◌, ◌⊎◌, inl, inr, true, ◌&&◌, Option, none, some, List, [], ◌∷◌,
  arith, ◌==◌, if◌then◌else◌, Option-cases,
}
use rustaxa.Common.Map.{lookup-put, lookup, put}
use rustaxa.Vote.{PbftVote, is_next_vote, is_odd_step}
use rustaxa.VerifiedVotes.{
  insert_unique_voter, conflicting_vote, VerifiedVotes, StepVotes, get_step_votes, store_step,
  check_voter, one_is_null,
}

abbrev pub Entry : Type 0
Entry = PbftVote × Option PbftVote

-- The entry of a voter in a step.
unfoldable pub find_voter : ℕ → ℕ → ℕ → ℕ → VerifiedVotes → Option Entry
unfolding lookup
find_voter period round step voter s = elim (get_step_votes period round step s) [
  | none ↦ none
  | some e ↦ lookup voter e.unique_voters
]

-- A vote of this voter in this step.
pub record IsOf (v : PbftVote) (period round step voter : ℕ) : Type 0 where
  pub period_eq : v.period ≡ period
  pub round_eq : v.round ≡ round
  pub step_eq : v.step ≡ step
  pub voter_eq : v.voter ≡ voter

-- Two different votes that a voter may have in one step.
pub record MayBoth (first second : PbftVote) : Type 0 where
  pub differ : first.hash ≢ second.hash
  pub next : is_next_vote second ≡ true
  pub odd : is_odd_step second ≡ true
  pub null : one_is_null first second ≡ true

abbrev pub Second : PbftVote → Option PbftVote → ℕ → ℕ → ℕ → ℕ → Type 0
Second first none period round step voter = Unit
Second first (some second) period round step voter =
    IsOf second period round step voter × MayBoth first second

abbrev pub IsLegal : Entry → ℕ → ℕ → ℕ → ℕ → Type 0
IsLegal e period round step voter =
    IsOf e.0 period round step voter × Second e.0 e.1 period round step voter

-- Every entry is legal.
abbrev pub HasUniqueVoters : VerifiedVotes → Type 0
HasUniqueVoters s =
    (period round step voter : ℕ) (e : Entry)
    → find_voter period round step voter s ≡ some e
    → IsLegal e period round step voter

-- What a call did, for the entry that it found.
pub data Checked (v : PbftVote) (s s' : VerifiedVotes) (c : Option PbftVote) : Type 0 where
  no_step : get_step_votes v.period v.round v.step s ≡ none → s' ≡ s → c ≡ none → Checked v s s' c
  kept :
      (e : Entry)
      → find_voter v.period v.round v.step v.voter s ≡ some e
      → (check_voter v e.0 e.1).0 ≡ none
      → c ≡ (check_voter v e.0 e.1).1
      → s' ≡ s
      → Checked v s s' c
  entered :
      (step : StepVotes) (e : Entry)
      → get_step_votes v.period v.round v.step s ≡ some step
      → (lookup v.voter step.unique_voters ≡ none) × (e ≡ (v, none))
        ⊎ (o : Entry) × (lookup v.voter step.unique_voters ≡ some o)
          × ((check_voter v o.0 o.1).0 ≡ some e)
      → s' ≡ store_step v (record step { unique_voters = put v.voter e step.unique_voters }) s
      → c ≡ none
      → Checked v s s' c

-- What `check_voter` lets in beside a first vote.
check_voter_enters :
    (v first : PbftVote) (second : Option PbftVote) (e : Entry)
    → (check_voter v first second).0 ≡ some e
    → (second ≡ none)
      × (e ≡ (first, some v))
      × MayBoth first v
      × ((check_voter v first second).1 ≡ none)
unfolding check_voter
check_voter_enters v first none e h = ground arith
check_voter_enters v first (some second) e h = ground arith

-- The votes of an entry.
abbrev pub entry_votes : Entry → List PbftVote
entry_votes (first, none) = first ∷ []
entry_votes (first, some second) = first ∷ second ∷ []

abbrev pub HasHash : ℕ → List PbftVote → Type 0
HasHash h [] = ⊥
HasHash h (v ∷ vs) = (v.hash ≡ h) ⊎ HasHash h vs

check_voter_rejects :
    (v first : PbftVote) (second : Option PbftVote) (w : PbftVote)
    → (check_voter v first second).1 ≡ some w
    → ((check_voter v first second).0 ≡ none)
      × (w.hash ≢ v.hash)
      × HasHash w.hash (entry_votes (first, second))
unfolding check_voter conflicting_vote
check_voter_rejects v first none w h = ground arith
check_voter_rejects v first (some second) w h = ground arith

check_voter_knows :
    (v first : PbftVote) (second : Option PbftVote)
    → (check_voter v first second).0 ≡ none
    → (check_voter v first second).1 ≡ none
    → HasHash v.hash (entry_votes (first, second))
unfolding check_voter
check_voter_knows v first none h k = ground arith
check_voter_knows v first (some second) h k = ground arith

find_voter_eq :
    (v : PbftVote) (s : VerifiedVotes) {step : StepVotes}
    → get_step_votes v.period v.round v.step s ≡ some step
    → find_voter v.period v.round v.step v.voter s ≡ lookup v.voter step.unique_voters
unfolding find_voter
find_voter_eq v s e = ground arith

pub insert_unique_voter-Checked :
    (v : PbftVote) (s : VerifiedVotes)
    → Checked v s (insert_unique_voter v s).0 (insert_unique_voter v s).1
unfolding insert_unique_voter
insert_unique_voter-Checked v s = elim (Option-cases (get_step_votes v.period v.round v.step s)) [
  | inl e ↦ no_step e (ground arith) (ground arith)
  | inr (step, e) ↦ elim (Option-cases (lookup v.voter step.unique_voters)) [
    | inl n ↦ entered step (v, none) e (inl (n, refl)) (ground arith) (ground arith)
    | inr (o, f) ↦ elim (Option-cases (check_voter v o.0 o.1).0) [
      | inl n ↦ kept o (find_voter_eq v s e ∙ f) n (ground arith) (ground arith)
      | inr (new, g) ↦
          entered step new e (inr (o, f, g)) (ground arith)
            (ground (arith, check_voter_enters v o.0 o.1 new g))
    ]
  ]
]

find_voter-store_step :
    (v : PbftVote) (e : Entry) (s : VerifiedVotes) (step : StepVotes)
    → get_step_votes v.period v.round v.step s ≡ some step
    → (period round st voter : ℕ)
    → find_voter period round st voter
        (store_step v (record step { unique_voters = put v.voter e step.unique_voters }) s)
      ≡ (if at_step v period round st && v.voter == voter
          then some e
          else find_voter period round st voter s)
unfolding find_voter
find_voter-store_step v e s step h period round st voter =
    let step' : StepVotes = record step { unique_voters = put v.voter e step.unique_voters } in
    ground (
      arith,
      get_step_votes-store_step v step' s period round st,
      lookup-put v.voter voter e step.unique_voters,
    )

-- The entry of the vote's own voter, after it was entered.
entered-IsLegal :
    (v : PbftVote) (e : Entry) (s : VerifiedVotes) (step : StepVotes)
    → HasUniqueVoters s
    → get_step_votes v.period v.round v.step s ≡ some step
    → (lookup v.voter step.unique_voters ≡ none) × (e ≡ (v, none))
      ⊎ (o : Entry) × (lookup v.voter step.unique_voters ≡ some o)
        × ((check_voter v o.0 o.1).0 ≡ some e)
    → IsLegal e v.period v.round v.step v.voter
entered-IsLegal v e s step u h (inl (_, new)) =
    rw new ((record { period_eq = refl; round_eq = refl; step_eq = refl; voter_eq = refl }, tt))
entered-IsLegal v e s step u h (inr (o, found, g)) =
    let (_, e_eq, both, _) = check_voter_enters v o.0 o.1 e g in
    let old = u v.period v.round v.step v.voter o (find_voter_eq v s h ∙ found) in
    rw e_eq
      (old.0, (record { period_eq = refl; round_eq = refl; step_eq = refl; voter_eq = refl }, both))

-- After a vote was offered, a voter's votes in any step are one vote, or two next votes of an odd
-- step with different hashes of which one is for the null block, if that was so before.
pub insert_unique_voter-HasUniqueVoters :
    (v : PbftVote) (s : VerifiedVotes)
    → HasUniqueVoters s
    → HasUniqueVoters (insert_unique_voter v s).0
insert_unique_voter-HasUniqueVoters v s u = elim (insert_unique_voter-Checked v s) [
  | no_step _ e _ ↦ rw e u
  | kept _ _ _ _ e ↦ rw e u
  | entered step e h from to _ ↦ rw to λ period round st voter o found. ground (
    arith,
    found,
    find_voter-store_step v e s step h period round st voter,
    entered-IsLegal v e s step u h from,
    u period round st voter o,
  )
]

abbrev pub votes_of : Option Entry → List PbftVote
votes_of none = []
votes_of (some e) = entry_votes e

-- The votes of the vote's voter in its step.
unfoldable pub own_votes : PbftVote → VerifiedVotes → List PbftVote
unfolding find_voter
own_votes v s = votes_of (find_voter v.period v.round v.step v.voter s)

-- A vote that is not let in changes nothing, and the caller is handed a different vote that the
-- voter has in this step.
pub insert_unique_voter_rejects :
    (v w : PbftVote) (s : VerifiedVotes)
    → (insert_unique_voter v s).1 ≡ some w
    → ((insert_unique_voter v s).0 ≡ s) × (w.hash ≢ v.hash) × HasHash w.hash (own_votes v s)
unfolding own_votes
insert_unique_voter_rejects v w s h = elim (insert_unique_voter-Checked v s) [
  | no_step _ _ e ↦ absurd (ground arith)
  | kept (first, second) found _ c e ↦
      let (_, differ, has) = check_voter_rejects v first second w (sym c ∙ h) in
      (e, differ, subst (λ o. HasHash w.hash (votes_of o)) (sym found) has)
  | entered _ _ _ _ _ e ↦ absurd (ground arith)
]

entered_has :
    (v : PbftVote) (e : Entry) (step : StepVotes)
    → (lookup v.voter step.unique_voters ≡ none) × (e ≡ (v, none))
      ⊎ (o : Entry) × (lookup v.voter step.unique_voters ≡ some o)
        × ((check_voter v o.0 o.1).0 ≡ some e)
    → HasHash v.hash (entry_votes e)
entered_has v e step (inl (_, new)) = rw new (inl refl)
entered_has v e step (inr (o, _, g)) = rw ((check_voter_enters v o.0 o.1 e g).1) (inr (inl refl))

find_voter-store_step_self :
    (v : PbftVote) (e : Entry) (s : VerifiedVotes) (step : StepVotes)
    → get_step_votes v.period v.round v.step s ≡ some step
    → find_voter v.period v.round v.step v.voter
        (store_step v (record step { unique_voters = put v.voter e step.unique_voters }) s)
      ≡ some e
find_voter-store_step_self v e s step h =
    ground (arith, find_voter-store_step v e s step h v.period v.round v.step v.voter)

-- A vote that is let in is one of its voter's votes in its step from then on, if the step is there.
pub insert_unique_voter_accepts :
    (v : PbftVote) (s : VerifiedVotes) {step : StepVotes}
    → get_step_votes v.period v.round v.step s ≡ some step
    → (insert_unique_voter v s).1 ≡ none
    → HasHash v.hash (own_votes v (insert_unique_voter v s).0)
unfolding own_votes
insert_unique_voter_accepts v s h c = elim (insert_unique_voter-Checked v s) [
  | no_step e _ _ ↦ absurd (ground arith)
  | kept (first, second) found n c' e ↦ rw e (
      subst (λ o. HasHash v.hash (votes_of o)) (sym found)
        (check_voter_knows v first second n (sym c' ∙ c)))
  | entered step e h' from to _ ↦ rw to (
      subst (λ o. HasHash v.hash (votes_of o)) (sym (find_voter-store_step_self v e s step h'))
        (entered_has v e step from))
]
