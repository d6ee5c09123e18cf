-- ===== src/BlockStats/Spent.antt =====
-- BlockStats: the fees that are left of the transactions.
use rustaxa.Common.{
  ℕ, ◌≡◌, subst, ap, sym, ◌∙◌, inl, inr, Bool, true, false, ◌||◌, Option, none, some, List, [], ◌∷◌,
  arith, ◌==◌, if◌then◌else◌, Bool-cases, All, ◌%◌, ◌*◌, min, refl,
}
use rustaxa.Common.Outcome.{done, Outcome-cases}
use rustaxa.Common.ListLaws.{All-map}
use rustaxa.Common.Map.{Map, lookup, emplace, lookup-put, lookup-erase}
use rustaxa.Vote.{PbftVote}
use rustaxa.Transaction.{Transaction}
use rustaxa.DagBlock.{DagBlock}
use rustaxa.BlockStats.{
  u256, BlockStats, init_fee_by_trx_hash, add_transaction, add_vote, count_dag_block,
  add_dag_transactions, process_dag_blocks, add_transactions, process_easiest,
  process_dag_blocks_aspen, min_difficulty, add_votes, process_stats, new_block_stats, no_stats,
  is_in,
}

-- The fee of a transaction is not there any more.
abbrev pub IsSpent : BlockStats → ℕ → Type 0
IsSpent s h = lookup h s.fee_by_trx_hash ≡ none

-- What was spent stays so.
pub record Spends (s s' : BlockStats) : Type 0 where
  pub kept : (h : ℕ) → IsSpent s h → IsSpent s' h

Spends-refl : (s : BlockStats) → Spends s s
Spends-refl s = record { kept = λ h e. e }

Spends-trans : {s t u : BlockStats} → Spends s t → Spends t u → Spends s u
Spends-trans p q = record { kept = λ h e. q.kept h (p.kept h e) }

Spends-All : {s t : BlockStats} (hs : List ℕ) → Spends s t → All (IsSpent s) hs → All (IsSpent t) hs
Spends-All {s} {t} hs p all = All-map (IsSpent s) (IsSpent t) hs p.kept all

add_transaction-Spends : (h a : ℕ) (s : BlockStats) → Spends s (add_transaction h a s).0
unfolding add_transaction
add_transaction-Spends h a s = record {
  kept = λ g e. ground (arith, lookup-erase h g s.fee_by_trx_hash);
}

add_transaction-IsSpent : (h a : ℕ) (s : BlockStats) → IsSpent (add_transaction h a s).0 h
unfolding add_transaction
add_transaction-IsSpent h a s = ground (arith, lookup-erase h h s.fee_by_trx_hash)

count_dag_block-Spends : (a : ℕ) (s : BlockStats) → Spends s (count_dag_block a s)
unfolding count_dag_block
count_dag_block-Spends a s = record { kept = λ h e. e }

count_if-Spends :
    (a : ℕ) (b : Bool) (s : BlockStats) → Spends s (if b then count_dag_block a s else s)
count_if-Spends a true s = count_dag_block-Spends a s
count_if-Spends a false s = Spends-refl s

-- Only transactions of the block have fees.
abbrev IsOnly : List Transaction → BlockStats → Type 0
IsOnly ts s = (h : ℕ) → is_in h ts ≡ false → IsSpent s h

add_dag_transactions-IsSpent :
    (ts : List Transaction) (a : ℕ) (hs : List ℕ) (unique : Bool) (s : BlockStats)
    → IsOnly ts s
    → Spends s (add_dag_transactions ts a hs unique s).0
      × All (IsSpent (add_dag_transactions ts a hs unique s).0) hs
unfolding add_dag_transactions
add_dag_transactions-IsSpent ts a [] unique s only = (Spends-refl s, tt)
add_dag_transactions-IsSpent ts a (h ∷ hs) unique s only = elim (Bool-cases (is_in h ts)) [
  | inl e ↦
      let first = add_transaction-Spends h a s in
      let t = (add_transaction h a s).0 in
      let u = add_dag_transactions ts a hs (unique || (add_transaction h a s).1) t in
      let (later, all) =
        add_dag_transactions-IsSpent ts a hs (unique || (add_transaction h a s).1) t
          (λ g f. first.kept g (only g f)) in
      let same : u.0 ≡ (add_dag_transactions ts a (h ∷ hs) unique s).0 = rw e refl in
      subst (λ x. Spends s x × All (IsSpent x) (h ∷ hs)) same
        (Spends-trans first later, (later.kept h (add_transaction-IsSpent h a s), all))
  | inr e ↦
      let (later, all) = add_dag_transactions-IsSpent ts a hs unique s only in
      let same : (add_dag_transactions ts a hs unique s).0
          ≡ (add_dag_transactions ts a (h ∷ hs) unique s).0 =
        rw e refl in
      subst (λ x. Spends s x × All (IsSpent x) (h ∷ hs)) same
        (later, (later.kept h (only h e), all))
]

abbrev pub AllSpent : BlockStats → List DagBlock → Type 0
AllSpent s bs = All (λ b. All (IsSpent s) b.trxs) bs

process_dag_blocks-AllSpent :
    (ts : List Transaction) (bs : List DagBlock) (s : BlockStats)
    → IsOnly ts s
    → Spends s (process_dag_blocks ts bs s) × AllSpent (process_dag_blocks ts bs s) bs
unfolding process_dag_blocks
process_dag_blocks-AllSpent ts [] s only = (Spends-refl s, tt)
process_dag_blocks-AllSpent ts (b ∷ bs) s only =
    let r = add_dag_transactions ts b.sender b.trxs false s in
    let (first, all) = add_dag_transactions-IsSpent ts b.sender b.trxs false s only in
    let counted = count_if-Spends b.sender r.1 r.0 in
    let (later, rest) =
      process_dag_blocks-AllSpent ts bs (if r.1 then count_dag_block b.sender r.0 else r.0)
        (λ h e. counted.kept h (first.kept h (only h e))) in
    (
      Spends-trans first (Spends-trans counted later),
      (Spends-All b.trxs (Spends-trans counted later) all, rest),
    )

add_transactions-IsSpent :
    (a : ℕ) (hs : List ℕ) (s : BlockStats)
    → Spends s (add_transactions a hs s) × All (IsSpent (add_transactions a hs s)) hs
add_transactions-IsSpent a [] s = (Spends-refl s, tt)
add_transactions-IsSpent a (h ∷ hs) s =
    let (later, all) = add_transactions-IsSpent a hs (add_transaction h a s).0 in
    (
      Spends-trans (add_transaction-Spends h a s) later,
      (later.kept h (add_transaction-IsSpent h a s), all),
    )

process_easiest-AllSpent :
    (least : ℕ) (bs : List DagBlock) (s : BlockStats)
    → Spends s (process_easiest least bs s) × AllSpent (process_easiest least bs s) bs
unfolding process_easiest
process_easiest-AllSpent least [] s = (Spends-refl s, tt)
process_easiest-AllSpent least (b ∷ bs) s =
    let t = if b.difficulty == least then count_dag_block b.sender s else s in
    let counted = count_if-Spends b.sender (b.difficulty == least) s in
    let (first, all) = add_transactions-IsSpent b.sender b.trxs t in
    let (later, rest) = process_easiest-AllSpent least bs (add_transactions b.sender b.trxs t) in
    (Spends-trans counted (Spends-trans first later), (Spends-All b.trxs later all, rest))

add_vote-Spends :
    (v : PbftVote) (s : BlockStats) {s' : BlockStats} → add_vote v s ≡ done s' → Spends s s'
unfolding add_vote
add_vote-Spends v s {s'} h = record { kept = λ g e. ground arith }

add_votes-Spends :
    (vs : List PbftVote) (s : BlockStats) {s' : BlockStats} → add_votes vs s ≡ done s' → Spends s s'
unfolding add_votes
add_votes-Spends [] s {s'} h = let to : s ≡ s' = ground arith in subst (Spends s) to (Spends-refl s)
add_votes-Spends (v ∷ vs) s h = elim (Outcome-cases (add_vote v s)) [
  | inl e ↦ absurd (ground arith)
  | inr (t, e) ↦ Spends-trans (add_vote-Spends v s e) (add_votes-Spends vs t (ground arith))
]

AllSpent-Spends :
    {s t : BlockStats} (bs : List DagBlock) → Spends s t → AllSpent s bs → AllSpent t bs
AllSpent-Spends [] p all = tt
AllSpent-Spends (b ∷ bs) p all = (Spends-All b.trxs p all.0, AllSpent-Spends bs p all.1)

lookup-emplace : (g k v : ℕ) (m : Map ℕ) → (k == g) ≡ false → lookup g (emplace k v m) ≡ lookup g m
unfolding emplace
lookup-emplace g k v m other = ground (arith, lookup-put k g v m)

lookup-init_fee_by_trx_hash :
    (g : ℕ) (ts : List Transaction) (gas : Option (List ℕ)) (m : Map ℕ) {m' : Map ℕ}
    → init_fee_by_trx_hash ts gas m ≡ done m'
    → is_in g ts ≡ false
    → lookup g m' ≡ lookup g m
unfolding init_fee_by_trx_hash
lookup-init_fee_by_trx_hash g [] gas m {m'} h out =
    let to : m ≡ m' = ground arith in ap (lookup g) (sym to)
lookup-init_fee_by_trx_hash g (t ∷ ts) none m h out =
    lookup-init_fee_by_trx_hash g ts none (emplace t.hash 0 m) h (ground arith)
    ∙ lookup-emplace g t.hash 0 m (ground arith)
lookup-init_fee_by_trx_hash g (t ∷ ts) (some []) m h out = absurd (ground arith)
lookup-init_fee_by_trx_hash g (t ∷ ts) (some (x ∷ xs)) m h out =
    lookup-init_fee_by_trx_hash g ts (some xs) (emplace t.hash (t.gas_price * x % u256) m) h
      (ground arith)
    ∙ lookup-emplace g t.hash (t.gas_price * x % u256) m (ground arith)

pub process_stats-AllSpent :
    (ts : List Transaction) (bs : List DagBlock) (vs : List PbftVote) (aspen : Bool)
    (s : BlockStats) {s' : BlockStats}
    → IsOnly ts s
    → process_stats ts bs vs aspen s ≡ done s'
    → AllSpent s' bs
unfolding process_stats process_dag_blocks_aspen
process_stats-AllSpent ts bs vs true s {s'} only h =
    let t = process_easiest (min_difficulty 65535 bs) bs s in
    AllSpent-Spends {s = t} {t = s'} bs (add_votes-Spends vs t {s' = s'} (ground arith))
      (process_easiest-AllSpent (min_difficulty 65535 bs) bs s).1
process_stats-AllSpent ts bs vs false s {s'} only h =
    let t = process_dag_blocks ts bs s in
    AllSpent-Spends {s = t} {t = s'} bs (add_votes-Spends vs t {s' = s'} (ground arith))
      (process_dag_blocks-AllSpent ts bs s only).1

pub new_block_stats-AllSpent :
    (ts : List Transaction) (bs : List DagBlock) (vs : List PbftVote) (gas : Option (List ℕ))
    (dpos_vote_count committee_size : ℕ) (aspen : Bool) {fees : Map ℕ} {s : BlockStats}
    → init_fee_by_trx_hash ts gas [] ≡ done fees
    → new_block_stats ts bs vs gas dpos_vote_count committee_size aspen ≡ done s
    → AllSpent s bs
unfolding new_block_stats lookup
new_block_stats-AllSpent ts bs vs gas n c aspen {fees} {s} e h =
    process_stats-AllSpent ts bs vs aspen (no_stats (min c n) fees) {s' = s}
      (λ g out. lookup-init_fee_by_trx_hash g ts gas [] e out) (ground arith)
