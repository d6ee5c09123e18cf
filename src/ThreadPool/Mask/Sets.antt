-- ===== src/ThreadPool/Mask/Sets.antt =====
-- Sets of packet ids by a key: an id is put in and dropped again.
use rustaxa.Common.{
  ℕ, suc, ◌+◌, ◌≤◌, ◌<◌, ◌≡◌, refl, subst, inl, inr, true, false, ◌&&◌, none, some, [], ◌∷◌, arith,
  ltb, ◌==◌, if◌then◌else◌, ltb→lt, Bool-cases, Option-cases, length,
}
use rustaxa.Common.Map.{Map, lookup, contains, put, erase, lookup-put, lookup-erase}
use rustaxa.Common.Map.Sorted.{From, IsSorted, From-weaken, put-From, lookup_below}
use rustaxa.ThreadPool.Mask.{IdSet, or_empty, drop_id}

-- 1 if the id is in the set of the key.
unfoldable pub in_set : Map IdSet → ℕ → ℕ → ℕ
unfolding contains lookup
in_set m key id = if contains id (or_empty (lookup key m)) then 1 else 0

-- No set is empty, and all are in order.
pub record IsProper (m : Map IdSet) : Type 0 where
  pub filled : (key : ℕ) (s : IdSet) → lookup key m ≡ some s → 0 < length s
  pub sorted : (key : ℕ) (s : IdSet) → lookup key m ≡ some s → IsSorted s

erase_absent : (k : ℕ) (s : IdSet) → lookup k s ≡ none → erase k s ≡ s
unfolding lookup erase
erase_absent k [] h = refl
erase_absent k ((j, u) ∷ s) h = ground (arith, erase_absent k s)

pub erase-From : (lo k : ℕ) (s : IdSet) → From lo s → From lo (erase k s)
unfolding erase
erase-From lo k [] f = tt
erase-From lo k ((j, u) ∷ s) f = elim (Bool-cases (j == k)) [
  | inl e ↦
      rw e (From-weaken (suc j) lo (erase k s) (omega (arith, f.0)) (erase-From (suc j) k s f.1))
  | inr e ↦ rw e (f.0, erase-From (suc j) k s f.1)
]

length-erase : (lo k : ℕ) (s : IdSet) → From lo s → length s ≤ suc (length (erase k s))
unfolding erase
length-erase lo k [] f = omega arith
length-erase lo k ((j, u) ∷ s) f = elim (Bool-cases (j == k)) [
  | inl e ↦
      let gone = erase_absent k s (lookup_below (suc j) k s f.1 (ground arith)) in
      rw (e, gone) (omega arith)
  | inr e ↦ rw e (omega (arith, length-erase (suc j) k s f.1))
]

-- The only id.
contains_one :
    (s : IdSet) (id i : ℕ) → length s ≤ 1 → contains id s ≡ true → contains i s ≡ (id == i)
unfolding contains lookup
contains_one [] id i h c = absurd (ground arith)
contains_one ((j, u) ∷ []) id i h c = ground arith
contains_one ((j, u) ∷ (k, v) ∷ s) id i h c = absurd (omega arith)

pub in_set-put :
    (key id key' id' : ℕ) (m : Map IdSet)
    → contains id (or_empty (lookup key m)) ≡ false
    → in_set (put key (put id tt (or_empty (lookup key m))) m) key' id'
      ≡ in_set m key' id' + (if key == key' && id == id' then 1 else 0)
unfolding in_set contains
in_set-put key id key' id' m h =
    let s = or_empty (lookup key m) in
    ground (arith, lookup-put key key' (put id tt s) m, lookup-put id id' tt s)

pub in_set-drop_id :
    (key id key' id' : ℕ) (s : IdSet) (m : Map IdSet)
    → lookup key m ≡ some s
    → contains id s ≡ true
    → in_set m key' id'
      ≡ in_set (drop_id key id s m) key' id' + (if key == key' && id == id' then 1 else 0)
unfolding in_set drop_id contains
in_set-drop_id key id key' id' s m e h = elim (Bool-cases (ltb 1 (length s))) [
  | inl f ↦ ground (arith, lookup-put key key' (erase id s) m, lookup-erase id id' s)
  | inr f ↦ ground (arith, lookup-erase key key' m, contains_one s id id' (ground arith) h)
]

length-put : (k : ℕ) (s : IdSet) → 0 < length (put k tt s)
unfolding put
length-put k [] = omega arith
length-put k ((j, u) ∷ s) = ground arith

pub put-IsProper :
    (key id : ℕ) (m : Map IdSet)
    → IsProper m
    → IsProper (put key (put id tt (or_empty (lookup key m))) m)
put-IsProper key id m p =
    let s = or_empty (lookup key m) in
    let sorted_there : IsSorted s = elim (Option-cases (lookup key m)) [
      | inl e ↦ rw e tt
      | inr (t, e) ↦ rw e (p.sorted key t e)
    ] in
    record {
      filled = λ k t e. elim (Bool-cases (key == k)) [
        | inl f ↦
            let eq : put id tt s ≡ t = ground (arith, lookup-put key k (put id tt s) m) in
            subst (λ x. 0 < length x) eq (length-put id s)
        | inr f ↦ p.filled k t (ground (arith, lookup-put key k (put id tt s) m))
      ];
      sorted = λ k t e. elim (Bool-cases (key == k)) [
        | inl f ↦
            let eq : put id tt s ≡ t = ground (arith, lookup-put key k (put id tt s) m) in
            subst (λ x. IsSorted x) eq (put-From 0 id tt s (omega arith) sorted_there)
        | inr f ↦ p.sorted k t (ground (arith, lookup-put key k (put id tt s) m))
      ];
    }

pub drop_id-IsProper :
    (key id : ℕ) (s : IdSet) (m : Map IdSet)
    → lookup key m ≡ some s
    → IsProper m
    → IsProper (drop_id key id s m)
unfolding drop_id
drop_id-IsProper key id s m e p = elim (Bool-cases (ltb 1 (length s))) [
  | inr f ↦ rw f (record {
    filled = λ k t g. p.filled k t (ground (arith, lookup-erase key k m));
    sorted = λ k t g. p.sorted k t (ground (arith, lookup-erase key k m));
  })
  | inl f ↦ rw f (record {
    filled = λ k t g. elim (Bool-cases (key == k)) [
      | inl l ↦
          let eq : erase id s ≡ t = ground (arith, lookup-put key k (erase id s) m) in
          subst (λ x. 0 < length x) eq
            (omega (arith, length-erase 0 id s (p.sorted key s e), ltb→lt 1 (length s) f))
      | inr l ↦ p.filled k t (ground (arith, lookup-put key k (erase id s) m))
    ];
    sorted = λ k t g. elim (Bool-cases (key == k)) [
      | inl l ↦
          let eq : erase id s ≡ t = ground (arith, lookup-put key k (erase id s) m) in
          subst (λ x. IsSorted x) eq (erase-From 0 id s (p.sorted key s e))
      | inr l ↦ p.sorted k t (ground (arith, lookup-put key k (erase id s) m))
    ];
  })
]

-- A key is there exactly if its set has an id.
pub contains-in_set : (key id : ℕ) (m : Map IdSet) → in_set m key id ≡ 1 → contains key m ≡ true
unfolding in_set contains lookup
contains-in_set key id m h = elim (Option-cases (lookup key m)) [
  | inl e ↦ absurd (ground arith)
  | inr (s, e) ↦ ground arith
]

pub some_id :
    (key : ℕ) (m : Map IdSet)
    → IsProper m
    → contains key m ≡ true
    → (id : ℕ) × (in_set m key id ≡ 1)
unfolding in_set contains lookup
some_id key m p h = elim (Option-cases (lookup key m)) [
  | inl e ↦ absurd (ground arith)
  | inr ([], e) ↦ absurd (omega (arith, p.filled key [] e))
  | inr ((j, u) ∷ s, e) ↦ (j, ground arith)
]
