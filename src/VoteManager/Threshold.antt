-- ===== src/VoteManager/Threshold.antt =====
-- VoteManager::getPbftTwoTPlusOne: the 2t+1 threshold and its cache.
use rustaxa.Common.{
  ℕ, ◌+◌, ◌/◌, ◌^◌, ◌≤◌, ◌<◌, ◌≡◌, ◌⊎◌, inl, inr, Option, none, some, arith, ◌==◌, Bool-cases,
  Option-cases,
}
use rustaxa.Common.Map.{put, lookup, lookup-put}
use rustaxa.Vote.{PbftVoteTypes}
use rustaxa.VoteManager.{
  Chain, VoteManager, two_t_plus_one, compute_two_t_plus_one, cached_two_t_plus_one,
  get_pbft_two_t_plus_one, vote_type_code,
}

-- Two sets of votes of at least 2t+1 out of n, which is below 2^63, have together more than n + n / 3
-- votes: they share more than a third of n.
pub two_t_plus_one_overlap :
    (n a b : ℕ) → n < 2 ^ 63 → two_t_plus_one n ≤ a → two_t_plus_one n ≤ b → n + n / 3 < a + b
unfolding two_t_plus_one
two_t_plus_one_overlap n a b small h k = omega arith

-- The entries of the cache are what the stake gives.
abbrev pub IsCoherent : Chain → VoteManager → Type 0
IsCoherent c m =
    (type : PbftVoteTypes) (period value : ℕ)
    → lookup (vote_type_code type) m.current_two_t_plus_one ≡ some (period, value)
    → compute_two_t_plus_one c period type ≡ some value

pub cached-compute :
    (c : Chain) (period : ℕ) (type : PbftVoteTypes) (e : Option (ℕ × ℕ)) {value : ℕ}
    → ((p v : ℕ) → e ≡ some (p, v) → compute_two_t_plus_one c p type ≡ some v)
    → cached_two_t_plus_one period e ≡ some value
    → compute_two_t_plus_one c period type ≡ some value
unfolding cached_two_t_plus_one
cached-compute c period type none h e = absurd (ground arith)
cached-compute c period type (some (p, v)) h e = ground (arith, h p v)

get_pbft_value :
    (c : Chain) (period : ℕ) (type : PbftVoteTypes) (m : VoteManager)
    → IsCoherent c m
    → (get_pbft_two_t_plus_one c period type m).1 ≡ compute_two_t_plus_one c period type
unfolding get_pbft_two_t_plus_one
get_pbft_value c period type m h =
    let e = lookup (vote_type_code type) m.current_two_t_plus_one in
    elim (Option-cases (cached_two_t_plus_one period e)) [
      | inl miss ↦ ground arith
      | inr (value, hit) ↦
          let right = cached-compute c period type e {value = value} (h type) hit in ground arith
    ]

-- Different types have different numbers.
pub vote_type_code-injective : (a b : PbftVoteTypes) → vote_type_code a ≡ vote_type_code b → a ≡ b
unfolding vote_type_code
vote_type_code-injective a b h = ground arith

pub cache_cases :
    (c : Chain) (period : ℕ) (type : PbftVoteTypes) (m : VoteManager)
    → ((get_pbft_two_t_plus_one c period type m).0 ≡ m)
      ⊎ (value : ℕ) × (compute_two_t_plus_one c period type ≡ some value)
        × ((get_pbft_two_t_plus_one c period type m).0.current_two_t_plus_one
            ≡ put (vote_type_code type) (period, value) m.current_two_t_plus_one)
unfolding get_pbft_two_t_plus_one
cache_cases c period type m =
    let e = lookup (vote_type_code type) m.current_two_t_plus_one in
    elim (Option-cases (cached_two_t_plus_one period e)) [
      | inr (value, hit) ↦ inl (ground arith)
      | inl miss ↦ elim (Option-cases (compute_two_t_plus_one c period type)) [
        | inl f ↦ inl (ground arith)
        | inr (value, f) ↦ elim (Bool-cases (period == c.pbft_chain_size)) [
          | inl g ↦ inr (value, f, ground arith)
          | inr g ↦ inl (ground arith)
        ]
      ]
    ]

get_pbft-IsCoherent :
    (c : Chain) (period : ℕ) (type : PbftVoteTypes) (m : VoteManager)
    → IsCoherent c m
    → IsCoherent c (get_pbft_two_t_plus_one c period type m).0
get_pbft-IsCoherent c period type m h type' p v = elim (cache_cases c period type m) [
  | inl e ↦ rw e (h type' p v)
  | inr (value, f, e) ↦ rw e λ found.
      elim (Bool-cases (vote_type_code type == vote_type_code type')) [
        | inl same ↦
            let t : type ≡ type' = vote_type_code-injective type type' (ground arith) in
            rw (← t) (
              ground (
                arith,
                lookup-put (vote_type_code type) (vote_type_code type') (period, value)
                    m.current_two_t_plus_one,
              ))
        | inr other ↦ h type' p v (
            ground (
              arith,
              lookup-put (vote_type_code type) (vote_type_code type') (period, value)
                  m.current_two_t_plus_one,
            ))
      ]
]

-- With a coherent cache the answer is the one that the stake gives, and the cache stays coherent.
pub get_pbft_two_t_plus_one_lem :
    (c : Chain) (period : ℕ) (type : PbftVoteTypes) (m : VoteManager)
    → IsCoherent c m
    → ((get_pbft_two_t_plus_one c period type m).1 ≡ compute_two_t_plus_one c period type)
      × IsCoherent c (get_pbft_two_t_plus_one c period type m).0
get_pbft_two_t_plus_one_lem c period type m h =
    (get_pbft_value c period type m h, get_pbft-IsCoherent c period type m h)
