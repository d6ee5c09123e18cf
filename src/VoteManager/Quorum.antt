-- ===== src/VoteManager/Quorum.antt =====
-- VoteManager::getPbftTwoTPlusOne: its value for the stake of a period, with what is cached.
use rustaxa.Common.{
  ℕ, ◌≡◌, sym, subst, inl, inr, not, ◌&&◌, some, arith, ◌==◌, Bool-cases, Option-cases,
}
use rustaxa.Common.Map.{Map, lookup, lookup-put}
use rustaxa.Vote.{PbftVoteTypes}
use rustaxa.VoteManager.{
  PbftConfig, Chain, VoteManager, two_t_plus_one, get_pbft_sortition_threshold,
  compute_two_t_plus_one, cached_two_t_plus_one, get_pbft_two_t_plus_one, vote_type_code,
}
use rustaxa.VoteManager.Threshold.{cache_cases, vote_type_code-injective}

module _ (config : PbftConfig) (stake : ℕ → ℕ) where
  -- What a call reads of the chain: the configuration, and for each period that is not ahead of the
  -- final chain the stake of that period.
  pub record Agrees (c : Chain) : Type 0 where
    pub config_eq : c.config ≡ config
    pub stake_eq :
        (period count : ℕ) → c.dpos_total_votes_count period ≡ some count → count ≡ stake period

  abbrev pub threshold : ℕ → PbftVoteTypes → ℕ
  threshold period type = two_t_plus_one (get_pbft_sortition_threshold config (stake period) type)

  -- The cached values are those of the stake.
  abbrev pub IsCached : Map (ℕ × ℕ) → Type 0
  IsCached cache =
      (type : PbftVoteTypes) (period value : ℕ)
      → lookup (vote_type_code type) cache ≡ some (period, value)
      → value ≡ threshold period type

  compute_two_t_plus_one_lem :
      (c : Chain) (period : ℕ) (type : PbftVoteTypes) {value : ℕ}
      → Agrees c
      → compute_two_t_plus_one c period type ≡ some value
      → value ≡ threshold period type
  unfolding compute_two_t_plus_one
  compute_two_t_plus_one_lem c period type a h =
      elim (Option-cases (c.dpos_total_votes_count period)) [
        | inl e ↦ absurd (ground arith)
        | inr (count, e) ↦
            let same = a.stake_eq period count e in let config_same = a.config_eq in ground arith
      ]

  pub get_pbft_two_t_plus_one_threshold :
      (c : Chain) (period : ℕ) (type : PbftVoteTypes) (m : VoteManager) {value : ℕ}
      → Agrees c
      → IsCached m.current_two_t_plus_one
      → (get_pbft_two_t_plus_one c period type m).1 ≡ some value
      → value ≡ threshold period type
  unfolding get_pbft_two_t_plus_one cached_two_t_plus_one
  get_pbft_two_t_plus_one_threshold c period type m {value} a right h =
      elim (Option-cases (lookup (vote_type_code type) m.current_two_t_plus_one)) [
        | inl e ↦ compute_two_t_plus_one_lem c period type a (ground arith)
        | inr ((p, v), e) ↦ elim (Bool-cases (period == p && not (v == 0))) [
          | inl hit ↦
              let cached = right type p v e in
              let same : period ≡ p = ground arith in
              subst (λ x. value ≡ threshold x type) (sym same) (ground arith)
          | inr miss ↦ compute_two_t_plus_one_lem c period type a (ground arith)
        ]
      ]

  pub get_pbft_two_t_plus_one-IsCached :
      (c : Chain) (period : ℕ) (type : PbftVoteTypes) (m : VoteManager)
      → Agrees c
      → IsCached m.current_two_t_plus_one
      → IsCached (get_pbft_two_t_plus_one c period type m).0.current_two_t_plus_one
  get_pbft_two_t_plus_one-IsCached c period type m a right type' p v =
      elim (cache_cases c period type m) [
        | inl e ↦ rw e (right type' p v)
        | inr (value, f, e) ↦ rw e λ found.
            elim (Bool-cases (vote_type_code type == vote_type_code type')) [
              | inl same ↦
                  let t : type ≡ type' = vote_type_code-injective type type' (ground arith) in
                  let at =
                    lookup-put (vote_type_code type) (vote_type_code type') (period, value)
                      m.current_two_t_plus_one in
                  let p_same : period ≡ p = ground arith in
                  let v_same : value ≡ v = ground arith in
                  rw (← t, ← p_same, ← v_same) (compute_two_t_plus_one_lem c period type a f)
              | inr other ↦ right type' p v (
                  ground (
                    arith,
                    lookup-put (vote_type_code type) (vote_type_code type') (period, value)
                        m.current_two_t_plus_one,
                  ))
            ]
      ]
