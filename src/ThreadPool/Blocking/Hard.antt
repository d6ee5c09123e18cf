-- ===== src/ThreadPool/Blocking/Hard.antt =====
-- How each call of the mask changes the sets of hard blocks.
use rustaxa.Common.{ℕ, ◌+◌, ◌≡◌, inl, inr, arith, ◌==◌, if◌then◌else◌, Bool-cases, Option-cases}
use rustaxa.Common.Outcome.{done}
use rustaxa.Common.Map.{Map, lookup, contains, put}
use rustaxa.ThreadPool.Packet.{SubprotocolPacketType, packet_code, PacketData}
use rustaxa.ThreadPool.Mask.{
  IdSet, or_empty, no_lower, drop_id, get_smallest_dag_level_being_processed, PacketsBlockingMask,
  mark_packet_as_hard_blocked, mark_packet_as_hard_unblocked, mark_packet_as_peer_order_blocked,
  mark_packet_as_peer_order_unblocked, set_dag_block_being_processed,
  unset_dag_block_being_processed, set_dag_block_level_being_processed,
  unset_dag_block_level_being_processed,
}
use rustaxa.ThreadPool.Mask.Sets.{
  in_set, IsProper, in_set-put, in_set-drop_id, put-IsProper, drop_id-IsProper,
}

abbrev pub hard_of : PacketsBlockingMask → Map IdSet
hard_of m = m.hard_blocked_packet_types

-- The ids of `m'` are those of `m` and `id`, under each type as often as `count` tells.
abbrev pub HasMore : (ℕ → ℕ) → ℕ → PacketsBlockingMask → PacketsBlockingMask → Type 0
HasMore count id m m' =
    (code i : ℕ)
    → in_set (hard_of m') code i ≡ in_set (hard_of m) code i + (if id == i then count code else 0)

abbrev pub KeepsProper : PacketsBlockingMask → PacketsBlockingMask → Type 0
KeepsProper m m' = IsProper (hard_of m) → IsProper (hard_of m')

-- A call that adds the id, and one that drops it.
pub record Adds (count : ℕ → ℕ) (id : ℕ) (m m' : PacketsBlockingMask) : Type 0 where
  pub more : HasMore count id m m'
  pub proper : KeepsProper m m'

pub record Drops (count : ℕ → ℕ) (id : ℕ) (m m' : PacketsBlockingMask) : Type 0 where
  pub more : HasMore count id m' m
  pub proper : KeepsProper m m'

unfoldable pub one : SubprotocolPacketType → ℕ → ℕ
one type code = if packet_code type == code then 1 else 0

abbrev pub zeros : ℕ → ℕ
zeros code = 0

abbrev pub sum : (ℕ → ℕ) → (ℕ → ℕ) → ℕ → ℕ
sum f g code = f code + g code

pub Adds-trans :
    (f g : ℕ → ℕ) (id : ℕ) (a b c : PacketsBlockingMask)
    → Adds f id a b
    → Adds g id b c
    → Adds (sum f g) id a c
Adds-trans f g id a b c h k = record {
  more = λ code i. ground (arith, h.more code i, k.more code i);
  proper = λ p. k.proper (h.proper p);
}

pub Drops-trans :
    (f g : ℕ → ℕ) (id : ℕ) (a b c : PacketsBlockingMask)
    → Drops f id a b
    → Drops g id b c
    → Drops (sum f g) id a c
Drops-trans f g id a b c h k = record {
  more = λ code i. ground (arith, h.more code i, k.more code i);
  proper = λ p. k.proper (h.proper p);
}

abbrev pub SameHard : PacketsBlockingMask → PacketsBlockingMask → Type 0
SameHard m m' = hard_of m' ≡ hard_of m

pub SameHard-Adds : (id : ℕ) (m m' : PacketsBlockingMask) → SameHard m m' → Adds zeros id m m'
SameHard-Adds id m m' e = record { more = λ code i. ground arith; proper = λ p. rw e p }

pub SameHard-Drops : (id : ℕ) (m m' : PacketsBlockingMask) → SameHard m m' → Drops zeros id m m'
SameHard-Drops id m m' e = record { more = λ code i. ground arith; proper = λ p. rw e p }

pub hard_blocked-Adds :
    (p : PacketData) (type : SubprotocolPacketType) (m : PacketsBlockingMask)
    {m' : PacketsBlockingMask}
    → mark_packet_as_hard_blocked p type m ≡ done m'
    → Adds (one type) p.id m m'
unfolding mark_packet_as_hard_blocked one
hard_blocked-Adds p type m {m'} h =
    let k = packet_code type in
    let s = or_empty (lookup k (hard_of m)) in
    elim (Bool-cases (contains p.id s)) [
      | inl e ↦ absurd (ground arith)
      | inr e ↦
          let to : hard_of m' ≡ put k (put p.id tt s) (hard_of m) = ground arith in
          record {
            more = λ code i. ground (arith, in_set-put k p.id code i (hard_of m) e);
            proper = λ q. rw to (put-IsProper k p.id (hard_of m) q);
          }
    ]

pub hard_unblocked-Drops :
    (p : PacketData) (type : SubprotocolPacketType) (m : PacketsBlockingMask)
    {m' : PacketsBlockingMask}
    → mark_packet_as_hard_unblocked p type m ≡ done m'
    → Drops (one type) p.id m m'
unfolding mark_packet_as_hard_unblocked one
hard_unblocked-Drops p type m {m'} h =
    let k = packet_code type in
    elim (Option-cases (lookup k (hard_of m))) [
      | inl f ↦ absurd (ground arith)
      | inr (s, f) ↦ elim (Bool-cases (contains p.id s)) [
        | inr e ↦ absurd (ground arith)
        | inl e ↦
            let to : hard_of m' ≡ drop_id k p.id s (hard_of m) = ground arith in
            record {
              more = λ code i. ground (arith, in_set-drop_id k p.id code i s (hard_of m) f e);
              proper = λ q. rw to (drop_id-IsProper k p.id s (hard_of m) f q);
            }
      ]
    ]

-- The other calls leave the hard blocks.

pub peer_order_blocked-SameHard :
    (p : PacketData) (type : SubprotocolPacketType) (m : PacketsBlockingMask)
    {m' : PacketsBlockingMask}
    → mark_packet_as_peer_order_blocked p type m ≡ done m'
    → SameHard m m'
unfolding mark_packet_as_peer_order_blocked
peer_order_blocked-SameHard p type m h =
    let peers = or_empty (lookup (packet_code type) m.peer_order_blocked_packet_types) in
    elim (Bool-cases (contains p.id (or_empty (lookup p.from_node_id peers)))) [
      | inl e ↦ absurd (ground arith)
      | inr e ↦ ground arith
    ]

pub peer_order_unblocked-SameHard :
    (p : PacketData) (type : SubprotocolPacketType) (m : PacketsBlockingMask)
    {m' : PacketsBlockingMask}
    → mark_packet_as_peer_order_unblocked p type m ≡ done m'
    → SameHard m m'
unfolding mark_packet_as_peer_order_unblocked
peer_order_unblocked-SameHard p type m h =
    elim (Option-cases (lookup (packet_code type) m.peer_order_blocked_packet_types)) [
      | inl f ↦ absurd (ground arith)
      | inr (peers, f) ↦ elim (Option-cases (lookup p.from_node_id peers)) [
        | inl g ↦ absurd (ground arith)
        | inr (s, g) ↦ elim (Bool-cases (contains p.id s)) [
          | inl e ↦ ground arith
          | inr e ↦ absurd (ground arith)
        ]
      ]
    ]

pub set_dag_block-SameHard :
    (p : PacketData) (m : PacketsBlockingMask) {m' : PacketsBlockingMask}
    → set_dag_block_being_processed p m ≡ done m'
    → SameHard m m'
unfolding set_dag_block_being_processed
set_dag_block-SameHard p m h = elim (Option-cases p.dag_block) [
  | inl f ↦ absurd (ground arith)
  | inr (b, f) ↦ elim (Bool-cases (contains b.signature m.processing_dag_blocks)) [
    | inl e ↦ absurd (ground arith)
    | inr e ↦ ground arith
  ]
]

pub unset_dag_block-SameHard :
    (p : PacketData) (m : PacketsBlockingMask) {m' : PacketsBlockingMask}
    → unset_dag_block_being_processed p m ≡ done m'
    → SameHard m m'
unfolding unset_dag_block_being_processed
unset_dag_block-SameHard p m h = elim (Option-cases p.dag_block) [
  | inl f ↦ absurd (ground arith)
  | inr (b, f) ↦ elim (Bool-cases (contains b.signature m.processing_dag_blocks)) [
    | inl e ↦ ground arith
    | inr e ↦ absurd (ground arith)
  ]
]

pub set_dag_level-SameHard :
    (p : PacketData) (m : PacketsBlockingMask) {m' : PacketsBlockingMask}
    → set_dag_block_level_being_processed p m ≡ done m'
    → SameHard m m'
unfolding set_dag_block_level_being_processed
set_dag_level-SameHard p m h = elim (Option-cases p.dag_block) [
  | inl f ↦ absurd (ground arith)
  | inr (b, f) ↦ elim (Bool-cases (no_lower b.level (get_smallest_dag_level_being_processed m))) [
    | inr g ↦ absurd (ground arith)
    | inl g ↦
        elim (Bool-cases (contains p.id (or_empty (lookup b.level m.processing_dag_levels)))) [
          | inl e ↦ absurd (ground arith)
          | inr e ↦ ground arith
        ]
  ]
]

pub unset_dag_level-SameHard :
    (p : PacketData) (m : PacketsBlockingMask) {m' : PacketsBlockingMask}
    → unset_dag_block_level_being_processed p m ≡ done m'
    → SameHard m m'
unfolding unset_dag_block_level_being_processed
unset_dag_level-SameHard p m h = elim (Option-cases p.dag_block) [
  | inl f ↦ absurd (ground arith)
  | inr (b, f) ↦ elim (Option-cases (lookup b.level m.processing_dag_levels)) [
    | inl g ↦ absurd (ground arith)
    | inr (s, g) ↦ elim (Bool-cases (contains p.id s)) [
      | inl e ↦ ground arith
      | inr e ↦ absurd (ground arith)
    ]
  ]
]
