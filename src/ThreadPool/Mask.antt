-- ===== src/ThreadPool/Mask.antt =====
-- network/threadpool/packets_blocking_mask.cpp: which packets must wait for others.
pub mod Sets
use rustaxa.Common.{
  ℕ, zero, suc, ◌+◌, ◌-◌, ◌*◌, ◌/◌, ◌%◌, ◌^◌, ◌≤◌, ◌<◌, max, min, ◌≡◌, refl, sym, ap, subst, ◌∙◌,
  ◌≢◌, ◌↔◌, ◌⊎◌, inl, inr, Bool, true, false, not, ◌&&◌, ◌||◌, Option, none, some, List, [], ◌∷◌,
  ◌++◌, map, arith, ltb, leb, ◌==◌, if◌then◌else◌, ltb→lt, ==_iff, Bool-cases, Option-cases, u64,
  length, All, length-append, total,
}
use rustaxa.Common.Outcome.{Outcome, done, fault, ◌>>=◌, ◌>>◌, deref, assert}
use rustaxa.Common.Map.{Map, lookup, contains, put, erase}
use rustaxa.ThreadPool.Packet.{
  SubprotocolPacketType, dag_block_packet, dag_sync_packet, transaction_packet, pbft_sync_packet,
  get_dag_sync_packet, get_pbft_sync_packet, get_pillar_votes_bundle_packet,
  pillar_votes_bundle_packet, pbft_blocks_bundle_packet, packet_code, DagHeader, PacketData,
}

-- A set of packet ids.
abbrev pub IdSet : Type 0
IdSet = Map (Unit {0})

-- The maps by packet type have the number of the type for their keys.
pub record PacketsBlockingMask : Type 0 where
  pub hard_blocked_packet_types : Map IdSet
  pub peer_order_blocked_packet_types : Map (Map IdSet)
  pub processing_dag_levels : Map IdSet
  pub processing_dag_blocks : Map ℕ

-- `map[key]`, where a missing entry is made empty.
abbrev pub or_empty {ℓ} : {V : Type ℓ} → Option (Map V) → Map V
or_empty none = []
or_empty (some s) = s

-- The entry of a key without one id: gone with its last id.
unfoldable pub drop_id : ℕ → ℕ → IdSet → Map IdSet → Map IdSet
drop_id key id set m = if ltb 1 (length set) then put key (erase id set) m else erase key m

unfoldable pub mark_packet_as_hard_blocked :
    PacketData → SubprotocolPacketType → PacketsBlockingMask → Outcome PacketsBlockingMask
unfolding packet_code
mark_packet_as_hard_blocked p type m =
    let set = or_empty (lookup (packet_code type) m.hard_blocked_packet_types) in
    do
      assert (not (contains p.id set))
      done (record m {
        hard_blocked_packet_types =
            put (packet_code type) (put p.id tt set) m.hard_blocked_packet_types;
      })

unfoldable pub mark_packet_as_hard_unblocked :
    PacketData → SubprotocolPacketType → PacketsBlockingMask → Outcome PacketsBlockingMask
unfolding packet_code drop_id
mark_packet_as_hard_unblocked p type m = do
  set ← deref (lookup (packet_code type) m.hard_blocked_packet_types)
  assert (contains p.id set)
  done (record m {
    hard_blocked_packet_types = drop_id (packet_code type) p.id set m.hard_blocked_packet_types;
  })

unfoldable pub mark_packet_as_peer_order_blocked :
    PacketData → SubprotocolPacketType → PacketsBlockingMask → Outcome PacketsBlockingMask
unfolding packet_code
mark_packet_as_peer_order_blocked p type m =
    let peers = or_empty (lookup (packet_code type) m.peer_order_blocked_packet_types) in
    let set = or_empty (lookup p.from_node_id peers) in
    do
      assert (not (contains p.id set))
      done (record m {
        peer_order_blocked_packet_types =
            put (packet_code type) (put p.from_node_id (put p.id tt set) peers)
              m.peer_order_blocked_packet_types;
      })

-- The entry of the type stays, with no peer left in it.
unfoldable pub mark_packet_as_peer_order_unblocked :
    PacketData → SubprotocolPacketType → PacketsBlockingMask → Outcome PacketsBlockingMask
unfolding packet_code drop_id
mark_packet_as_peer_order_unblocked p type m = do
  peers ← deref (lookup (packet_code type) m.peer_order_blocked_packet_types)
  set ← deref (lookup p.from_node_id peers)
  assert (contains p.id set)
  done (record m {
    peer_order_blocked_packet_types =
        put (packet_code type) (drop_id p.from_node_id p.id set peers)
          m.peer_order_blocked_packet_types;
  })

abbrev pub first_key {ℓ} : {V : Type ℓ} → Map V → Option ℕ
first_key [] = none
first_key ((k, _) ∷ _) = some k

unfoldable pub get_smallest_dag_level_being_processed : PacketsBlockingMask → Option ℕ
get_smallest_dag_level_being_processed m = first_key m.processing_dag_levels

unfoldable pub set_dag_block_being_processed :
    PacketData → PacketsBlockingMask → Outcome PacketsBlockingMask
set_dag_block_being_processed p m = do
  b ← deref p.dag_block
  assert (not (contains b.signature m.processing_dag_blocks))
  done (record m { processing_dag_blocks = put b.signature p.id m.processing_dag_blocks })

unfoldable pub unset_dag_block_being_processed :
    PacketData → PacketsBlockingMask → Outcome PacketsBlockingMask
unset_dag_block_being_processed p m = do
  b ← deref p.dag_block
  assert (contains b.signature m.processing_dag_blocks)
  done (record m { processing_dag_blocks = erase b.signature m.processing_dag_blocks })

abbrev pub no_lower : ℕ → Option ℕ → Bool
no_lower level none = true
no_lower level (some smallest) = leb level smallest

unfoldable pub set_dag_block_level_being_processed :
    PacketData → PacketsBlockingMask → Outcome PacketsBlockingMask
unfolding get_smallest_dag_level_being_processed
set_dag_block_level_being_processed p m = do
  b ← deref p.dag_block
  assert (no_lower b.level (get_smallest_dag_level_being_processed m))
  let set : IdSet = or_empty (lookup b.level m.processing_dag_levels)
  assert (not (contains p.id set))
  done (record m { processing_dag_levels = put b.level (put p.id tt set) m.processing_dag_levels })

unfoldable pub unset_dag_block_level_being_processed :
    PacketData → PacketsBlockingMask → Outcome PacketsBlockingMask
unfolding drop_id
unset_dag_block_level_being_processed p m = do
  b ← deref p.dag_block
  set ← deref (lookup b.level m.processing_dag_levels)
  assert (contains p.id set)
  done (record m { processing_dag_levels = drop_id b.level p.id set m.processing_dag_levels })

unfoldable pub is_packet_hard_blocked : PacketData → PacketsBlockingMask → Bool
unfolding packet_code
is_packet_hard_blocked p m = contains (packet_code p.type) m.hard_blocked_packet_types

unfoldable pub is_dag_block_packet_blocked_by_same_dag_block :
    PacketData → PacketsBlockingMask → Outcome Bool
is_dag_block_packet_blocked_by_same_dag_block p m = do
  b ← deref p.dag_block
  done (contains b.signature m.processing_dag_blocks)

unfoldable pub is_dag_block_packet_blocked_by_level :
    PacketData → PacketsBlockingMask → Outcome Bool
unfolding get_smallest_dag_level_being_processed
is_dag_block_packet_blocked_by_level p m = elim (get_smallest_dag_level_being_processed m) [
  | none ↦ done false
  | some smallest ↦ do b ← deref p.dag_block; done (ltb smallest b.level)
]

unfoldable pub is_packet_peer_order_blocked : PacketData → PacketsBlockingMask → Outcome Bool
unfolding packet_code
is_packet_peer_order_blocked p m =
    elim (lookup (packet_code p.type) m.peer_order_blocked_packet_types) [
      | none ↦ done false
      | some peers ↦ elim (lookup p.from_node_id peers) [
        | none ↦ done false
        | some set ↦ do
          smallest ← deref (first_key set)
          if ltb smallest p.id then done true else do assert (not (p.id == smallest)); done false
      ]
    ]

-- The checks for one packet type: the DAG block and the PBFT blocks bundle.
unfoldable pub is_packet_type_blocked : Bool → PacketData → PacketsBlockingMask → Outcome Bool
unfolding packet_code is_dag_block_packet_blocked_by_level
    is_dag_block_packet_blocked_by_same_dag_block
is_packet_type_blocked sync_queue_empty p m =
    if packet_code p.type == packet_code dag_block_packet
    then (do
      by_level ← is_dag_block_packet_blocked_by_level p m
      if by_level then done true else is_dag_block_packet_blocked_by_same_dag_block p m)
    else if packet_code p.type == packet_code pbft_blocks_bundle_packet
    then done (not sync_queue_empty)
    else done false

-- `sync_queue_empty` is `pbft_mgr_->periodDataQueueEmpty()`.
unfoldable pub is_packet_blocked : Bool → PacketData → PacketsBlockingMask → Outcome Bool
unfolding is_packet_hard_blocked is_packet_type_blocked is_packet_peer_order_blocked
is_packet_blocked sync_queue_empty p m = if is_packet_hard_blocked p m then done true else do
  by_type ← is_packet_type_blocked sync_queue_empty p m
  if by_type then done true else is_packet_peer_order_blocked p m
