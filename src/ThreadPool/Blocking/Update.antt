-- ===== src/ThreadPool/Blocking/Update.antt =====
-- PriorityQueue::updateBlockingDependencies: its hard blocks, type by type.
use rustaxa.Common.{ℕ, ◌+◌, ◌≡◌, ◌∙◌, inl, inr, Bool, true, false, arith}
use rustaxa.Common.Outcome.{Outcome, done, ◌>>=◌, Outcome-cases}
use rustaxa.ThreadPool.Packet.{
  SubprotocolPacketType, PacketData, dag_block_packet, dag_sync_packet, transaction_packet,
  pbft_sync_packet, get_dag_sync_packet, get_pbft_sync_packet, get_pillar_votes_bundle_packet,
  pillar_votes_bundle_packet, pbft_blocks_bundle_packet, vote_packet, get_next_votes_sync_packet,
  votes_bundle_packet, status_packet, pillar_vote_packet, high_priority_packets,
  mid_priority_packets, low_priority_packets, packet_count,
}
use rustaxa.ThreadPool.Mask.{
  PacketsBlockingMask, mark_packet_as_hard_blocked, mark_packet_as_hard_unblocked,
  mark_packet_as_peer_order_blocked, mark_packet_as_peer_order_unblocked,
  set_dag_block_being_processed, unset_dag_block_being_processed,
  set_dag_block_level_being_processed, unset_dag_block_level_being_processed,
}
use rustaxa.ThreadPool.Blocking.{update_by_type}
use rustaxa.ThreadPool.Blocking.Hard.{
  Adds, Drops, one, Adds-trans, Drops-trans, SameHard, SameHard-Adds, SameHard-Drops,
  hard_blocked-Adds, hard_unblocked-Drops, peer_order_blocked-SameHard,
  peer_order_unblocked-SameHard, set_dag_block-SameHard, unset_dag_block-SameHard,
  set_dag_level-SameHard, unset_dag_level-SameHard,
}

-- The packet types that must not be processed together with a packet of a type, with their number.
unfoldable pub hard_conflict : SubprotocolPacketType → ℕ → ℕ
unfolding one
hard_conflict pbft_sync_packet code = one pbft_blocks_bundle_packet code + one pbft_sync_packet code
hard_conflict get_dag_sync_packet code = one get_dag_sync_packet code
hard_conflict get_pbft_sync_packet code = one get_pbft_sync_packet code
hard_conflict get_pillar_votes_bundle_packet code = one get_pillar_votes_bundle_packet code
hard_conflict pillar_votes_bundle_packet code = one pillar_votes_bundle_packet code
hard_conflict pbft_blocks_bundle_packet code = one pbft_blocks_bundle_packet code
hard_conflict dag_sync_packet code = one dag_sync_packet code
hard_conflict _ code = 0

abbrev Call : Type 0
Call = PacketsBlockingMask → Outcome PacketsBlockingMask

-- The result of the last call, of which something was updated or not.
abbrev result : Bool → PacketsBlockingMask → Outcome (PacketsBlockingMask × Bool)
result b x = done (x, b)

-- A call that is the last one, and one that is not.
one_call :
    (f : Call) (m : PacketsBlockingMask) {m' : PacketsBlockingMask} {b : Bool}
    → (f m >>= result true) ≡ done (m', b)
    → f m ≡ done m'
one_call f m {m'} h = elim (Outcome-cases (f m)) [
  | inl e ↦ absurd (ground arith)
  | inr (x, e) ↦ ground arith
]

two_calls :
    (f g : Call) (m : PacketsBlockingMask) {m' : PacketsBlockingMask} {b : Bool}
    → (f m >>= λ x. g x >>= result true) ≡ done (m', b)
    → (x : PacketsBlockingMask) × (f m ≡ done x) × (g x ≡ done m')
two_calls f g m {m'} {b} h = elim (Outcome-cases (f m)) [
  | inl e ↦ absurd (ground arith)
  | inr (x, e) ↦ (x, e, one_call g x {b = b} (ground arith))
]

single_Adds :
    (p : PacketData) (type : SubprotocolPacketType) (m : PacketsBlockingMask)
    {m' : PacketsBlockingMask} {b : Bool}
    → (mark_packet_as_hard_blocked p type m >>= result true) ≡ done (m', b)
    → Adds (one type) p.id m m'
single_Adds p type m h =
    hard_blocked-Adds p type m (one_call (mark_packet_as_hard_blocked p type) m h)

single_Drops :
    (p : PacketData) (type : SubprotocolPacketType) (m : PacketsBlockingMask)
    {m' : PacketsBlockingMask} {b : Bool}
    → (mark_packet_as_hard_unblocked p type m >>= result true) ≡ done (m', b)
    → Drops (one type) p.id m m'
single_Drops p type m h =
    hard_unblocked-Drops p type m (one_call (mark_packet_as_hard_unblocked p type) m h)

same_mask : (m m' : PacketsBlockingMask) {b : Bool} → result false m ≡ result b m' → SameHard m m'
same_mask m m' h = ground arith

pub update-Adds :
    (type : SubprotocolPacketType) (p : PacketData) (m : PacketsBlockingMask)
    {m' : PacketsBlockingMask} {b : Bool}
    → update_by_type false type p m ≡ done (m', b)
    → Adds (hard_conflict type) p.id m m'
unfolding update_by_type hard_conflict
update-Adds pbft_sync_packet p m {m'} h =
    let (x, f, g) =
      two_calls (mark_packet_as_hard_blocked p pbft_blocks_bundle_packet)
        (mark_packet_as_hard_blocked p pbft_sync_packet) m h in
    Adds-trans (one pbft_blocks_bundle_packet) (one pbft_sync_packet) p.id m x m'
      (hard_blocked-Adds p pbft_blocks_bundle_packet m f) (hard_blocked-Adds p pbft_sync_packet x g)
update-Adds get_dag_sync_packet p m h = single_Adds p get_dag_sync_packet m h
update-Adds get_pbft_sync_packet p m h = single_Adds p get_pbft_sync_packet m h
update-Adds get_pillar_votes_bundle_packet p m h = single_Adds p get_pillar_votes_bundle_packet m h
update-Adds pillar_votes_bundle_packet p m h = single_Adds p pillar_votes_bundle_packet m h
update-Adds pbft_blocks_bundle_packet p m h = single_Adds p pbft_blocks_bundle_packet m h
update-Adds dag_sync_packet p m {m'} h =
    let (x, f, g) =
      two_calls (mark_packet_as_hard_blocked p dag_sync_packet)
        (mark_packet_as_peer_order_blocked p dag_block_packet) m h in
    let a = hard_blocked-Adds p dag_sync_packet m f in
    let k = SameHard-Adds p.id x m' (peer_order_blocked-SameHard p dag_block_packet x g) in
    record {
      more = λ code i. ground (arith, a.more code i, k.more code i);
      proper = λ q. k.proper (a.proper q);
    }
update-Adds transaction_packet p m {m'} h = SameHard-Adds p.id m m' (
    peer_order_blocked-SameHard p dag_block_packet m
      (one_call (mark_packet_as_peer_order_blocked p dag_block_packet) m h))
update-Adds dag_block_packet p m {m'} h =
    let (x, f, g) =
      two_calls (set_dag_block_level_being_processed p) (set_dag_block_being_processed p) m h in
    SameHard-Adds p.id m m' (set_dag_block-SameHard p x g ∙ set_dag_level-SameHard p m f)
update-Adds vote_packet p m {m'} h = SameHard-Adds p.id m m' (same_mask m m' h)
update-Adds get_next_votes_sync_packet p m {m'} h = SameHard-Adds p.id m m' (same_mask m m' h)
update-Adds votes_bundle_packet p m {m'} h = SameHard-Adds p.id m m' (same_mask m m' h)
update-Adds status_packet p m {m'} h = SameHard-Adds p.id m m' (same_mask m m' h)
update-Adds pillar_vote_packet p m {m'} h = SameHard-Adds p.id m m' (same_mask m m' h)
update-Adds high_priority_packets p m {m'} h = SameHard-Adds p.id m m' (same_mask m m' h)
update-Adds mid_priority_packets p m {m'} h = SameHard-Adds p.id m m' (same_mask m m' h)
update-Adds low_priority_packets p m {m'} h = SameHard-Adds p.id m m' (same_mask m m' h)
update-Adds packet_count p m {m'} h = SameHard-Adds p.id m m' (same_mask m m' h)

pub update-Drops :
    (type : SubprotocolPacketType) (p : PacketData) (m : PacketsBlockingMask)
    {m' : PacketsBlockingMask} {b : Bool}
    → update_by_type true type p m ≡ done (m', b)
    → Drops (hard_conflict type) p.id m m'
unfolding update_by_type hard_conflict
update-Drops pbft_sync_packet p m {m'} h =
    let (x, f, g) =
      two_calls (mark_packet_as_hard_unblocked p pbft_blocks_bundle_packet)
        (mark_packet_as_hard_unblocked p pbft_sync_packet) m h in
    Drops-trans (one pbft_blocks_bundle_packet) (one pbft_sync_packet) p.id m x m'
      (hard_unblocked-Drops p pbft_blocks_bundle_packet m f)
      (hard_unblocked-Drops p pbft_sync_packet x g)
update-Drops get_dag_sync_packet p m h = single_Drops p get_dag_sync_packet m h
update-Drops get_pbft_sync_packet p m h = single_Drops p get_pbft_sync_packet m h
update-Drops get_pillar_votes_bundle_packet p m h =
    single_Drops p get_pillar_votes_bundle_packet m h
update-Drops pillar_votes_bundle_packet p m h = single_Drops p pillar_votes_bundle_packet m h
update-Drops pbft_blocks_bundle_packet p m h = single_Drops p pbft_blocks_bundle_packet m h
update-Drops dag_sync_packet p m {m'} h =
    let (x, f, g) =
      two_calls (mark_packet_as_hard_unblocked p dag_sync_packet)
        (mark_packet_as_peer_order_unblocked p dag_block_packet) m h in
    let a = hard_unblocked-Drops p dag_sync_packet m f in
    let k = SameHard-Drops p.id x m' (peer_order_unblocked-SameHard p dag_block_packet x g) in
    record {
      more = λ code i. ground (arith, a.more code i, k.more code i);
      proper = λ q. k.proper (a.proper q);
    }
update-Drops transaction_packet p m {m'} h = SameHard-Drops p.id m m' (
    peer_order_unblocked-SameHard p dag_block_packet m
      (one_call (mark_packet_as_peer_order_unblocked p dag_block_packet) m h))
update-Drops dag_block_packet p m {m'} h =
    let (x, f, g) =
      two_calls (unset_dag_block_level_being_processed p) (unset_dag_block_being_processed p) m h in
    SameHard-Drops p.id m m' (unset_dag_block-SameHard p x g ∙ unset_dag_level-SameHard p m f)
update-Drops vote_packet p m {m'} h = SameHard-Drops p.id m m' (same_mask m m' h)
update-Drops get_next_votes_sync_packet p m {m'} h = SameHard-Drops p.id m m' (same_mask m m' h)
update-Drops votes_bundle_packet p m {m'} h = SameHard-Drops p.id m m' (same_mask m m' h)
update-Drops status_packet p m {m'} h = SameHard-Drops p.id m m' (same_mask m m' h)
update-Drops pillar_vote_packet p m {m'} h = SameHard-Drops p.id m m' (same_mask m m' h)
update-Drops high_priority_packets p m {m'} h = SameHard-Drops p.id m m' (same_mask m m' h)
update-Drops mid_priority_packets p m {m'} h = SameHard-Drops p.id m m' (same_mask m m' h)
update-Drops low_priority_packets p m {m'} h = SameHard-Drops p.id m m' (same_mask m m' h)
update-Drops packet_count p m {m'} h = SameHard-Drops p.id m m' (same_mask m m' h)
