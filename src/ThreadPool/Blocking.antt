-- ===== src/ThreadPool/Blocking.antt =====
-- network/threadpool/priority_queue.cpp: what a packet blocks while it is processed.
pub mod Hard
pub mod Update
use rustaxa.Common.{Bool, true, false, if◌then◌else◌}
use rustaxa.Common.Outcome.{Outcome, done, ◌>>=◌}
use rustaxa.ThreadPool.Packet.{
  SubprotocolPacketType, PacketData, vote_packet, get_next_votes_sync_packet, votes_bundle_packet,
  dag_block_packet, dag_sync_packet, transaction_packet, status_packet, get_pbft_sync_packet,
  pbft_sync_packet, get_dag_sync_packet, pillar_vote_packet, get_pillar_votes_bundle_packet,
  pillar_votes_bundle_packet, pbft_blocks_bundle_packet,
}
use rustaxa.ThreadPool.Mask.{
  PacketsBlockingMask, mark_packet_as_hard_blocked, mark_packet_as_hard_unblocked,
  mark_packet_as_peer_order_blocked, mark_packet_as_peer_order_unblocked,
  set_dag_block_being_processed, unset_dag_block_being_processed,
  set_dag_block_level_being_processed, unset_dag_block_level_being_processed,
}

unfoldable pub is_non_blocking_packet : SubprotocolPacketType → Bool
is_non_blocking_packet vote_packet = true
is_non_blocking_packet get_next_votes_sync_packet = true
is_non_blocking_packet votes_bundle_packet = true
is_non_blocking_packet status_packet = true
is_non_blocking_packet pillar_vote_packet = true
is_non_blocking_packet _ = false

-- A call of the mask for either direction.
abbrev pub hard :
    Bool → PacketData → SubprotocolPacketType → PacketsBlockingMask → Outcome PacketsBlockingMask
hard unblock_processing p type m =
    if unblock_processing
    then mark_packet_as_hard_unblocked p type m
    else mark_packet_as_hard_blocked p type m

abbrev pub peer_order :
    Bool → PacketData → SubprotocolPacketType → PacketsBlockingMask → Outcome PacketsBlockingMask
peer_order unblock_processing p type m =
    if unblock_processing
    then mark_packet_as_peer_order_unblocked p type m
    else mark_packet_as_peer_order_blocked p type m

-- The `switch`, with the mask after the calls and whether anything was updated. The case of the
-- PBFT sync packet goes on into the next one.
unfoldable pub update_by_type :
    Bool
    → SubprotocolPacketType
    → PacketData
    → PacketsBlockingMask
    → Outcome (PacketsBlockingMask × Bool)
update_by_type un pbft_sync_packet p m = do
  m' ← hard un p pbft_blocks_bundle_packet m
  m'' ← hard un p pbft_sync_packet m'
  done (m'', true)
update_by_type un get_dag_sync_packet p m = do m' ← hard un p get_dag_sync_packet m; done (m', true)
update_by_type un get_pbft_sync_packet p m = do
  m' ← hard un p get_pbft_sync_packet m
  done (m', true)
update_by_type un get_pillar_votes_bundle_packet p m = do
  m' ← hard un p get_pillar_votes_bundle_packet m
  done (m', true)
update_by_type un pillar_votes_bundle_packet p m = do
  m' ← hard un p pillar_votes_bundle_packet m
  done (m', true)
update_by_type un pbft_blocks_bundle_packet p m = do
  m' ← hard un p pbft_blocks_bundle_packet m
  done (m', true)
update_by_type un dag_sync_packet p m = do
  m' ← hard un p dag_sync_packet m
  m'' ← peer_order un p dag_block_packet m'
  done (m'', true)
update_by_type un transaction_packet p m = do
  m' ← peer_order un p dag_block_packet m
  done (m', true)
update_by_type true dag_block_packet p m = do
  m' ← unset_dag_block_level_being_processed p m
  m'' ← unset_dag_block_being_processed p m'
  done (m'', true)
update_by_type false dag_block_packet p m = do
  m' ← set_dag_block_level_being_processed p m
  m'' ← set_dag_block_being_processed p m'
  done (m'', true)
update_by_type un _ p m = done (m, false)

unfoldable pub update_blocking_dependencies :
    Bool → PacketData → PacketsBlockingMask → Outcome (PacketsBlockingMask × Bool)
unfolding update_by_type
update_blocking_dependencies unblock_processing p m = update_by_type unblock_processing p.type p m
