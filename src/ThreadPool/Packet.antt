-- ===== src/ThreadPool/Packet.antt =====
-- network/tarcap/packet_types.hpp and network/threadpool/packet_data.hpp.
use rustaxa.Common.{ℕ, ◌&&◌, Option, ltb, if◌then◌else◌}
use rustaxa.Common.Outcome.{Outcome, done, fault}

-- The enumerators, those that only mark a range included.
pub data SubprotocolPacketType : Type 0 where
  high_priority_packets vote_packet get_next_votes_sync_packet : SubprotocolPacketType
  votes_bundle_packet mid_priority_packets dag_block_packet dag_sync_packet : SubprotocolPacketType
  transaction_packet low_priority_packets status_packet get_pbft_sync_packet : SubprotocolPacketType
  pbft_sync_packet get_dag_sync_packet pillar_vote_packet : SubprotocolPacketType
  get_pillar_votes_bundle_packet pillar_votes_bundle_packet : SubprotocolPacketType
  pbft_blocks_bundle_packet packet_count : SubprotocolPacketType

unfoldable pub packet_code : SubprotocolPacketType → ℕ
packet_code high_priority_packets = 0
packet_code vote_packet = 1
packet_code get_next_votes_sync_packet = 2
packet_code votes_bundle_packet = 3
packet_code mid_priority_packets = 4
packet_code dag_block_packet = 5
packet_code dag_sync_packet = 6
packet_code transaction_packet = 7
packet_code low_priority_packets = 8
packet_code status_packet = 9
packet_code get_pbft_sync_packet = 10
packet_code pbft_sync_packet = 11
packet_code get_dag_sync_packet = 12
packet_code pillar_vote_packet = 13
packet_code get_pillar_votes_bundle_packet = 14
packet_code pillar_votes_bundle_packet = 15
packet_code pbft_blocks_bundle_packet = 16
packet_code packet_count = 17

pub data PacketPriority : Type 0 where
  high mid low : PacketPriority

unfoldable pub get_packet_priority : SubprotocolPacketType → Outcome PacketPriority
unfolding packet_code
get_packet_priority t =
    let code = packet_code t in
    if ltb 0 code && ltb code 4
    then done high
    else if ltb 4 code && ltb code 8
    then done mid
    else if ltb 8 code
    then done low
    else fault

-- What is read of the DAG block in a packet.
pub record DagHeader : Type 0 where
  pub level : ℕ
  pub signature : ℕ

-- `dag_block` is none where the packet has neither of the two item counts of a DAG block packet.
pub record PacketData : Type 0 where
  pub id : ℕ
  pub type : SubprotocolPacketType
  pub priority : PacketPriority
  pub from_node_id : ℕ
  pub dag_block : Option DagHeader
