-- ===== src/ThreadPool/Priority/Exclusive.antt =====
-- PriorityQueue::pop and the packet types that exclude each other.
use rustaxa.Common.{◌≡◌, inl, inr, Bool, false, some, List, [], ◌∷◌, ◌++◌, arith, Bool-cases}
use rustaxa.Common.Outcome.{done}
use rustaxa.ThreadPool.Packet.{PacketData, packet_code}
use rustaxa.ThreadPool.Mask.{PacketsBlockingMask, is_packet_blocked, is_packet_hard_blocked}
use rustaxa.ThreadPool.Queue.{Item}
use rustaxa.ThreadPool.Blocking.Update.{hard_conflict}
use rustaxa.ThreadPool.Priority.{PriorityQueue, take_packet}
use rustaxa.ThreadPool.Priority.Found.{pop-Popped}
use rustaxa.ThreadPool.Priority.Workers.{Step, push, take, wait, finish, Reach, start, next}
use rustaxa.ThreadPool.Priority.Reach.{take_packet-some}
use rustaxa.ThreadPool.Priority.Exclusion.{
  conflicts, total-middle, is_packet_hard_blocked-conflicts,
}

-- No packet is of a type that one of those taken before it, which stand behind it, excludes.
abbrev pub IsExclusive : List PacketData → Type 0
IsExclusive [] = Unit
IsExclusive (b ∷ ws) = (conflicts ws (packet_code b.type) ≡ 0) × IsExclusive ws

unblocked :
    (e : Bool) (p : PacketData) (m : PacketsBlockingMask)
    → is_packet_blocked e p m ≡ done false
    → is_packet_hard_blocked p m ≡ false
unfolding is_packet_blocked
unblocked e p m h = elim (Bool-cases (is_packet_hard_blocked p m)) [
  | inl f ↦ absurd (ground arith)
  | inr f ↦ f
]

taken_exclusive :
    (e : Bool) (x : Item) {q q' : PriorityQueue} {ws : List PacketData}
    → Reach q ws
    → take_packet e q ≡ done (q', some x)
    → conflicts ws (packet_code x.1.type) ≡ 0
taken_exclusive e x {q} r h =
    let (p, f, g) = take_packet-some e x q h in
    let free = unblocked e x.1 q.blocked_packets_mask (pop-Popped e q f).first.free in
    ground (arith, is_packet_hard_blocked-conflicts x.1 r)

IsExclusive-middle :
    (front : List PacketData) (a : PacketData) (back : List PacketData)
    → IsExclusive (front ++ a ∷ back)
    → IsExclusive (front ++ back)
IsExclusive-middle [] a back h = h.1
IsExclusive-middle (b ∷ front) a back h = (
  omega (arith, h.0, total-middle (λ c. hard_conflict c.type (packet_code b.type)) front a back),
  IsExclusive-middle front a back h.1,
)

Step-IsExclusive :
    {q q' : PriorityQueue} {ws ws' : List PacketData}
    → Reach q ws
    → Step q ws q' ws'
    → IsExclusive ws
    → IsExclusive ws'
Step-IsExclusive r (push x q ws) h = h
Step-IsExclusive r (take e x f) h = (taken_exclusive e x r f, h)
Step-IsExclusive r (wait e f) h = h
Step-IsExclusive r (finish p front back f) h = IsExclusive-middle front p back h

-- In every state that the calls of the pool lead to, no packet that is processed is of a type that a
-- packet taken before it excludes: those that are to be processed one at a time are.
pub Reach-IsExclusive : {q : PriorityQueue} {ws : List PacketData} → Reach q ws → IsExclusive ws
Reach-IsExclusive (start n _ _) = tt
Reach-IsExclusive (next r s) = Step-IsExclusive r s (Reach-IsExclusive r)
