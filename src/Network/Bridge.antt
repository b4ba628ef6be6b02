-- ===== src/Network/Bridge.antt =====
-- `Bridge`: frames are classified, answered by the management endpoint, and put on the queue of the
-- other side.
use switchvisor.Base.{
  ℕ, ◌+◌, Bool, true, false, ◌&&◌, ◌||◌, not, ◌==◌, if◌then◌else◌, List, [], ◌∷◌, length, take,
  get_or, same, Option, none, some, saturating_add, and_then, bit,
}
use switchvisor.Network.Frames.{Frames, full, empty, spare, fill, commit, push, is_size}
use switchvisor.Network.Frames
use switchvisor.Network.Management.{management, management_mac}
pub mod Forward

pub data Port : Type 0 where
  host guest : Port

pub record Bridge : Type 0 where
  pub to_host : Frames
  pub to_guest : Frames
  pub received : ℕ
  pub rejected : ℕ
  pub management_replies : ℕ

unfoldable pub new : Bridge
new = record {
  to_host = Frames.new;
  to_guest = Frames.new;
  received = 0;
  rejected = 0;
  management_replies = 0;
}

unfoldable pub can_receive_from_guest : Bridge → Bool
can_receive_from_guest b = not (full b.to_host)

-- The queue that leads to a port.
unfoldable pub toward : Port → Bridge → Frames
toward host b = b.to_host
toward guest b = b.to_guest

unfoldable pub with_queue : Port → Frames → Bridge → Bridge
with_queue host f b = record b { to_host = f }
with_queue guest f b = record b { to_guest = f }

abbrev pub other : Port → Port
other host = guest
other guest = host

unfoldable pub reject_one : Bridge → Bridge
reject_one b = record b { rejected = saturating_add b.rejected 1 }

unfoldable pub is_local : List ℕ → Bool
is_local frame = same (take 6 frame) management_mac

-- A frame that the switch takes: of a legal size, not from a group address.
unfoldable pub is_legal : List ℕ → Bool
is_legal frame = is_size (length frame) && not (bit (get_or frame 6 0) 0)

-- The reply is built in the spare slot of the queue back.
unfoldable pub answer : Port → List ℕ → Bridge → Bridge
answer back frame b = elim (spare (toward back b)) [
  | none ↦ reject_one b
  | some slot ↦
      let reply = management frame in
      let (done, f) = commit (fill (toward back b) slot reply) (length reply) in
      let b' = with_queue back f b in
      if done then record b' { management_replies = saturating_add b.management_replies 1 } else b'
]

-- `route`: whether the frame is to be forwarded.
unfoldable pub route : Port → List ℕ → Bridge → Bool × Bridge
route back frame b =
    let taken : Bridge = record b { received = saturating_add b.received 1 } in
    if not (is_legal frame) then (false, reject_one b) else (
      not (is_local frame),
      if is_local frame || bit (get_or frame 0 0) 0 then answer back frame taken else taken,
    )

-- `push` to the queue of a port, counted if there is no room.
unfoldable pub forward : Port → List ℕ → Bridge → Bridge
forward port frame b =
    let (done, f) = push (toward port b) frame in if done then with_queue port f b else reject_one b

-- `receive`, which always returns true.
unfoldable pub receive : Port → List ℕ → Bridge → Bridge
receive port frame b =
    let (onward, b') = route port frame b in if onward then forward (other port) frame b' else b'

-- `receive_host`: `deliver` is called on a state `S` only for a frame to be forwarded, with no older
-- frame in the queue; the result is `none` if it does not return.
unfoldable pub receive_host :
    {S : Type 0} → (List ℕ → S → Option (Bool × S)) → List ℕ → S → Bridge → Option (S × Bridge)
receive_host deliver frame s b =
    let (onward, b') = route host frame b in
    if not onward
    then some (s, b')
    else if not (empty b'.to_guest)
    then some (s, forward guest frame b')
    else and_then (deliver frame s)
        (λ (done, s'). some (s', if done then b' else forward guest frame b'))

-- A frame that is in the spare slot is committed if it is to be forwarded.
unfoldable pub take_slot : {S : Type 0} → ℕ → List ℕ → S → Bridge → Option (Bool × S × Bridge)
take_slot slot frame s b =
    let filled : Bridge = record b { to_host = fill b.to_host slot frame } in
    let (onward, b') = route guest frame filled in
    let (done, f) = commit b'.to_host (length frame) in
    if length frame == 0
    then some (false, s, b)
    else if onward
    then some (true, s, record b' { to_host = f })
    else some (true, s, b')

-- `receive_guest`: `fill_slot` puts a frame in the spare slot, or returns the empty one.
unfoldable pub receive_guest :
    {S : Type 0} → (S → Option (List ℕ × S)) → S → Bridge → Option (Bool × S × Bridge)
receive_guest fill_slot s b = elim (spare b.to_host) [
  | none ↦ some (false, s, b)
  | some slot ↦ and_then (fill_slot s) (λ (frame, s'). take_slot slot frame s' b)
]
