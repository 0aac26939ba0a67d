-- ===== src/Ws/Hub.antt =====
-- internal/ws/hub.go with the queue of internal/ws/client.go. The event loop serializes what the other
-- goroutines ask, so each event is a function of the hub's state; `none` is a panic, by a close of a
-- closed channel or a send on one.
-- A client is its address in the heap. The map of sets is a function from an order's id to its
-- clients, empty for an order without any. Go visits a map's keys in any order; here it is the list's.
pub mod Sound
pub mod Events
pub mod Delivery
mod Tests
use order_processing_system.Base.{
  ℕ, zero, suc, ◌+◌, Bool, true, false, not, ◌||◌, Option, none, some, List, [], ◌∷◌, ◌++◌, ltb,
  ◌==◌, length, select, if◌then◌else◌,
}
use order_processing_system.Models.{Text}

pub record Client : Type 0 where
  pub order_id : ℕ
  pub buffer : List Text
  pub closed : Bool

-- `next` is the first address that is not in use.
pub record Hub : Type 0 where
  pub clients : ℕ → List ℕ
  pub heap : ℕ → Client
  pub next : ℕ
  pub done : Bool

abbrev pub send_buffer : ℕ
send_buffer = 32

abbrev pub new_client : ℕ → Client
new_client order_id = record { order_id = order_id; buffer = []; closed = false }

abbrev pub new_hub : Hub
new_hub = record { clients = λ _. []; heap = λ _. new_client 0; next = 0; done = false }

abbrev pub update {ℓ} : {A : Type ℓ} → (ℕ → A) → ℕ → A → ℕ → A
update f k v n = if n == k then v else f n

abbrev pub member : ℕ → List ℕ → Bool
member p [] = false
member p (x ∷ xs) = p == x || member p xs

abbrev pub without : ℕ → List ℕ → List ℕ
without p [] = []
without p (x ∷ xs) = if x == p then without p xs else x ∷ without p xs

-- close(c.send)
unfoldable pub close_send : ℕ → Hub → Option Hub
close_send p h =
    if (h.heap p).closed
    then none
    else some (record h { heap = update h.heap p (record (h.heap p) { closed = true }) })

-- remove
unfoldable pub remove : ℕ → Hub → Option Hub
unfolding close_send
remove p h =
    let order = (h.heap p).order_id in
    if member p (h.clients order)
    then close_send p (record h { clients = update h.clients order (without p (h.clients order)) })
    else some h

-- NewClient, then Register.
unfoldable pub register : ℕ → Hub → Option Hub
register order h =
    let c = record h { heap = update h.heap h.next (new_client order); next = suc h.next } in
    some (
      if h.done
      then c
      else record c { clients = update h.clients order (h.next ∷ h.clients order) })

unfoldable pub unregister : ℕ → Hub → Option Hub
unfolding remove
unregister p h = if h.done then some h else remove p h

abbrev pub has_room : Client → Bool
has_room c = ltb (length c.buffer) send_buffer

abbrev pub push : Text → Client → Client
push payload c = record c { buffer = c.buffer ++ (payload ∷ []) }

-- Client.Send: a payload for one client; a full queue drops it.
unfoldable pub client_send : ℕ → Text → Hub → Option Hub
client_send p payload h =
    if (h.heap p).closed
    then none
    else some (
        if has_room (h.heap p)
        then record h { heap = update h.heap p (push payload (h.heap p)) }
        else h)

-- One client of the fan-out: a queue with room takes the payload, a full one is dropped.
unfoldable pub offer : ℕ → Text → Hub → Option Hub
unfolding remove
offer p payload h =
    if (h.heap p).closed
    then none
    else if has_room (h.heap p)
    then some (record h { heap = update h.heap p (push payload (h.heap p)) })
    else remove p h

-- The loop of the fan-out, with `delivered`.
unfoldable pub fan_out : List ℕ → Text → Bool → Hub → Option (Bool × Hub)
unfolding offer
fan_out [] payload delivered h = some (delivered, h)
fan_out (p ∷ ps) payload delivered h = elim (offer p payload h) [
  | none ↦ none
  | some h' ↦ fan_out ps payload (delivered || has_room (h.heap p)) h'
]

unfoldable pub notify : ℕ → Text → Hub → Option (Bool × Hub)
unfolding fan_out
notify order payload h =
    if h.done then some (false, h) else fan_out (h.clients order) payload false h

-- The write pump takes a payload from its queue.
abbrev pub receive : ℕ → Hub → Hub
receive p h = elim (h.heap p).buffer [
  | [] ↦ h
  | x ∷ rest ↦ record h { heap = update h.heap p (record (h.heap p) { buffer = rest }) }
]

-- The close of every client's channel, over the addresses below `n`.
unfoldable pub close_members : ℕ → Hub → Option Hub
unfolding close_send
close_members zero h = some h
close_members (suc n) h =
    if member n (h.clients (h.heap n).order_id)
    then (elim (close_send n h) [ none ↦ none | some h' ↦ close_members n h' ])
    else close_members n h

-- Stop with the end of Run; a second close of `done` panics.
unfoldable pub stop : Hub → Option Hub
unfolding close_members
stop h = if h.done then none else (elim (close_members h.next h) [
  | none ↦ none
  | some h' ↦ some (record h' { clients = λ _. []; done = true })
])
