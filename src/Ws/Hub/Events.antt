-- ===== src/Ws/Hub/Events.antt =====
-- Every history of events at internal/ws/hub.go, in any order and of any length: no channel is closed
-- twice, and nothing is sent on a closed one.
use order_processing_system.Base.{
  ℕ, zero, suc, ◌+◌, ◌≤◌, ◌<◌, ◌≡◌, refl, sym, ap, ◌∙◌, Bool, true, false, Option, none, some, List,
  [], ◌∷◌, ◌==◌, length, if◌then◌else◌, arith, ◌⊎◌, inl, inr, Bool-cases, subst,
}
use order_processing_system.Models.{Text}
use order_processing_system.Ws.Hub.{
  Hub, send_buffer, new_client, update, member, close_send, remove, register, unregister, notify,
  receive, close_members, stop,
}
use order_processing_system.Ws.Hub.Sound.{
  Open, Sound, remove-Done, notify-Delivered, requeued-Sound, requeued,
}

pub data Event : Type 0 where
  connect : ℕ → Event
  leave : ℕ → Event
  publish : ℕ → Text → Event
  take_one : ℕ → Event
  shut_down : Event

abbrev pub state_of : Option (Bool × Hub) → Option Hub
state_of none = none
state_of (some (b, h)) = some h

unfoldable pub step : Event → Hub → Option Hub
step (connect order) h = register order h
step (leave p) h = unregister p h
step (publish order payload) h = state_of (notify order payload h)
step (take_one p) h = some (receive p h)
step shut_down h = stop h

unfoldable pub run : List Event → Hub → Option Hub
unfolding step
run [] h = some h
run (e ∷ es) h = elim (step e h) [ none ↦ none | some h' ↦ run es h' ]

-- Stop must be called exactly once.
abbrev pub stops : List Event → ℕ
stops [] = 0
stops (shut_down ∷ es) = suc (stops es)
stops (_ ∷ es) = stops es

abbrev pub stopped : Hub → ℕ
stopped h = if h.done then 1 else 0

abbrev Kept : Hub → Option Hub → Type 0
Kept h o = (h' : Hub) × (o ≡ some h') × Sound h' × (h'.done ≡ h.done)

abbrev admitted : ℕ → Hub → Hub
admitted order h = record h {
  heap = update h.heap h.next (new_client order);
  next = suc h.next;
  clients = update h.clients order (h.next ∷ h.clients order);
}

abbrev turned_away : ℕ → Hub → Hub
turned_away order h = record h { heap = update h.heap h.next (new_client order); next = suc h.next }

-- The heap grows by one client, and nobody in a set is at its address.
Open-grown : (order k p : ℕ) (h : Hub) → Open h k p → Open (turned_away order h) k p
Open-grown order k p h o = record {
  watches = ground (arith, o.watches, o.used);
  alive = ground (arith, o.alive, o.used);
  used = omega (arith, o.used);
}

fresh-member : (h : Hub) → Sound h → (k : ℕ) → member h.next (h.clients k) ≡ false
fresh-member h s k = elim (Bool-cases (member h.next (h.clients k))) [
  | inl found ↦ absurd (omega (arith, (s.members k h.next found).used))
  | inr missing ↦ missing
]

-- Who is in a set after a registration: the new client, or somebody who was there.
admitted-cases :
    (order k p : ℕ) (h : Hub)
    → Sound h
    → member p ((admitted order h).clients k) ≡ true
    → ((p ≡ h.next) × (order ≡ k)) ⊎ (member p (h.clients k) ≡ true)
admitted-cases order k p h s m = elim (Bool-cases (k == order)) [
  | inl here ↦
      let m' = rw here at m in
      let same : order ≡ k = ground arith in
      elim (Bool-cases (p == h.next)) [
        | inl new ↦ inl (ground arith, same)
        | inr old ↦ inr (subst (λ n. member p (h.clients n) ≡ true) same (ground arith))
      ]
  | inr away ↦ inr (rw away at m)
]

admitted-Open :
    (order k p : ℕ) (h : Hub)
    → Sound h
    → member p ((admitted order h).clients k) ≡ true
    → Open (admitted order h) k p
admitted-Open order k p h s m = elim (admitted-cases order k p h s m) [
  | inl (new, same) ↦ record {
    watches = ground (arith, new, same);
    alive = ground (arith, new);
    used = omega (arith, new);
  }
  | inr old ↦
      let o = Open-grown order k p h (s.members k p old) in
      record { watches = o.watches; alive = o.alive; used = o.used }
]

admitted-Sound : (order : ℕ) (h : Hub) → Sound h → Sound (admitted order h)
admitted-Sound order h s = record {
  members = λ k p m. admitted-Open order k p h s m;
  nodup = λ k. elim (Bool-cases (k == order)) [
    | inl here ↦ rw here (fresh-member h s order, s.nodup order)
    | inr away ↦ rw away (s.nodup k)
  ];
  bounded = λ p. ground (arith, s.bounded p);
}

turned_away-Sound : (order : ℕ) (h : Hub) → Sound h → Sound (turned_away order h)
turned_away-Sound order h s = record {
  members = λ k p m. Open-grown order k p h (s.members k p m);
  nodup = s.nodup;
  bounded = λ p. ground (arith, s.bounded p);
}

register-Kept : (order : ℕ) (h : Hub) → Sound h → Kept h (register order h)
unfolding register
register-Kept order h s = elim (Bool-cases h.done) [
  | inl over ↦ (turned_away order h, ground arith, turned_away-Sound order h s, refl)
  | inr live ↦ (admitted order h, ground arith, admitted-Sound order h s, refl)
]

unregister-live : (p : ℕ) (h : Hub) → h.done ≡ false → unregister p h ≡ remove p h
unfolding unregister
unregister-live p h live = ground arith

unregister-Kept : (p : ℕ) (h : Hub) → Sound h → Kept h (unregister p h)
unfolding unregister
unregister-Kept p h s = elim (Bool-cases h.done) [
  | inl over ↦ (h, ground arith, s, refl)
  | inr live ↦ let (h', e, s', a) = remove-Done p h s in (h', unregister-live p h live ∙ e, s', a.2)
]

List-cases : (xs : List Text) → (xs ≡ []) ⊎ ((x : Text) × (rest : List Text) × (xs ≡ x ∷ rest))
List-cases [] = inl refl
List-cases (x ∷ rest) = inr (x, rest, refl)

receive-empty : (p : ℕ) (h : Hub) → (h.heap p).buffer ≡ [] → receive p h ≡ h
receive-empty p h e = ground arith

receive-more :
    (p : ℕ) (h : Hub) (x : Text) (rest : List Text)
    → (h.heap p).buffer ≡ x ∷ rest
    → receive p h ≡ requeued p rest h
receive-more p h x rest e = ground arith

abbrev Still : Hub → Hub → Type 0
Still h h' = Sound h' × (h'.done ≡ h.done)

receive-Sound : (p : ℕ) (h : Hub) → Sound h → Still h (receive p h)
receive-Sound p h s = elim (List-cases (h.heap p).buffer) [
  | inl e ↦ subst (Still h) (sym (receive-empty p h e)) (s, refl)
  | inr (x, rest, e) ↦
      let fits : length rest ≤ send_buffer = omega (arith, s.bounded p, ap length e) in
      subst (Still h) (sym (receive-more p h x rest e)) (requeued-Sound p rest h fits s, refl)
]

-- What the closing loop needs of the clients that it has yet to visit.
abbrev Waiting : ℕ → Hub → Type 0
Waiting n h =
    (p : ℕ) → p < n → member p (h.clients (h.heap p).order_id) ≡ true → (h.heap p).closed ≡ false

abbrev Bounded : Hub → Type 0
Bounded h = (p : ℕ) → length (h.heap p).buffer ≤ send_buffer

abbrev shut : ℕ → Hub → Hub
shut n h = record h { heap = update h.heap n (record (h.heap n) { closed = true }) }

close_members-closes :
    (n : ℕ) (h : Hub)
    → Waiting n h
    → Bounded h
    → (h' : Hub) × (close_members n h ≡ some h') × Bounded h'
unfolding close_members close_send
close_members-closes zero h w b = (h, refl, b)
close_members-closes (suc n) h w b = elim (Bool-cases (member n (h.clients (h.heap n).order_id))) [
  | inl inside ↦
      let alive = w n (omega arith) inside in
      let (h', e, b') =
        close_members-closes n (shut n h)
          (λ p q m.
            let ne : (p == n) ≡ false = ground (arith, q) in
            rw ne (w p (omega (arith, q)) (rw ne at m)))
          (λ p. ground (arith, b p)) in
      (h', rw (inside, alive) e, b')
  | inr outside ↦
      let (h', e, b') = close_members-closes n h (λ p q m. w p (omega (arith, q)) m) b in
      (h', rw outside e, b')
]

ended : Hub → Hub
ended h = record h { clients = λ _. []; done = true }

ended-Sound : (h : Hub) → Bounded h → Sound (ended h)
unfolding ended
ended-Sound h b = record { members = λ k p m. cc; nodup = λ k. tt; bounded = b }

stop-closed :
    (h h' : Hub) → h.done ≡ false → close_members h.next h ≡ some h' → stop h ≡ some (ended h')
unfolding stop ended
stop-closed h h' live e = ground (arith, live, e)

stop-ends :
    (h : Hub)
    → Sound h
    → h.done ≡ false
    → (h' : Hub) × (stop h ≡ some h') × Sound h' × (h'.done ≡ true)
unfolding stop ended
stop-ends h s live =
    let (h', e, b) =
      close_members-closes h.next h (λ p q m. (s.members (h.heap p).order_id p m).alive)
        s.bounded in
    (ended h', stop-closed h h' live e, ended-Sound h' b, refl)

Kept-step :
    (e : Event) (h : Hub)
    → Sound h
    → stops (e ∷ []) + stopped h ≤ 1
    → (h' : Hub) × (step e h ≡ some h') × Sound h' × (stopped h' ≡ stops (e ∷ []) + stopped h)
unfolding step
Kept-step (connect order) h s one =
    let (h', e, s', d) = register-Kept order h s in (h', e, s', rw d (omega arith))
Kept-step (leave p) h s one =
    let (h', e, s', d) = unregister-Kept p h s in (h', e, s', rw d (omega arith))
Kept-step (publish order payload) h s one =
    let (answer, h', e, s', n, d) = notify-Delivered order payload h s in
    (h', rw e refl, s', rw d (omega arith))
Kept-step (take_one p) h s one =
    let (s', d) = receive-Sound p h s in (receive p h, refl, s', rw d (omega arith))
Kept-step shut_down h s one =
    let live : h.done ≡ false = ground (arith, one) in
    let (h', e, s', d) = stop-ends h s live in (h', e, s', rw (d, live) (omega arith))

stops-cons : (e : Event) (es : List Event) → stops (e ∷ es) ≡ stops (e ∷ []) + stops es
stops-cons (connect order) es = omega arith
stops-cons (leave p) es = omega arith
stops-cons (publish order payload) es = omega arith
stops-cons (take_one p) es = omega arith
stops-cons shut_down es = omega arith

-- From a sound hub, a history of connections, departures, notifications, reads and at most one
-- stop, in any order, never closes a channel twice nor sends on a closed one, and leaves the hub
-- sound.
pub run-Sound :
    (es : List Event) (h : Hub)
    → Sound h
    → stops es + stopped h ≤ 1
    → (h' : Hub) × (run es h ≡ some h') × Sound h'
unfolding run
run-Sound [] h s one = (h, refl, s)
run-Sound (e ∷ es) h s one =
    let count : stops (e ∷ es) ≡ stops (e ∷ []) + stops es = stops-cons e es in
    let (h', step_eq, s', d) = Kept-step e h s (omega (arith, one, count)) in
    let (h'', rest, s'') = run-Sound es h' s' (omega (arith, one, count, d)) in
    (h'', rw (step_eq, run) rest, s'')
