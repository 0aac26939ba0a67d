-- ===== src/Ws/Hub/Delivery.antt =====
-- Who gets what from Notify of internal/ws/hub.go.
use order_processing_system.Base.{
  ℕ, ◌≤◌, ◌<◌, ◌≡◌, ◌≢◌, refl, ap, ◌∙◌, ◌⊎◌, inl, inr, Bool, true, false, ◌||◌, some, List, [], ◌∷◌,
  ◌++◌, ltb, length, arith, All, Bool-cases,
}
use order_processing_system.Models.{Text}
use order_processing_system.Ws.Hub.{
  Client, Hub, send_buffer, member, has_room, remove, close_send, offer, fan_out, notify,
}
use order_processing_system.Ws.Hub.Sound.{
  Sound, NoDup, Apart, Alive, Alive-Apart, Alive-members, offer-Done, offer-full, notify-live,
  dropped, requeued, member-without,
}

-- Some client has room for one more payload.
abbrev pub any_room : Hub → List ℕ → Bool
any_room h [] = false
any_room h (p ∷ ps) = ltb (length (h.heap p).buffer) send_buffer || any_room h ps

-- What a subscriber `c` has become, and whether it is still subscribed: with room it has the payload
-- behind its queue and stays; with a full queue it is closed and gone, with the queue as it was.
abbrev pub Served : Text → Client → Client → Bool → Type 0
Served payload c c' stays =
    ((length c.buffer < send_buffer)
      × (c'.buffer ≡ c.buffer ++ (payload ∷ []))
      × (c'.closed ≡ false)
      × (c'.order_id ≡ c.order_id)
      × (stays ≡ true))
    ⊎ ((send_buffer ≤ length c.buffer)
        × (c'.buffer ≡ c.buffer)
        × (c'.closed ≡ true)
        × (c'.order_id ≡ c.order_id)
        × (stays ≡ false))

-- Each client of the list is served; all else is as it was.
pub record Fanned (order : ℕ) (ps : List ℕ) (payload : Text) (h h' : Hub) : Type 0 where
  pub served : All (λ p. Served payload (h.heap p) (h'.heap p) (member p (h'.clients order))) ps
  pub others :
      (q : ℕ)
      → member q ps ≡ false
      → (h'.heap q ≡ h.heap q) × (member q (h'.clients order) ≡ member q (h.clients order))
  pub elsewhere : (k : ℕ) → k ≢ order → h'.clients k ≡ h.clients k

any_room-Apart :
    (p : ℕ) (h h' : Hub) (ps : List ℕ)
    → Apart p h h'
    → member p ps ≡ false
    → any_room h' ps ≡ any_room h ps
any_room-Apart p h h' [] a m = refl
any_room-Apart p h h' (q ∷ qs) a m =
    let ne : q ≢ p = λ e. ground arith in
    rw (a.0 q ne, any_room-Apart p h h' qs a (ground arith)) refl

-- Those who are still to be served are subscribers with an open channel.
abbrev Waiting : Hub → ℕ → List ℕ → Type 0
Waiting h order = All (λ p. ((h.heap p).order_id ≡ order) × (member p (h.clients order) ≡ true))

-- One client of the fan-out.
pub record Offered (order p : ℕ) (payload : Text) (h h' : Hub) : Type 0 where
  pub served : Served payload (h.heap p) (h'.heap p) (member p (h'.clients order))
  pub others : (q : ℕ) → q ≢ p → member q (h'.clients order) ≡ member q (h.clients order)
  pub elsewhere : (k : ℕ) → k ≢ order → h'.clients k ≡ h.clients k

offer-room :
    (order p : ℕ) (payload : Text) (h h' : Hub)
    → (h.heap p).closed ≡ false
    → member p (h.clients order) ≡ true
    → has_room (h.heap p) ≡ true
    → offer p payload h ≡ some h'
    → Offered order p payload h h'
unfolding offer
offer-room order p payload h h' alive inside room e =
    let is : requeued p ((h.heap p).buffer ++ (payload ∷ [])) h ≡ h' =
      ground (arith, alive, room, e) in
    rw (← is) (record {
      served = ground (arith, alive, inside, room);
      others = λ q ne. refl;
      elsewhere = λ k ne. refl;
    })

offer-dropped :
    (p : ℕ) (payload : Text) (h h' : Hub)
    → (h.heap p).closed ≡ false
    → member p (h.clients (h.heap p).order_id) ≡ true
    → has_room (h.heap p) ≡ false
    → offer p payload h ≡ some h'
    → dropped p h ≡ h'
unfolding remove close_send
offer-dropped p payload h h' alive inside full e =
    ground (arith, alive, inside, offer-full p payload h alive full, e)

offer-Offered :
    (order p : ℕ) (payload : Text) (h h' : Hub)
    → (h.heap p).closed ≡ false
    → (h.heap p).order_id ≡ order
    → member p (h.clients order) ≡ true
    → offer p payload h ≡ some h'
    → Offered order p payload h h'
offer-Offered order p payload h h' alive watches inside e =
    elim (Bool-cases (has_room (h.heap p))) [
      | inl room ↦ offer-room order p payload h h' alive inside room e
      | inr full ↦
          let is = offer-dropped p payload h h' alive (rw watches inside) full e in
          rw (← is) (record {
            served = inr (ground (arith, watches, full, member-without p p (h.clients order)));
            others = λ q ne. ground (arith, watches, ne, member-without q p (h.clients order));
            elsewhere = λ k ne. ground (arith, watches, ne);
          })
    ]

-- The rest of the list still waits, and is served from what it was at first.
Waiting-after :
    (order p : ℕ) (payload : Text) (h h' : Hub) (ps : List ℕ)
    → Apart p h h'
    → Offered order p payload h h'
    → member p ps ≡ false
    → Waiting h order ps
    → Waiting h' order ps
Waiting-after order p payload h h' [] a f m w = tt
Waiting-after order p payload h h' (q ∷ qs) a f m w =
    let ne : q ≢ p = λ e. ground arith in
    (
      (ap (λ (c : Client). c.order_id) (a.0 q ne) ∙ w.0.0, f.others q ne ∙ w.0.1),
      Waiting-after order p payload h h' qs a f (ground arith) w.1,
    )

Served-Apart :
    (order p : ℕ) (payload : Text) (h h' h'' : Hub) (ps : List ℕ)
    → Apart p h h'
    → member p ps ≡ false
    → All (λ q. Served payload (h'.heap q) (h''.heap q) (member q (h''.clients order))) ps
    → All (λ q. Served payload (h.heap q) (h''.heap q) (member q (h''.clients order))) ps
Served-Apart order p payload h h' h'' [] a m g = tt
Served-Apart order p payload h h' h'' (q ∷ qs) a m g =
    let ne : q ≢ p = λ e. ground arith in
    (rw (← a.0 q ne) g.0, Served-Apart order p payload h h' h'' qs a (ground arith) g.1)

Fanned-cons :
    (order p : ℕ) (ps : List ℕ) (payload : Text) (h h' h'' : Hub)
    → Apart p h h'
    → member p ps ≡ false
    → Offered order p payload h h'
    → Fanned order ps payload h' h''
    → Fanned order (p ∷ ps) payload h h''
Fanned-cons order p ps payload h h' h'' a d o f = record {
  served = (
    rw ((f.others p d).0, (f.others p d).1) o.served,
    Served-Apart order p payload h h' h'' ps a d f.served,
  );
  others = λ q m.
      let ne : q ≢ p = λ e. ground arith in
      let rest = f.others q (ground arith) in (rest.0 ∙ a.0 q ne, rest.1 ∙ o.others q ne);
  elsewhere = λ k ne. f.elsewhere k ne ∙ o.elsewhere k ne;
}

or_join : (a b c c' : Bool) → c ≡ c' → ((a || b) || c) ≡ (a || (b || c'))
or_join a b c c' e = ground (arith, e)

pub fan_out-Fanned :
    (order : ℕ) (ps : List ℕ) (payload : Text) (delivered : Bool) (h : Hub)
    → Sound h
    → NoDup ps
    → Alive h ps
    → Waiting h order ps
    → (h' : Hub) × (fan_out ps payload delivered h ≡ some (delivered || any_room h ps, h'))
      × Fanned order ps payload h h'
unfolding fan_out
fan_out-Fanned order [] payload delivered h s d o w =
    (h, ground arith, record { served = tt; others = λ q m. (refl, refl); elsewhere = λ k n. refl })
fan_out-Fanned order (p ∷ ps) payload delivered h s d o w =
    let (h', e, s', a) = offer-Done p payload h s o.0 in
    let f = offer-Offered order p payload h h' o.0 w.0.0 w.0.1 e in
    let room = has_room (h.heap p) in
    let (h'', e', rest) =
      fan_out-Fanned order ps payload (delivered || room) h' s' d.1
        (Alive-Apart p h h' ps a d.0 o.1) (Waiting-after order p payload h h' ps a f d.0 w.1) in
    (
      h'',
      rw (e, fan_out)
          (e'
            ∙ ap (λ b. some (b, h''))
                (or_join delivered room _ _ (any_room-Apart p h h' ps a d.0))),
      Fanned-cons order p ps payload h h' h'' a d.0 f rest,
    )

Waiting-members :
    (h : Hub) (order : ℕ) (ps : List ℕ)
    → Sound h
    → ((p : ℕ) → member p ps ≡ true → member p (h.clients order) ≡ true)
    → Waiting h order ps
Waiting-members h order [] s m = tt
Waiting-members h order (p ∷ ps) s m =
    let here = m p (ground arith) in
    (
      ((s.members order p here).watches, here),
      Waiting-members h order ps s (λ q e. m q (ground (arith, e))),
    )

-- Notify on a sound running hub reports whether some subscriber of the order had room. Each
-- subscriber with fewer than 32 payloads in its queue has the new one behind them and stays open
-- and subscribed; each with a full queue keeps it, is closed and is no longer subscribed. Every
-- other client and the subscriptions of every other order are as they were.
pub notify-Fanned :
    (order : ℕ) (payload : Text) (h : Hub)
    → Sound h
    → h.done ≡ false
    → (h' : Hub) × (notify order payload h ≡ some (any_room h (h.clients order), h'))
      × Fanned order (h.clients order) payload h h'
notify-Fanned order payload h s live =
    let (h', e, f) =
      fan_out-Fanned order (h.clients order) payload false h s (s.nodup order)
        (Alive-members h order (h.clients order) (s.members order))
        (Waiting-members h order (h.clients order) s (λ p m. m)) in
    (h', notify-live order payload h live ∙ e, f)
