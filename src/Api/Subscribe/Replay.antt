-- ===== src/Api/Subscribe/Replay.antt =====
-- The loop over the stored notifications in Connect of internal/api/handlers/ws_handler.go.
use mathlib.Core.List.{append_assoc, append-nil}
use order_processing_system.Base.{
  ℕ, zero, suc, ◌≤◌, ◌≡◌, refl, ap, ◌∙◌, inl, inr, false, Option, none, some, List, [], ◌∷◌, ◌++◌,
  ◌==◌, arith, map, take, length, length-append, length-take-le, select, Bool-cases,
}
use order_processing_system.Models.{Text, Notification}
use order_processing_system.Database.{Db, Engine}
use order_processing_system.Repository.Notification.{list_by_order}
use order_processing_system.Services.Notification.{NotificationEvent, new_notification_event}
use order_processing_system.Ws.Hub.{
  Hub, Client, update, send_buffer, new_client, has_room, register, client_send,
}
use order_processing_system.Ws.Hub.Sound.{requeued}
use order_processing_system.Api.Subscribe.{replay, replayed, open_socket}

take_all : {A : Type 0} (n : ℕ) (xs : List A) → length xs ≤ n → take n xs ≡ xs
take_all zero [] h = refl
take_all zero (x ∷ xs) h = absurd (omega (arith, h))
take_all (suc n) [] h = refl
take_all (suc n) (x ∷ xs) h = ap (λ ys. x ∷ ys) (take_all n xs (omega (arith, h)))

take_full : {A : Type 0} (n : ℕ) (xs ys : List A) → length xs ≡ n → take n (xs ++ ys) ≡ xs
take_full zero [] ys h = refl
take_full zero (x ∷ xs) ys h = absurd (omega (arith, h))
take_full (suc n) [] ys h = absurd (omega (arith, h))
take_full (suc n) (x ∷ xs) ys h = ap (λ zs. x ∷ zs) (take_full n xs ys (omega (arith, h)))

take-take_append :
    {A : Type 0} (n : ℕ) (xs ys : List A) → take n (take n xs ++ ys) ≡ take n (xs ++ ys)
take-take_append zero xs ys = refl
take-take_append (suc n) [] ys = refl
take-take_append (suc n) (x ∷ xs) ys = ap (λ zs. x ∷ zs) (take-take_append n xs ys)

module _ (json : NotificationEvent → Text) where
  -- The payload of a stored notification.
  abbrev pub payload_of : Notification → Text
  payload_of n = json (new_notification_event n)

  -- Nobody else works on the hub.
  abbrev pub quiet : ℕ → Hub → Option Hub
  quiet left hub = some hub

  -- Only the client's queue has changed.
  pub record Queued (p : ℕ) (sent : List Text) (h h' : Hub) : Type 0 where
    pub queue :
        h'.heap p ≡ record (h.heap p) { buffer = take send_buffer ((h.heap p).buffer ++ sent) }
    pub others : (q : ℕ) → (q == p) ≡ false → h'.heap q ≡ h.heap q
    pub sets : h'.clients ≡ h.clients

  client_send-Queued :
      (p : ℕ) (x : Text) (h : Hub)
      → (h.heap p).closed ≡ false
      → length (h.heap p).buffer ≤ send_buffer
      → (h' : Hub) × (client_send p x h ≡ some h') × Queued p (x ∷ []) h h'
  unfolding client_send
  client_send-Queued p x h alive fits = elim (Bool-cases (has_room (h.heap p))) [
    | inl room ↦
        let b = (h.heap p).buffer in
        let short : length (b ++ (x ∷ [])) ≤ send_buffer =
          ground (arith, room, length-append b (x ∷ [])) in
        let whole = take_all send_buffer (b ++ (x ∷ [])) short in
        (
          requeued p (b ++ (x ∷ [])) h,
          ground (arith, alive, room),
          record {
            queue = ground (arith, whole);
            others = λ q ne. ground (arith, ne);
            sets = refl;
          },
        )
    | inr full ↦
        let b = (h.heap p).buffer in
        let same = take_full send_buffer b (x ∷ []) (ground (arith, full, fits)) in
        (
          h,
          ground (arith, alive, full),
          record { queue = ground (arith, same); others = λ q ne. refl; sets = refl },
        )
  ]

  Queued-Queued :
      (p : ℕ) (x : Text) (sent : List Text) (h h' h'' : Hub)
      → Queued p (x ∷ []) h h'
      → Queued p sent h' h''
      → Queued p (x ∷ sent) h h''
  Queued-Queued p x sent h h' h'' a b =
      let client = h.heap p in
      let later : Client → Client =
        λ c. record c { buffer = take send_buffer (c.buffer ++ sent) } in
      let whole =
        take-take_append send_buffer (client.buffer ++ (x ∷ [])) sent
        ∙ ap (take send_buffer) (append_assoc client.buffer (x ∷ []) sent) in
      record {
        queue = b.queue ∙ ap later a.queue ∙ ap (λ t. record client { buffer = t }) whole;
        others = λ q ne. b.others q ne ∙ a.others q ne;
        sets = b.sets ∙ a.sets;
      }

  replay-Queued :
      (p : ℕ) (notes : List Notification) (h : Hub)
      → (h.heap p).closed ≡ false
      → length (h.heap p).buffer ≤ send_buffer
      → (h' : Hub) × (replay json quiet p notes h ≡ some h') × Queued p (map payload_of notes) h h'
  unfolding replay
  replay-Queued p [] h alive fits =
      let b = (h.heap p).buffer in
      let same =
        take_all send_buffer (b ++ []) (omega (arith, fits, length-append b [])) ∙ append-nil b in
      (h, refl, record { queue = ground (arith, same); others = λ q ne. refl; sets = refl })
  replay-Queued p (n ∷ notes) h alive fits =
      let (h', e, a) = client_send-Queued p (payload_of n) h alive fits in
      let (h'', e', b) =
        replay-Queued p notes h' (ap (λ (c : Client). c.closed) a.queue ∙ alive)
          (rw (a.queue) (length-take-le send_buffer ((h.heap p).buffer ++ (payload_of n ∷ [])))) in
      (h'', rw (e, replay) e', Queued-Queued p (payload_of n) (map payload_of notes) h h' h'' a b)

  abbrev entered : ℕ → Hub → Hub
  entered order_id hub = record hub {
    heap = update hub.heap hub.next (new_client order_id);
    next = suc hub.next;
    clients = update hub.clients order_id (hub.next ∷ hub.clients order_id);
  }

  -- The events of the order's notifications, in the order of their ids.
  abbrev pub stored : ℕ → Db → List Text
  stored order_id db =
      map payload_of (select (λ (n : Notification). n.order_id == order_id) db.tables.notifications)

  open_socket-replay :
      (engine : Engine) (order_id : ℕ) (db : Db) (hub : Hub)
      → hub.done ≡ false
      → engine.fault db.calls ≡ none
      → (open_socket json quiet engine order_id db hub).0
        ≡ replay json quiet hub.next
            (select (λ (n : Notification). n.order_id == order_id) db.tables.notifications)
            (entered order_id hub)
  unfolding open_socket register list_by_order replayed
  open_socket-replay engine order_id db hub live fine = ground (arith, live, fine)

  -- The hub's other clients keep what they have.
  pub record Subscribed (order_id : ℕ) (db : Db) (hub h' : Hub) : Type 0 where
    pub queue : (h'.heap hub.next).buffer ≡ take send_buffer (stored order_id db)
    pub watches : (h'.heap hub.next).order_id ≡ order_id
    pub alive : (h'.heap hub.next).closed ≡ false
    pub listed : h'.clients order_id ≡ hub.next ∷ hub.clients order_id
    pub others : (q : ℕ) → (q == hub.next) ≡ false → h'.heap q ≡ hub.heap q

  -- On a running hub on which nobody else works meanwhile, and with the notifications read without
  -- a failure, an opened socket becomes a subscriber of its order whose queue holds the events of
  -- the order's stored notifications in the order of their ids, as many as the queue takes, and no
  -- other client changes.
  pub open_socket-Subscribed :
      (engine : Engine) (order_id : ℕ) (db : Db) (hub : Hub)
      → hub.done ≡ false
      → engine.fault db.calls ≡ none
      → (h' : Hub) × ((open_socket json quiet engine order_id db hub).0 ≡ some h')
        × Subscribed order_id db hub h'
  open_socket-Subscribed engine order_id db hub live fine =
      let notes = select (λ (n : Notification). n.order_id == order_id) db.tables.notifications in
      let (h', e, q) =
        replay-Queued hub.next notes (entered order_id hub) (ground arith) (ground arith) in
      let client : (entered order_id hub).heap hub.next ≡ new_client order_id = ground arith in
      let now =
        q.queue
        ∙ ap
            (λ (c : Client). record c {
              buffer = take send_buffer (c.buffer ++ map payload_of notes);
            })
            client in
      (
        h',
        open_socket-replay engine order_id db hub live fine ∙ e,
        record {
          queue = ap (λ (c : Client). c.buffer) now;
          watches = ap (λ (c : Client). c.order_id) now;
          alive = ap (λ (c : Client). c.closed) now;
          listed = ap (λ f. f order_id) q.sets ∙ ground arith;
          others = λ p ne. q.others p ne ∙ ground (arith, ne);
        },
      )
