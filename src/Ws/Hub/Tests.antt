-- ===== src/Ws/Hub/Tests.antt =====
-- A hub with two clients of one order, and the theorems on internal/ws/hub.go at it.
use order_processing_system.Base.{
  ℕ, zero, suc, ◌≡◌, refl, true, some, List, [], ◌∷◌, arith, ◌==◌, inl, inr, Bool-cases,
}
use order_processing_system.Models.{Text}
use order_processing_system.Ws.Hub.{
  Hub, new_hub, new_client, update, notify, fan_out, offer, remove, close_send,
}
use order_processing_system.Ws.Hub.Sound.{Sound}
use order_processing_system.Ws.Hub.Events.{
  Event, connect, leave, publish, take_one, shut_down, run, run-Sound,
}
use order_processing_system.Ws.Hub.Delivery.{any_room, Fanned, notify-Fanned}

abbrev day : List Event
day =
    connect 7
    ∷ connect 7
    ∷ publish 7 (1 ∷ [])
    ∷ leave 0
    ∷ publish 7 (2 ∷ [])
    ∷ take_one 1
    ∷ leave 0
    ∷ shut_down
    ∷ publish 7 (3 ∷ [])
    ∷ []

new_hub-Sound : Sound new_hub
new_hub-Sound = record { members = λ k p m. cc; nodup = λ k. tt; bounded = λ p. omega arith }

run-Sound_example : (h : Hub) × (run day new_hub ≡ some h) × Sound h
run-Sound_example = run-Sound day new_hub new_hub-Sound (omega arith)

abbrev full_queue : ℕ → List Text
full_queue zero = []
full_queue (suc n) = [] ∷ full_queue n

-- Client 1 has read nothing of 32 payloads.
abbrev two_clients : Hub
two_clients = record new_hub {
  clients = update (λ _. []) 7 (1 ∷ 0 ∷ []);
  heap = update (λ _. new_client 7) 1 (record (new_client 7) { buffer = full_queue 32 });
  next = 2;
}

two_clients-Sound : Sound two_clients
two_clients-Sound = record {
  members = λ k p m. elim (Bool-cases (p == 1)) [
    | inl slow ↦ record {
      watches = ground (arith, slow);
      alive = ground (arith, slow);
      used = ground arith;
    }
    | inr other ↦ record {
      watches = ground (arith, other);
      alive = ground (arith, other);
      used = ground arith;
    }
  ];
  nodup = λ k. elim (Bool-cases (k == 7)) [
    | inl here ↦ rw here (refl, (refl, tt))
    | inr away ↦ rw away tt
  ];
  bounded = λ p. elim (Bool-cases (p == 1)) [
    | inl slow ↦ rw slow (omega arith)
    | inr other ↦ rw other (omega arith)
  ];
}

two_clients_answer : (h : Hub) × (notify 7 (1 ∷ []) two_clients ≡ some (true, h))
unfolding notify fan_out offer remove close_send
two_clients_answer = (_, refl)

notify-Fanned_example :
    (h : Hub) × (notify 7 (1 ∷ []) two_clients ≡ some (any_room two_clients (1 ∷ 0 ∷ []), h))
    × Fanned 7 (1 ∷ 0 ∷ []) (1 ∷ []) two_clients h
notify-Fanned_example = notify-Fanned 7 (1 ∷ []) two_clients two_clients-Sound refl
