-- ===== src/Ws/Hub/Sound.antt =====
-- The invariant of internal/ws/hub.go: whoever is in a set has an open channel, and each operation keeps
-- it and does not panic.
use order_processing_system.Base.{
  ℕ, ◌≤◌, ◌<◌, ◌≡◌, ◌≢◌, refl, sym, ap, ◌∙◌, Bool, true, false, not, ◌&&◌, ◌||◌, Option, some, List,
  [], ◌∷◌, ◌++◌, ◌==◌, length, length-append, arith, All, subst, inl, inr, Bool-cases,
}
use order_processing_system.Models.{Text}
use order_processing_system.Ws.Hub.{
  Client, Hub, send_buffer, update, member, without, close_send, remove, has_room, offer, fan_out,
  notify,
}

pub record Open (h : Hub) (k p : ℕ) : Type 0 where
  pub watches : (h.heap p).order_id ≡ k
  pub alive : (h.heap p).closed ≡ false
  pub used : p < h.next

abbrev pub NoDup : List ℕ → Type 0
NoDup [] = Unit {0}
NoDup (x ∷ xs) = (member x xs ≡ false) × NoDup xs

pub record Sound (h : Hub) : Type 0 where
  pub members : (k p : ℕ) → member p (h.clients k) ≡ true → Open h k p
  pub nodup : (k : ℕ) → NoDup (h.clients k)
  pub bounded : (p : ℕ) → length (h.heap p).buffer ≤ send_buffer

pub member-without :
    (q p : ℕ) (xs : List ℕ) → member q (without p xs) ≡ (not (q == p) && member q xs)
member-without q p [] = ground arith
member-without q p (x ∷ xs) = ground (arith, member-without q p xs)

NoDup-without : (p : ℕ) (xs : List ℕ) → NoDup xs → NoDup (without p xs)
NoDup-without p [] d = tt
NoDup-without p (x ∷ xs) d = elim (Bool-cases (x == p)) [
  | inl same ↦ rw same (NoDup-without p xs d.1)
  | inr other ↦ rw other (rw (member-without x p xs) (ground (arith, d.0)), NoDup-without p xs d.1)
]

-- An operation on one client leaves every other client as it is.
abbrev pub Apart : ℕ → Hub → Hub → Type 0
Apart p h h' = ((q : ℕ) → q ≢ p → h'.heap q ≡ h.heap q) × (h'.next ≡ h.next) × (h'.done ≡ h.done)

abbrev pub Done : ℕ → Hub → Option Hub → Type 0
Done p h o = (h' : Hub) × (o ≡ some h') × Sound h' × Apart p h h'

abbrev pub dropped : ℕ → Hub → Hub
dropped p h = record h {
  clients = update h.clients (h.heap p).order_id (without p (h.clients (h.heap p).order_id));
  heap = update h.heap p (record (h.heap p) { closed = true });
}

dropped-other : (p : ℕ) (h : Hub) (k q : ℕ) → (q == p) ≡ false → Open h k q → Open (dropped p h) k q
dropped-other p h k q ne o = record {
  watches = rw ne o.watches;
  alive = rw ne o.alive;
  used = o.used;
}

both : (a b : Bool) → (not a && b) ≡ true → (a ≡ false) × (b ≡ true)
both a b e = ground arith

another_order :
    (h : Hub) (p q k : ℕ) → q ≡ p → (h.heap q).order_id ≡ k → (k == (h.heap p).order_id) ≡ false → ⊥
another_order h p q k e w away =
    let same : k ≡ (h.heap p).order_id = sym w ∙ ap (λ n. (h.heap n).order_id) e in
    ground (arith, same)

dropped-Open :
    (p : ℕ) (h : Hub)
    → Sound h
    → (k q : ℕ) → member q ((dropped p h).clients k) ≡ true
    → Open (dropped p h) k q
dropped-Open p h s k q m = elim (Bool-cases (k == (h.heap p).order_id)) [
  | inl here ↦
      let order = (h.heap p).order_id in
      let (ne, was) =
        both (q == p) (member q (h.clients order))
          (sym (member-without q p (h.clients order)) ∙ (rw here at m)) in
      let same : order ≡ k = ground arith in
      dropped-other p h k q ne (subst (λ n. Open h n q) same (s.members order q was))
  | inr away ↦
      let o = s.members k q (rw away at m) in
      let apart : q ≢ p = λ e. another_order h p q k e o.watches away in
      dropped-other p h k q (ground (arith, apart)) o
]

dropped-Sound : (p : ℕ) (h : Hub) → Sound h → Sound (dropped p h)
dropped-Sound p h s = record {
  members = dropped-Open p h s;
  nodup = λ k. elim (Bool-cases (k == (h.heap p).order_id)) [
    | inl here ↦ rw here (NoDup-without p _ (s.nodup (h.heap p).order_id))
    | inr away ↦ rw away (s.nodup k)
  ];
  bounded = λ q. elim (Bool-cases (q == p)) [
    | inl same ↦ rw same (s.bounded p)
    | inr other ↦ rw other (s.bounded q)
  ];
}

pub remove-Done : (p : ℕ) (h : Hub) → Sound h → Done p h (remove p h)
unfolding remove close_send
remove-Done p h s = elim (Bool-cases (member p (h.clients (h.heap p).order_id))) [
  | inl inside ↦
      let o = s.members (h.heap p).order_id p inside in
      (
        dropped p h,
        rw (inside, o.alive) refl,
        dropped-Sound p h s,
        ((λ q ne. ground (arith, ne)), refl, refl),
      )
  | inr outside ↦ (h, rw outside refl, s, ((λ q ne. refl), refl, refl))
]

-- A change of one queue alone.
abbrev pub requeued : ℕ → List Text → Hub → Hub
requeued p b h = record h { heap = update h.heap p (record (h.heap p) { buffer = b }) }

pub requeued-Sound :
    (p : ℕ) (b : List Text) (h : Hub) → length b ≤ send_buffer → Sound h → Sound (requeued p b h)
requeued-Sound p b h fits s = record {
  members = λ k q m.
      let o = s.members k q m in
      record {
        watches = ground (arith, o.watches);
        alive = ground (arith, o.alive);
        used = o.used;
      };
  nodup = s.nodup;
  bounded = λ q. elim (Bool-cases (q == p)) [
    | inl same ↦ rw same fits
    | inr other ↦ rw other (s.bounded q)
  ];
}

pub offer-full :
    (p : ℕ) (payload : Text) (h : Hub)
    → (h.heap p).closed ≡ false
    → has_room (h.heap p) ≡ false
    → offer p payload h ≡ remove p h
unfolding offer
offer-full p payload h alive full = ground arith

pub offer-Done :
    (p : ℕ) (payload : Text) (h : Hub)
    → Sound h
    → (h.heap p).closed ≡ false
    → Done p h (offer p payload h)
unfolding offer
offer-Done p payload h s alive = elim (Bool-cases (has_room (h.heap p))) [
  | inl room ↦
      let b = (h.heap p).buffer ++ (payload ∷ []) in
      (
        requeued p b h,
        rw (alive, room) refl,
        requeued-Sound p b h (ground (arith, room, length-append (h.heap p).buffer (payload ∷ [])))
            s,
        ((λ q ne. ground (arith, ne)), refl, refl),
      )
  | inr full ↦ subst (Done p h) (sym (offer-full p payload h alive full)) (remove-Done p h s)
]

abbrev pub Alive : Hub → List ℕ → Type 0
Alive h = All (λ p. (h.heap p).closed ≡ false)

pub Alive-Apart :
    (p : ℕ) (h h' : Hub) (ps : List ℕ)
    → Apart p h h'
    → member p ps ≡ false
    → Alive h ps
    → Alive h' ps
Alive-Apart p h h' [] a m o = tt
Alive-Apart p h h' (q ∷ qs) a m o =
    let ne : q ≢ p = λ e. ground arith in
    (ap (λ (c : Client). c.closed) (a.0 q ne) ∙ o.0, Alive-Apart p h h' qs a (ground arith) o.1)

abbrev pub Delivered : Hub → Option (Bool × Hub) → Type 0
Delivered h o =
    (answer : Bool) × (h' : Hub) × (o ≡ some (answer, h'))
    × Sound h'
    × (h'.next ≡ h.next)
    × (h'.done ≡ h.done)

pub fan_out-Delivered :
    (ps : List ℕ) (payload : Text) (delivered : Bool) (h : Hub)
    → Sound h
    → NoDup ps
    → Alive h ps
    → Delivered h (fan_out ps payload delivered h)
unfolding fan_out
fan_out-Delivered [] payload delivered h s d o = (delivered, h, refl, s, refl, refl)
fan_out-Delivered (p ∷ ps) payload delivered h s d o =
    let (h', e, s', a) = offer-Done p payload h s o.0 in
    let (answer, h'', e', s'', n, f) =
      fan_out-Delivered ps payload (delivered || has_room (h.heap p)) h' s' d.1
        (Alive-Apart p h h' ps a d.0 o.1) in
    (answer, h'', rw (e, fan_out) e', s'', n ∙ a.1, f ∙ a.2)

pub Alive-members :
    (h : Hub) (k : ℕ) (ps : List ℕ) → ((p : ℕ) → member p ps ≡ true → Open h k p) → Alive h ps
Alive-members h k [] o = tt
Alive-members h k (p ∷ ps) o =
    ((o p (ground arith)).alive, Alive-members h k ps (λ q m. o q (ground (arith, m))))

pub notify-live :
    (order : ℕ) (payload : Text) (h : Hub)
    → h.done ≡ false
    → notify order payload h ≡ fan_out (h.clients order) payload false h
unfolding notify
notify-live order payload h live = ground arith

pub notify-Delivered :
    (order : ℕ) (payload : Text) (h : Hub) → Sound h → Delivered h (notify order payload h)
unfolding notify
notify-Delivered order payload h s = elim (Bool-cases h.done) [
  | inl over ↦ (false, h, ground arith, s, refl, refl)
  | inr live ↦ subst (Delivered h) (sym (notify-live order payload h live)) (
      fan_out-Delivered (h.clients order) payload false h s (s.nodup order)
        (Alive-members h order (h.clients order) (s.members order)))
]
