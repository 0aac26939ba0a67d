-- ===== src/Idempotency/Redis.antt =====
-- internal/idempotency/redis_store.go, over go-redis, which is a parameter. The text that fmt.Errorf puts in front
-- of an error is left out.
use order_processing_system.Base.{
  ℕ, ◌≡◌, sym, ap, ◌∙◌, inl, inr, Bool, true, false, not, ◌&&◌, ◌||◌, Option, none, some, codes,
  arith, subst, Bool-cases, Option-cases,
}
use order_processing_system.Base.Int.{ℤ}
use order_processing_system.Models.{Text, text_eq, text_eq_refl, text_eq_sound, Result, ok, err}
use order_processing_system.Idempotency.{Store, Exclusive}

-- SET key value NX EX ttl and DEL, with what Redis documents of them. `value s key` is the value of a key that has
-- not expired. A call that fails may or may not have had its effect.
pub record RedisClient (S : Type 0) : Type 0 where
  pub set_nx : Text → Text → ℤ → S → Result Bool × S
  pub del : Text → S → Result ℕ × S
  pub value : S → Text → Option Text
  pub sets :
      (key v : Text) (ttl : ℤ) (s : S) (b : Bool)
      → value s key ≡ none
      → (set_nx key v ttl s).0 ≡ ok b
      → (b ≡ true) × (value (set_nx key v ttl s).1 key ≡ some v)
  pub leaves :
      (key v x : Text) (ttl : ℤ) (s : S) (b : Bool)
      → value s key ≡ some x
      → (set_nx key v ttl s).0 ≡ ok b
      → (b ≡ false) × (value (set_nx key v ttl s).1 key ≡ some x)
  pub set_others :
      (key v k : Text) (ttl : ℤ) (s : S)
      → text_eq k key ≡ false
      → value (set_nx key v ttl s).1 k ≡ value s k
  pub deletes : (key : Text) (s : S) (n : ℕ) → (del key s).0 ≡ ok n → value (del key s).1 key ≡ none
  pub del_others :
      (key k : Text) (s : S) → text_eq k key ≡ false → value (del key s).1 k ≡ value s k

module _ {S : Type 0} (client : RedisClient S) where
  unfoldable pub reserve : Text → ℤ → S → Result Bool × S
  reserve key ttl s =
      let (r, s') = client.set_nx key (codes "1") ttl s in
      elim r [ err e ↦ (err e, s') | ok acquired ↦ (ok acquired, s') ]

  unfoldable pub release : Text → S → Result (Unit {0}) × S
  release key s =
      let (r, s') = client.del key s in elim r [ err e ↦ (err e, s') | ok n ↦ (ok tt, s') ]

  unfoldable pub redis_store : Store S
  unfolding reserve release
  redis_store = record { reserve = reserve; release = release }

-- What the interface promises, as a set of held keys.
abbrev pub claim : Text → (Text → Bool) → Text → Bool
claim key held k = text_eq k key || held k

abbrev pub drop_claim : Text → (Text → Bool) → Text → Bool
drop_claim key held k = not (text_eq k key) && held k

-- The store behaves as the set of the keys that it holds.
pub record KeySet {S : Type 0} (store : Store S) (held : S → Text → Bool) : Type 0 where
  pub answers : (key : Text) (ttl : ℤ) (s : S) → (store.reserve key ttl s).0 ≡ ok (not (held s key))
  pub claims :
      (key k : Text) (ttl : ℤ) (s : S) → held (store.reserve key ttl s).1 k ≡ claim key (held s) k
  pub releases : (key k : Text) (s : S) → held (store.release key s).1 k ≡ drop_claim key (held s) k

pub KeySet-Exclusive :
    {S : Type 0} (store : Store S) (held : S → Text → Bool) → KeySet store held → Exclusive store
KeySet-Exclusive store held k = record {
  held = held;
  claims = λ key ttl s e. k.claims key key ttl s ∙ ground (arith, text_eq_refl key);
  excludes = λ key ttl s h. k.answers key ttl s ∙ ap (λ b. ok (not b)) h;
}

abbrev pub is_some : Option Text → Bool
is_some none = false
is_some (some x) = true

module _ {S : Type 0} (client : RedisClient S)
    (set_answered : (key v : Text) (ttl : ℤ) (s : S)
      → (b : Bool) × ((client.set_nx key v ttl s).0 ≡ ok b))
    (del_answered : (key : Text) (s : S) → (n : ℕ) × ((client.del key s).0 ≡ ok n)) where
  -- The keys with a live value.
  abbrev pub live : S → Text → Bool
  live s key = is_some (client.value s key)

  reserve-same :
      (key : Text) (ttl : ℤ) (s : S)
      → reserve client key ttl s ≡ client.set_nx key (codes "1") ttl s
  unfolding reserve
  reserve-same key ttl s = let (b, e) = set_answered key (codes "1") ttl s in ground (arith, e)

  reserve-live :
      (key : Text) (ttl : ℤ) (s : S)
      → let p = client.set_nx key (codes "1") ttl s in
        (p.0 ≡ ok (not (live s key))) × (live p.1 key ≡ true)
  reserve-live key ttl s =
      let (b, e) = set_answered key (codes "1") ttl s in
      elim (Option-cases (client.value s key)) [
        | inl free ↦
            let (won, now) = client.sets key (codes "1") ttl s b free e in
            (e ∙ ap ok (ground (arith, won, free)), ap is_some now)
        | inr (x, taken) ↦
            let (lost, still) = client.leaves key (codes "1") x ttl s b taken e in
            (e ∙ ap ok (ground (arith, lost, taken)), ap is_some still)
      ]

  set_live :
      (key k : Text) (ttl : ℤ) (s : S)
      → live (client.set_nx key (codes "1") ttl s).1 k ≡ claim key (live s) k
  set_live key k ttl s = elim (Bool-cases (text_eq k key)) [
    | inl same ↦
        let here = text_eq_sound k key same in
        subst (λ t. live (client.set_nx key (codes "1") ttl s).1 t ≡ claim key (live s) t)
          (sym here) ((reserve-live key ttl s).1 ∙ ground (arith, text_eq_refl key))
    | inr other ↦
        ap is_some (client.set_others key (codes "1") k ttl s other) ∙ ground (arith, other)
  ]

  release-live :
      (key k : Text) (s : S) → live (release client key s).1 k ≡ drop_claim key (live s) k
  unfolding release
  release-live key k s =
      let (n, e) = del_answered key s in
      let gone = client.deletes key s n e in
      elim (Bool-cases (text_eq k key)) [
        | inl same ↦
            let here = text_eq_sound k key same in
            let none_left = ap (λ t. client.value (client.del key s).1 t) here ∙ gone in
            ground (arith, e, same, none_left)
        | inr other ↦ let kept = client.del_others key k s other in ground (arith, e, other, kept)
      ]

  -- Over a Redis that answers every call and does what it documents for SET NX and DEL, the Redis
  -- store behaves as the set of the keys with a live value: a reservation succeeds exactly when the
  -- key is not held and holds it, a release drops that key, and no other key changes.
  pub redis_store-KeySet : KeySet (redis_store client) live
  unfolding redis_store
  redis_store-KeySet = record {
    answers = λ key ttl s.
        ap (λ (p : Result Bool × S). p.0) (reserve-same key ttl s) ∙ (reserve-live key ttl s).0;
    claims = λ key k ttl s.
        ap (λ (p : Result Bool × S). live p.1 k) (reserve-same key ttl s) ∙ set_live key k ttl s;
    releases = release-live;
  }
