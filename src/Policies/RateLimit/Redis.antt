-- ===== src/Policies/RateLimit/Redis.antt =====
-- `RedisFixedWindowRateLimiter`. The Redis client is a parameter. `int` of a text and `str` of a number
-- are those of Python.
use Prim.Native.String.{◌++◌ as text_append}
use text.Mathlib.TextLemmas.{append_cancel_left}
use hosted_agents_saa_s_plat.Prelude.{
  string_eq, string_eq_iff, nat_eq, ℕ, zero, suc, ◌*◌, ◌+◌, ◌&&◌, Option, some, arith, sym, ◌-◌,
  ◌/◌, ◌%◌, ◌≡◌, refl, String, Bool, true, false, ◌==◌, leb, ℤ, pos, negsuc, max_ℤ, leb_ℤ,
  if◌then◌else◌, Bool-cases, inl, inr, ◌∙◌,
}
use hosted_agents_saa_s_plat.Text.{strip}
use hosted_agents_saa_s_plat.Text.Decimal.{decimal, decimal_inj}
use hosted_agents_saa_s_plat.Domain.Action.{Action, Raised, ok, pure, raise, catch, ◌>>=◌, ◌>>◌}
use hosted_agents_saa_s_plat.Domain.Models.{Datetime}
use hosted_agents_saa_s_plat.Policies.RateLimit.{window_of}

pub record RedisClient (C : Type 0) : Type 0 where
  pub incr : String → Action C ℤ
  pub expire : String → ℕ → Action C (Unit {0})

pub record RedisFixedWindowRateLimiter : Type 0 where
  pub requests_per_minute : ℤ
  pub key_prefix : String
  pub fail_open : Bool

-- `__init__`
unfoldable pub new_redis_limiter : ℤ → String → Bool → RedisFixedWindowRateLimiter
new_redis_limiter requests_per_minute key_prefix fail_open = record {
  requests_per_minute = max_ℤ requests_per_minute (pos 1);
  key_prefix = if strip key_prefix == "" then "saas:ratelimit" else strip key_prefix;
  fail_open = fail_open;
}

-- `max(1, 60 - int(now % 60))`, where `now` counts microseconds
unfoldable pub ttl_seconds : Datetime → ℕ
ttl_seconds now = let left = 60 - now / 1000000 % 60 in if leb 1 left then left else 1

unfoldable pub redis_key : RedisFixedWindowRateLimiter → Datetime → String → String
unfolding window_of decimal
redis_key limiter now key =
    text_append limiter.key_prefix
      (text_append ":" (text_append (decimal (window_of now)) (text_append ":" key)))

-- `count == 1`
abbrev is_one : ℤ → Bool
is_one (pos n) = n == 1
is_one (negsuc n) = false

module _ {C : Type 0} (redis : RedisClient C) (limiter : RedisFixedWindowRateLimiter) where
  abbrev pub expire_first : String → ℕ → ℤ → Action C (Unit {0})
  expire_first key ttl count = if is_one count then redis.expire key ttl else pure tt

  -- the `try`
  abbrev pub count_call : String → ℕ → Action C Bool
  count_call key ttl = redis.incr key >>= λ count.
      expire_first key ttl count >> pure (leb_ℤ count limiter.requests_per_minute)

  abbrev pub on_failure : Raised → Action C Bool
  on_failure e = if limiter.fail_open then pure true else raise e

  unfoldable pub allow_redis : Datetime → String → Action C Bool
  unfolding redis_key ttl_seconds
  allow_redis now key = catch (count_call (redis_key limiter now key) (ttl_seconds now)) on_failure

-- the keys of two calls are one key exactly if the calls have one window and one key
redis_key-eq :
    (limiter : RedisFixedWindowRateLimiter) (now now' : Datetime) (key key' : String)
    → (redis_key limiter now key == redis_key limiter now' key')
      ≡ (now / 60000000 == now' / 60000000 && key == key')
unfolding redis_key window_of
redis_key-eq limiter now now' key key' =
    elim (Bool-cases (redis_key limiter now key == redis_key limiter now' key')) [
      | inl one ↦
          let (same_window, same_key) = decimal_inj (window_of now) (window_of now') key key' (
            append_cancel_left ":" _ _
              (append_cancel_left limiter.key_prefix _ _ ((string_eq_iff _ _).0 one))) in
          ground (arith, one, same_window, string_eq_iff key key', same_key)
      | inr two ↦ elim (Bool-cases (now / 60000000 == now' / 60000000 && key == key')) [
        | inr other ↦ two ∙ sym other
        | inl same ↦
            let same_window : now / 60000000 ≡ now' / 60000000 = ground (arith, same) in
            let same_key : key ≡ key' = ground (arith, same, string_eq_iff key key') in
            let one : redis_key limiter now key ≡ redis_key limiter now' key' = cc in
            ground (
              arith,
              two,
              one,
              string_eq_iff (redis_key limiter now key) (redis_key limiter now' key'),
            )
      ]
    ]

-- the seconds to the end of the minute
ttl_seconds_lem : (now : Datetime) → ttl_seconds now ≡ 60 * (now / 60000000 + 1) - now / 1000000
unfolding ttl_seconds
ttl_seconds_lem now = ground arith

-- What the limiter relies on: INCR adds one to the counter of a key, which is 0 where there is none,
-- returns it and touches no other and no expiry; EXPIRE sets the expiry of a key, in seconds, and
-- touches no other and no counter, as that time is still to come.
pub record CounterLaws {C : Type 0} (redis : RedisClient C) (count : C → String → ℕ)
    (expiry : C → String → Option ℕ) : Type 0 where
  pub incremented : (k : String) (c : C) → (redis.incr k c).0 ≡ ok (pos (suc (count c k)))
  pub count-incr :
      (k : String) (c : C) (j : String)
      → count (redis.incr k c).1 j ≡ (if k == j then suc (count c k) else count c j)
  pub expiry-incr : (k : String) (c : C) (j : String) → expiry (redis.incr k c).1 j ≡ expiry c j
  pub expired : (k : String) (ttl : ℕ) (c : C) → (redis.expire k ttl c).0 ≡ ok tt
  pub count-expire :
      (k : String) (ttl : ℕ) (c : C) (j : String) → count (redis.expire k ttl c).1 j ≡ count c j
  pub expiry-expire :
      (k : String) (ttl : ℕ) (c : C) (j : String)
      → expiry (redis.expire k ttl c).1 j ≡ (if k == j then some ttl else expiry c j)

module _ {C : Type 0} (redis : RedisClient C) (count : C → String → ℕ)
    (expiry : C → String → Option ℕ) (laws : CounterLaws redis count expiry)
    (limiter : RedisFixedWindowRateLimiter) where
  expired_first :
      (k : String) (ttl n : ℕ) (c : C) (j : String)
      → ((expire_first redis limiter k ttl (pos (suc n)) c).0 ≡ ok tt)
        × (count (expire_first redis limiter k ttl (pos (suc n)) c).1 j ≡ count c j)
        × (expiry (expire_first redis limiter k ttl (pos (suc n)) c).1 j
            ≡ (if (k == j) && (n == 0) then some ttl else expiry c j))
  expired_first k ttl zero c j = (
    laws.expired k ttl c,
    laws.count-expire k ttl c j,
    laws.expiry-expire k ttl c j ∙ ground arith,
  )
  expired_first k ttl (suc n) c j =
      let more : is_one (pos (suc (suc n))) ≡ false = ground arith in
      rw more (refl, refl, ground arith)

  count_call_lem :
      (k : String) (ttl : ℕ) (c : C) (j : String)
      → ((count_call redis limiter k ttl c).0
          ≡ ok (leb_ℤ (pos (suc (count c k))) limiter.requests_per_minute))
        × (count (count_call redis limiter k ttl c).1 j
            ≡ (if k == j then suc (count c k) else count c j))
        × (expiry (count_call redis limiter k ttl c).1 j
            ≡ (if (k == j) && (count c k == 0) then some ttl else expiry c j))
  count_call_lem k ttl c j =
      let (done, same, expiring) = expired_first k ttl (count c k) (redis.incr k c).1 j in
      rw (laws.incremented k c, done)
        (refl, same ∙ laws.count-incr k c j, expiring ∙ rw (laws.expiry-incr k c j) refl)

  -- While Redis answers, a call is allowed exactly if at most requests_per_minute calls of its key were
  -- counted in its minute, this one included. It is counted for its key and minute, and for no other
  -- key or minute, and the first call of a key in a minute lets the counter expire when the minute
  -- ends, and no other call sets an expiry.
  pub allow_redis_counts :
      (now now' : Datetime) (key key' : String) (c : C)
      → let k = redis_key limiter now key in
        let k' = redis_key limiter now' key' in
        let one = (now / 60000000 == now' / 60000000) && (key == key') in
        let (r, c') = allow_redis redis limiter now key c in
        (r ≡ ok (leb_ℤ (pos (suc (count c k))) limiter.requests_per_minute))
        × (count c' k' ≡ (if one then suc (count c k) else count c k'))
        × (expiry c' k' ≡ (
            if one && (count c k == 0)
            then some (60 * (now / 60000000 + 1) - now / 1000000)
            else expiry c k'))
  unfolding allow_redis
  allow_redis_counts now now' key key' c =
      let (allowed, counted, expiring) =
        count_call_lem (redis_key limiter now key) (ttl_seconds now) c
          (redis_key limiter now' key') in
      rw (← (redis_key-eq limiter now now' key key'), ← (ttl_seconds_lem now), allowed)
        (refl, counted, expiring)
