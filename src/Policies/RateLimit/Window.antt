-- ===== src/Policies/RateLimit/Window.antt =====
-- How many calls the limiter of rate_limit.py grants to a key in one window.
use Prim.Native.Nat.{min}
use native.Mathlib.Decide.{dec_lt}
use hosted_agents_saa_s_plat.Prelude.{
  string_eq, nat_eq, string_eq_iff, ℕ, ◌+◌, ◌-◌, ◌≤◌, ◌<◌, String, Bool, true, false, ◌&&◌, ◌≡◌,
  refl, Option, none, some, List, [], ◌∷◌, ◌==◌, ℤ, pos, max_ℤ, pos_part, if◌then◌else◌, arith, ◌⊎◌,
  ap, ltb, inl, inr,
}
use hosted_agents_saa_s_plat.Collections.Dict.{get, get-put, get-empty}
use hosted_agents_saa_s_plat.Domain.Models.{Datetime}
use hosted_agents_saa_s_plat.Policies.RateLimit.{
  FixedWindowRateLimiter, new_limiter, window_of, current, allow_in, allow,
}

abbrev pub Calls : Type 0
Calls = List (Datetime × String)

-- a call for the key in the window
abbrev asks : String → ℕ → Datetime × String → Bool
asks key window (now, j) = j == key && window_of now == window

pub requested : String → ℕ → Calls → ℕ
requested key window [] = 0
requested key window (call ∷ calls) =
    (if asks key window call then 1 else 0) + requested key window calls

pub granted : String → ℕ → Calls → FixedWindowRateLimiter → ℕ
granted key window [] s = 0
granted key window (call ∷ calls) s =
    let (allowed, s') = allow call.0 call.1 s in
    (if allowed && asks key window call then 1 else 0) + granted key window calls s'

-- The clock does not go back to an earlier window.
abbrev pub Ordered : ℕ → Calls → Type 0
Ordered lo [] = Unit
Ordered lo (call ∷ calls) = (lo ≤ window_of call.0) × Ordered (window_of call.0) calls

requested_earlier :
    (key : String) (window lo : ℕ) (calls : Calls)
    → window < lo
    → Ordered lo calls
    → requested key window calls ≡ 0
unfolding requested
requested_earlier key window lo [] h o = refl
requested_earlier key window lo (call ∷ calls) h o =
    ground (arith, requested_earlier key window (window_of call.0) calls (omega arith) o.1)

abbrev used : ℕ → Option (ℕ × ℕ) → ℕ
used window none = 0
used window (some (w, count)) = if w == window then count else 0

abbrev Behind : ℕ → Option (ℕ × ℕ) → Type 0
Behind lo none = Unit
Behind lo (some (w, count)) = w ≤ lo

-- one call, for the entry of the key
module _ (now : ℕ) (s : FixedWindowRateLimiter) where
  same_limit : (j : String) → (allow_in now j s).1.requests_per_minute ≡ s.requests_per_minute
  unfolding allow_in
  same_limit j = ground arith

  Behind-after :
      (j key : String) (lo : ℕ)
      → lo ≤ now
      → Behind lo (get s.counters key)
      → Behind now (get (allow_in now j s).1.counters key)
  unfolding allow_in
  Behind-after j key lo h b = ground (
    arith,
    get-put s.counters j key (current now (get s.counters j)),
    get-put s.counters j key
        ((current now (get s.counters j)).0, (current now (get s.counters j)).1 + 1),
    string_eq_iff j key,
  )

  -- another key's entry stays
  entry_other :
      (j key : String)
      → (j == key) ≡ false
      → get (allow_in now j s).1.counters key ≡ get s.counters key
  unfolding allow_in
  entry_other j key h = ground (
    arith,
    get-put s.counters j key (current now (get s.counters j)),
    get-put s.counters j key
        ((current now (get s.counters j)).0, (current now (get s.counters j)).1 + 1),
  )

  -- the room that is left in the window goes down by the call, if it was granted
  used_after :
      (key : String)
      → used now (get (allow_in now key s).1.counters key)
        ≡ used now (get s.counters key) + (if (allow_in now key s).0 then 1 else 0)
  unfolding allow_in
  used_after key = ground (
    arith,
    get-put s.counters key key (current now (get s.counters key)),
    get-put s.counters key key
        ((current now (get s.counters key)).0, (current now (get s.counters key)).1 + 1),
    string_eq_iff key key,
  )

  grants :
      (key : String)
      → (allow_in now key s).0 ≡ ltb (used now (get s.counters key)) s.requests_per_minute
  unfolding allow_in
  grants key = ground arith

used-Behind : (lo window : ℕ) (e : Option (ℕ × ℕ)) → Behind lo e → lo < window → used window e ≡ 0
used-Behind lo window none b h = refl
used-Behind lo window (some (w, count)) b h = ground arith

-- one call counted on both sides, in numbers
count_step :
    (b same here : Bool) (g r limit u u' : ℕ)
    → g ≡ min r (limit - u')
    → (same ≡ false → u' ≡ u)
    → (same ≡ true → here ≡ true → (u' ≡ u + (if b then 1 else 0)) × (b ≡ ltb u limit))
    → (same ≡ true → here ≡ false → (r ≡ 0) ⊎ ((u ≡ 0) × (u' ≡ 0)))
    → (if b && (same && here) then 1 else 0) + g
      ≡ min ((if same && here then 1 else 0) + r) (limit - u)
count_step b true true g r limit u u' h p q z = ground (arith, q refl refl)
count_step b true false g r limit u u' h p q z = ground (arith, z refl refl)
count_step b false here g r limit u u' h p q z = ground (arith, p refl)

module _ (t : Datetime) (j key : String) (window lo : ℕ) (calls : Calls)
    (s : FixedWindowRateLimiter) (o : Ordered lo ((t, j) ∷ calls))
    (b : Behind lo (get s.counters key)) where
  in_window :
      (j == key) ≡ true
      → (window_of t == window) ≡ true
      → (used window (get (allow_in (window_of t) j s).1.counters key)
          ≡ used window (get s.counters key) + (if (allow_in (window_of t) j s).0 then 1 else 0))
        × ((allow_in (window_of t) j s).0
            ≡ ltb (used window (get s.counters key)) s.requests_per_minute)
  in_window same here =
      rw ((string_eq_iff j key).0 same, ← (nat_eq.equals_iff (window_of t) window).0 here)
        (used_after (window_of t) s key, grants (window_of t) s key)

  out_of_window :
      (window_of t == window) ≡ false
      → (requested key window calls ≡ 0)
        ⊎ ((used window (get s.counters key) ≡ 0)
            × (used window (get (allow_in (window_of t) j s).1.counters key) ≡ 0))
  out_of_window away = elim (dec_lt window (window_of t)) [
    | yes past ↦ inl (requested_earlier key window (window_of t) calls past o.1)
    | no not_past ↦
        let ahead : window_of t < window = ground arith in
        inr (
          used-Behind lo window _ b (omega arith),
          used-Behind (window_of t) window _ (Behind-after (window_of t) s j key lo o.0 b) ahead,
        )
  ]

granted_from :
    (key : String) (window lo : ℕ) (calls : Calls) (s : FixedWindowRateLimiter)
    → Ordered lo calls
    → Behind lo (get s.counters key)
    → granted key window calls s
      ≡ min (requested key window calls) (s.requests_per_minute - used window (get s.counters key))
unfolding granted requested allow
granted_from key window lo [] s o b = omega arith
granted_from key window lo ((t, j) ∷ calls) s o b =
    let now = window_of t in
    let ih =
      granted_from key window now calls (allow_in now j s).1 o.1
        (Behind-after now s j key lo o.0 b) in
    count_step (allow_in now j s).0 (j == key) (now == window) _ _ s.requests_per_minute
      (used window (get s.counters key)) (used window (get (allow_in now j s).1.counters key))
      (rw same_limit at ih) (λ other. ap (used window) (entry_other now s j key other))
      (in_window t j key window lo calls s o b)
      (λ same. out_of_window t j key window lo calls s o b)

-- In calls whose clock does not go back, a new limiter grants a key exactly its first
-- `max(requests_per_minute, 1)` calls of each window, whatever other keys and windows do.
pub granted-eq-min :
    (requests_per_minute : ℤ) (key : String) (window : ℕ) (calls : Calls)
    → Ordered 0 calls
    → granted key window calls (new_limiter requests_per_minute)
      ≡ min (requested key window calls) (pos_part (max_ℤ requests_per_minute (pos 1)))
unfolding new_limiter
granted-eq-min requests_per_minute key window calls o =
    rw (granted_from key window 0 calls (new_limiter requests_per_minute) o (rw get-empty tt))
      (rw get-empty (omega arith))
