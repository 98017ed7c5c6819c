-- ===== src/Platform/Retry/Bounds.antt =====
-- The delays grow as they should and stay in their bounds.
use monogo.Base.{ℕ, zero, suc, ◌-◌, ◌*◌, ◌^◌, ◌≤◌, ◌<◌, ◌≡◌, ltb, if◌then◌else◌, arith, ◌∙◌, ap}
use Prim.Native.Nat.{min}
use native.Mathlib.Nat.{pow-suc}
use monogo.Platform.Retry.{below, double, cap, retry_loop, retry_delay, duration_seconds}

below-ltb : (a b : ℕ) → a < 2 ^ 63 → b < 2 ^ 63 → below a b ≡ ltb a b
unfolding below
below-ltb a b h k = ground arith

double-exact : (a : ℕ) → a < 2 ^ 63 → double a ≡ 2 * a
unfolding double
double-exact a h = omega arith

cap-min : (a b : ℕ) → a < 2 ^ 63 → b < 2 ^ 63 → cap a b ≡ min a b
unfolding cap
cap-min a b h k = rw (below-ltb b a k h) (ground arith)

pow_positive : (n : ℕ) → 0 < 2 ^ n
pow_positive zero = omega arith
pow_positive (suc n) = omega (arith, pow_positive n)

le_scaled : (d p : ℕ) → 0 < p → d ≤ d * p
le_scaled d zero h = omega arith
le_scaled d (suc p) h = omega arith

doubled : (d n : ℕ) → 2 * d * 2 ^ n ≡ d * 2 ^ suc n
doubled d n = grind (arith, pow-suc)

-- One round, where the rounds that follow give `rest`.
round-min :
    (d m p rest : ℕ)
    → 0 < p
    → (2 * d < m → rest ≡ min (2 * d * p) m)
    → (if ltb d m then if ltb (2 * d) m then rest else m else min d m) ≡ min (2 * d * p) m
round-min d m p rest h e = ground (arith, le_scaled (2 * d) p h)

retry_loop-min :
    (rounds d m : ℕ) → d < 2 ^ 62 → m ≤ 2 ^ 62 → retry_loop rounds d m ≡ min (d * 2 ^ rounds) m
unfolding retry_loop
retry_loop-min zero d m hd hm =
    cap-min d m (omega (arith, hd)) (omega (arith, hm)) ∙ ap (λ t. min t m) (omega arith)
retry_loop-min (suc n) d m hd hm = rw (below-ltb d m (omega (arith, hd)) (omega (arith, hm))) (
    rw (double-exact d (omega (arith, hd))) (
      rw (below-ltb (2 * d) m (omega (arith, hd)) (omega (arith, hm))) (
        rw (cap-min d m (omega (arith, hd)) (omega (arith, hm))) (
          round-min d m (2 ^ n) _ (pow_positive n)
            (λ h. retry_loop-min n (2 * d) m (omega (arith, h, hm)) hm)
          ∙ ap (λ t. min t m) (doubled d n)))))

-- With a base delay below 2^62 ns and a maximal delay up to there (146 years), the delay before the next attempt is
-- the base delay, doubled for each attempt after the first, and cut at the maximum: no doubling
-- wraps around.
pub retry_delay-min :
    (base_delay max_delay attempt : ℕ)
    → base_delay < 2 ^ 62
    → max_delay ≤ 2 ^ 62
    → retry_delay base_delay max_delay attempt ≡ min (base_delay * 2 ^ (attempt - 1)) max_delay
unfolding retry_delay
retry_delay-min base_delay max_delay attempt h k =
    retry_loop-min (attempt - 1) base_delay max_delay h k

-- Whole seconds, but at least one and at most the largest int32.
pub duration_seconds-bounds :
    (v : ℕ)
    → (1 ≤ duration_seconds v)
      × (duration_seconds v < 2 ^ 31)
      × (1_000_000_000 ≤ v → v < 2 ^ 31 * 1_000_000_000 → duration_seconds v * 1_000_000_000 ≤ v)
unfolding duration_seconds
duration_seconds-bounds v = ground arith
