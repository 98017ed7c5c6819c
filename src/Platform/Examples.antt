-- ===== src/Platform/Examples.antt =====
-- The theorems on background work at concrete numbers.
use monogo.Base.{
  ℕ, String, ◌*◌, ◌-◌, ◌^◌, ◌≡◌, refl, arith, true, false, Option, none, some, [], ◌∷◌, List, codes,
  ◌==◌, text_eq, if◌then◌else◌,
}
use Prim.Native.Nat.{min}
use monogo.Effects.{World}
use monogo.Platform.Retry.{retry_delay, retry_loop, below, double, cap}
use monogo.Platform.Delivery.{
  DeliveryJobConfig, DeliveryAttempt, Delivery, Endpoint, Deliveries, Claim, retrying,
  settle_delivery, deliver_claimed,
}
use monogo.Platform.Delivery.Outcome.{Foreign, deliver_claimed-Foreign}
use monogo.Platform.Delivery.Round.{Round, settle_delivery-Round}
use monogo.Platform.Delivery.{is_utf8}
use monogo.Platform.Retry.Bounds.{retry_delay-min}

-- 2 s, doubled three times; then 5 min.
retry_delay_test : retry_delay 2_000_000_000 300_000_000_000 4 ≡ 16_000_000_000
unfolding retry_delay retry_loop below double cap
retry_delay_test = refl

retry_delay-min_example :
    retry_delay 2_000_000_000 300_000_000_000 9 ≡ min (2_000_000_000 * 2 ^ (9 - 1)) 300_000_000_000
retry_delay-min_example =
    retry_delay-min 2_000_000_000 300_000_000_000 9 (omega arith) (omega arith)

abbrev config : DeliveryJobConfig
config = record {
  worker_id = codes "w1";
  retry_base_delay = 2_000_000_000;
  retry_max_delay = 300_000_000_000;
  max_attempts = 8;
  auto_disable_after = 5;
}

-- Claimed by a worker, for its second attempt.
abbrev claimed : String → Delivery
claimed worker = record {
  endpoint_id = 1;
  status = retrying;
  attempt_count = 2;
  next_attempt_at = 0;
  response_status = none;
  response_body = none;
  last_error = true;
  delivered_at = none;
  locked_by = some (codes worker);
}

abbrev failing : Endpoint
failing = record {
  enabled = true;
  disabled_at = none;
  disabled_reason = none;
  consecutive_failures = 4;
  last_failure_at = some 50;
}

abbrev deliveries : ℕ → Option Delivery
deliveries id =
    if id == 1 then some (claimed "w1") else if id == 2 then some (claimed "w2") else none

abbrev endpoints : ℕ → Option Endpoint
endpoints id = if id == 1 then some failing else none

abbrev world : World Deliveries (Unit {0})
world = record {
  database = record { deliveries = deliveries; endpoints = endpoints };
  keyspace = tt;
  net = [];
  now = 1000;
}

abbrev busy : DeliveryAttempt
busy = record { status_code = some 503; body = none; error = none }

abbrev claims : List Claim
claims = record { id = 1; attempt_count = 2 } ∷ record { id = 2; attempt_count = 8 } ∷ []

settle_delivery-Round_example :
    Round config
      (record { id = 1; attempt_count = 2 })
      busy
      world
      1
      failing
      (settle_delivery config (record { id = 1; attempt_count = 2 }) busy world)
unfolding text_eq
settle_delivery-Round_example =
    settle_delivery-Round config (record { id = 1; attempt_count = 2 }) busy world (claimed "w1")
      failing (omega arith) (omega arith) refl refl refl refl

-- A body that ends within a letter, and one that holds NUL.
is_utf8_test :
    (is_utf8 0 0 0 (104 ∷ 195 ∷ 164 ∷ []) ≡ true)
    × (is_utf8 0 0 0 (104 ∷ 195 ∷ []) ≡ false)
    × (is_utf8 0 0 0 (104 ∷ 0 ∷ []) ≡ false)
unfolding is_utf8
is_utf8_test = (refl, refl, refl)

deliver_claimed-Foreign_example :
    Foreign config 2
      (claimed "w2")
      (deliver_claimed config (λ d w. busy) (λ w. false) claims world).1.database
unfolding text_eq
deliver_claimed-Foreign_example =
    deliver_claimed-Foreign config (λ d w. busy) (λ w. false) claims world 2 (claimed "w2")
      (refl, refl)
