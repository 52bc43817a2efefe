-- ===== src/Client/Backoff.antt =====
-- The delays of `run_client_with_retry` of src/client.rs.
use easynet.Prelude.{
  ℕ, zero, suc, ◌*◌, ◌^◌, ◌≡◌, true, List, [], ◌∷◌, ◌++◌, ok, err, min, length, All, arith,
}
use native.Mathlib.Nat.{pow-suc}
use easynet.Text.{Unicode}
use easynet.Client.{
  ClientConfig, ClientError, ClientCalls, IpParser, run_client_from_config, max_retry_delay, retry,
  run_client_with_retry,
}

-- The delay after `i` failed attempts before.
abbrev pub delay : ℕ → ℕ
delay i = min (2 ^ i) max_retry_delay

-- That many delays, from the `i`-th on.
abbrev pub delays_from : ℕ → ℕ → List ℕ
delays_from i zero = []
delays_from i (suc n) = delay i ∷ delays_from (suc i) n

delay_doubles : (i : ℕ) → min (delay i * 2) max_retry_delay ≡ delay (suc i)
delay_doubles i = rw (pow-suc 2 i) (capped (2 ^ i))
  where
    capped : (x : ℕ) → min (min x 300 * 2) 300 ≡ min (x * 2) 300
    capped x = omega arith

module _ (uni : Unicode) (parse : IpParser) (config : ClientConfig) where
  -- The attempt ends in an error.
  abbrev pub Fails : ClientCalls → Type 0
  Fails calls = (e : ClientError) × (run_client_from_config uni parse config calls ≡ err e)

  retry-delays :
      (i : ℕ) (failing after : List ClientCalls) (calls : ClientCalls)
      → All Fails failing
      → run_client_from_config uni parse config calls ≡ ok tt
      → retry uni parse config (delay i) (failing ++ calls ∷ after)
        ≡ (delays_from i (length failing), true)
  unfolding retry
  retry-delays i [] after calls h good = rw (good, retry)
  retry-delays i (f ∷ failing) after calls h good =
      let (e, failed) = h.0 in
      rw (failed, retry, delay_doubles i, retry-delays (suc i) failing after calls h.1 good)

  -- The client that fails some times and then succeeds sleeps after each failure, at first for one
  -- second, each time for twice as long as before but never for more than 300 seconds, and makes no
  -- attempt behind the success.
  pub run_client_with_retry-delays :
      (failing after : List ClientCalls) (calls : ClientCalls)
      → All Fails failing
      → run_client_from_config uni parse config calls ≡ ok tt
      → run_client_with_retry uni parse config (failing ++ calls ∷ after)
        ≡ (delays_from 0 (length failing), true)
  unfolding run_client_with_retry
  run_client_with_retry-delays failing after calls h good =
      retry-delays 0 failing after calls h good
