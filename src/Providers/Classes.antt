-- ===== src/Providers/Classes.antt =====
-- Which answers put a key, an upstream or the client at fault.
use void_switch.Base.{ℕ, [], ◌∷◌, false, ◌==◌, ◌≡◌, ◌≤◌, ◌<◌, ◌↔◌, arith, any, All}
use void_switch.Base.Json.{Json}
use void_switch.Providers.{
  ErrorClass, PyText, classify, classify_deepseek, classify_xai, classify_grok,
}

-- To the base adapter, an answer counts as served exactly for a status of the 200s, as the client's fault exactly for
-- the statuses of the 400s but the eight that are blamed on the key, the model or the upstream, and
-- no status below 400 is ever the client's fault.
pub classify_table :
    (status : ℕ)
    → ((classify status ≡ ErrorClass.fine) ↔ ((200 ≤ status) × (status < 300)))
      × ((classify status ≡ ErrorClass.bad_request) ↔ (
          (400 ≤ status)
          × (status < 500)
          × (any (λ n. n == status) (401 ∷ 402 ∷ 403 ∷ 404 ∷ 408 ∷ 409 ∷ 425 ∷ 429 ∷ []) ≡ false)))
unfolding classify
classify_table status = ground arith

-- What an adapter must not make of an answer: it is served only under a status of the 200s, the
-- client's fault only under one of the 400s that is not put down to the key, the model or the
-- upstream, and rate limited only under 429.
abbrev pub IsSensible : ℕ → ErrorClass → Type 0
IsSensible status ErrorClass.fine = (200 ≤ status) × (status < 300)
IsSensible status ErrorClass.bad_request =
    (400 ≤ status)
    × (status < 500)
    × (any (λ n. n == status) (401 ∷ 402 ∷ 403 ∷ 404 ∷ 408 ∷ 409 ∷ 425 ∷ 429 ∷ []) ≡ false)
IsSensible status ErrorClass.rate_limited = status ≡ 429
IsSensible status c = Unit

classify-IsSensible : (status : ℕ) → IsSensible status (classify status)
unfolding classify
classify-IsSensible status = ground arith

-- The four adapters that read answers in a way of their own agree on what they must not make of
-- one, whatever its body: none serves an answer without a status of the 200s, none blames the
-- client for a status that is put down to the key, the model or the upstream, and none takes an
-- answer for a rate limit without the status 429.
pub adapters-IsSensible :
    (py : PyText) (status : ℕ) (body : Json)
    → All (IsSensible status) (
        classify status
        ∷ classify_deepseek py status body
        ∷ classify_xai py status body
        ∷ classify_grok status
        ∷ [])
unfolding classify_deepseek classify_xai classify_grok
adapters-IsSensible py status body =
    let base = classify-IsSensible status in
    (base, (ground (arith, base), (ground (arith, base), (ground (arith, base), tt))))
