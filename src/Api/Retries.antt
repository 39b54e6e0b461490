-- ===== src/Api/Retries.antt =====
-- The retries of `makeAPICall` in internal/hyperliquid-api/resolver.go.
use hyperliquid_exporter.Api.{
  second, Reply, failed, response, ApiError, exhausted, Call, Client, decode, after_reply, backoff,
  try_from, make_api_call,
}
use hyperliquid_exporter.Base.{
  ℕ, zero, suc, ◌+◌, ◌*◌, ◌≤◌, ◌≡◌, refl, ◌⊎◌, inl, Bool, false, Option, none, some, List, [], ◌∷◌,
  arith, ◌==◌, if◌then◌else◌, Bytes, length,
}

module _ {A : Type 0} (unmarshal : Bytes → Option A) where
  after_reply-sent :
      (reply : Reply) (next : Call A) (n : ℕ)
      → length next.sent ≤ n
      → length (after_reply unmarshal reply next).sent ≤ n
  unfolding after_reply
  after_reply-sent failed next n h = h
  after_reply-sent (response status body) next n h = ground (arith, h)

  after_reply-waited :
      (reply : Reply) (next : Call A) (n : ℕ)
      → next.waited ≤ n
      → (after_reply unmarshal reply next).waited ≤ n
  unfolding after_reply
  after_reply-waited failed next n h = h
  after_reply-waited (response status body) next n h = ground (arith, h)

  try_from-sent :
      (client : Client) (cancels : ℕ → Bool) (left attempt : ℕ) (body : Bytes)
      → length (try_from unmarshal client cancels left attempt body).sent ≤ left
  unfolding try_from
  try_from-sent client cancels zero attempt body = ground arith
  try_from-sent client cancels (suc left) attempt body = ground (
    arith,
    after_reply-sent (client attempt body)
        (try_from unmarshal client cancels left (attempt + 1) body) left
        (try_from-sent client cancels left (attempt + 1) body),
  )

  -- The waits before so many attempts from the given one on.
  unfoldable waits : ℕ → ℕ → ℕ
  waits zero attempt = 0
  waits (suc left) attempt = backoff unmarshal attempt + waits left (attempt + 1)

  try_from-waited :
      (client : Client) (cancels : ℕ → Bool) (left attempt : ℕ) (body : Bytes)
      → (try_from unmarshal client cancels left attempt body).waited ≤ waits left attempt
  unfolding try_from waits
  try_from-waited client cancels zero attempt body = ground arith
  try_from-waited client cancels (suc left) attempt body = ground (
    arith,
    after_reply-waited (client attempt body)
        (try_from unmarshal client cancels left (attempt + 1) body) (waits left (attempt + 1))
        (try_from-waited client cancels left (attempt + 1) body),
  )

  -- The loop of retries ends: whatever the client, the context and the request, it sends at most
  -- three requests and waits for at most five seconds in between.
  pub make_api_call-bounded :
      (client : Client) (cancels : ℕ → Bool) (request : Option Bytes)
      → (length (make_api_call unmarshal client cancels request).sent ≤ 3)
        × ((make_api_call unmarshal client cancels request).waited ≤ 5 * second)
  unfolding make_api_call waits backoff
  make_api_call-bounded client cancels none = (omega arith, omega arith)
  make_api_call-bounded client cancels (some payload) =
      (try_from-sent client cancels 3 0 payload, try_from-waited client cancels 3 0 payload)

  -- What a list of replies comes to: the first that has status 200, decoded.
  unfoldable pub first_answer : List Reply → ApiError ⊎ A
  first_answer [] = inl exhausted
  first_answer (failed ∷ replies) = first_answer replies
  first_answer (response status body ∷ replies) =
      let rest = first_answer replies in if status == 200 then decode unmarshal body else rest

  -- The replies of the client to attempts that follow each other.
  unfoldable pub replies_of : Client → ℕ → ℕ → Bytes → List Reply
  replies_of client zero attempt body = []
  replies_of client (suc left) attempt body =
      client attempt body ∷ replies_of client left (attempt + 1) body

  after_reply-first :
      (reply : Reply) (next : Call A) (replies : List Reply)
      → next.result ≡ first_answer replies
      → (after_reply unmarshal reply next).result ≡ first_answer (reply ∷ replies)
  unfolding after_reply first_answer
  after_reply-first failed next replies h = h
  after_reply-first (response status body) next replies h = ground (arith, h)

  try_from-first :
      (client : Client) (cancels : ℕ → Bool) (left attempt : ℕ) (body : Bytes)
      → ((k : ℕ) → cancels k ≡ false)
      → (try_from unmarshal client cancels left attempt body).result
        ≡ first_answer (replies_of client left attempt body)
  unfolding try_from replies_of first_answer
  try_from-first client cancels zero attempt body calm = refl
  try_from-first client cancels (suc left) attempt body calm = ground (
    arith,
    calm attempt,
    after_reply-first (client attempt body)
        (try_from unmarshal client cancels left (attempt + 1) body)
        (replies_of client left (attempt + 1) body)
        (try_from-first client cancels left (attempt + 1) body calm),
  )

  -- The replies up to the first that has status 200, and with it.
  unfoldable pub up_to_answer : List Reply → List Reply
  up_to_answer [] = []
  up_to_answer (failed ∷ replies) = failed ∷ up_to_answer replies
  up_to_answer (response status body ∷ replies) =
      let rest = up_to_answer replies in response status body ∷ (if status == 200 then [] else rest)

  after_reply-requests :
      (reply : Reply) (next : Call A) (replies : List Reply)
      → length next.sent ≡ length (up_to_answer replies)
      → suc (length (after_reply unmarshal reply next).sent)
        ≡ length (up_to_answer (reply ∷ replies))
  unfolding after_reply up_to_answer
  after_reply-requests failed next replies h = ground (arith, h)
  after_reply-requests (response status body) next replies h = ground (arith, h)

  try_from-requests :
      (client : Client) (cancels : ℕ → Bool) (left attempt : ℕ) (body : Bytes)
      → ((k : ℕ) → cancels k ≡ false)
      → length (try_from unmarshal client cancels left attempt body).sent
        ≡ length (up_to_answer (replies_of client left attempt body))
  unfolding try_from replies_of up_to_answer
  try_from-requests client cancels zero attempt body calm = refl
  try_from-requests client cancels (suc left) attempt body calm = ground (
    arith,
    calm attempt,
    after_reply-requests (client attempt body)
        (try_from unmarshal client cancels left (attempt + 1) body)
        (replies_of client left (attempt + 1) body)
        (try_from-requests client cancels left (attempt + 1) body calm),
  )

  -- While the context lasts, a call answers as the first of at most three replies with status 200
  -- decodes, its read or decoding error included, and fails as exhausted if there is none; it sends
  -- one request for each reply up to and with that one.
  pub make_api_call-first :
      (client : Client) (cancels : ℕ → Bool) (payload : Bytes)
      → ((k : ℕ) → cancels k ≡ false)
      → ((make_api_call unmarshal client cancels (some payload)).result
          ≡ first_answer (replies_of client 3 0 payload))
        × (length (make_api_call unmarshal client cancels (some payload)).sent
            ≡ length (up_to_answer (replies_of client 3 0 payload)))
  unfolding make_api_call
  make_api_call-first client cancels payload calm = (
    try_from-first client cancels 3 0 payload calm,
    try_from-requests client cancels 3 0 payload calm,
  )
