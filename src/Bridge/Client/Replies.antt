-- ===== src/Bridge/Client/Replies.antt =====
-- What the result of a request tells of the reply.
use opencost_ai.Prelude.{
  ℕ, ◌≡◌, ◌≤◌, ◌<◌, refl, true, false, [], ◌++◌, none, some, Result, ok, err, take, arith, ◌⊎◌, inl,
  inr, Bool-cases, Option-cases, Result-cases,
}
use opencost_ai.Prelude.Int.{pos}
use opencost_ai.Text.{Bytes, text}
use opencost_ai.Text.Trim.{trim_space}
use opencost_ai.Bridge.Types.{Error}
use opencost_ai.Bridge.Client.{HttpRequest, Reply, unreached, response, Http, is_success, exchange}

module _ {A : Type 0} (http : Http Bytes) (decode : Bytes → Result Bytes A) (op : Bytes)
    (q : HttpRequest) where
  -- The reply is a response with a status between 200 and 299 that can be decoded.
  abbrev pub Success : A → Type 0
  Success a =
      (status : ℕ) × (body : Bytes) × (http.build_error q ≡ none)
      × (http.send q ≡ response status body)
      × ((200 ≤ status) × (status < 300))
      × (decode body ≡ ok a)

  -- Why an error has status 0: the request cannot be built, or there is no response, or one with a
  -- status between 200 and 299 cannot be decoded.
  abbrev pub NoAnswer : (cause : Bytes) → Type 0
  NoAnswer cause =
      ((e : Bytes) × (http.build_error q ≡ some e) × (cause ≡ text "build request: " ++ e))
      ⊎ ((http.build_error q ≡ none) × (http.send q ≡ unreached cause))
      ⊎ ((status : ℕ) × (body : Bytes) × (e : Bytes) × (http.build_error q ≡ none)
          × (http.send q ≡ response status body)
          × ((200 ≤ status) × (status < 300))
          × (decode body ≡ err e)
          × (cause ≡ text "decode response: " ++ e))

  -- A status of 0, with the cause; or a response with another status, which the error shows with at
  -- most 4096 bytes of the body.
  abbrev pub Failure : Error → Type 0
  Failure e =
      (e.op ≡ op)
      × (((e.status ≡ pos 0)
            × (e.body ≡ [])
            × ((cause : Bytes) × (e.cause ≡ some cause) × NoAnswer cause))
          ⊎ ((status : ℕ) × (body : Bytes) × (http.build_error q ≡ none)
              × (http.send q ≡ response status body)
              × ((status < 200) ⊎ (300 ≤ status))
              × (e.status ≡ pos status)
              × (e.body ≡ trim_space (take 4096 body))
              × (e.cause ≡ none)))

  abbrev pub Explained : Result Error A → Type 0
  Explained (ok a) = Success a
  Explained (err e) = Failure e

  Reply-cases :
      (x : Reply Bytes)
      → ((cause : Bytes) × (x ≡ unreached cause))
        ⊎ ((status : ℕ) × (body : Bytes) × (x ≡ response status body))
  Reply-cases (unreached cause) = inl (cause, refl)
  Reply-cases (response status body) = inr (status, body, refl)

  is_success-true : (status : ℕ) → is_success status ≡ true → (200 ≤ status) × (status < 300)
  is_success-true status h = (ground arith, ground arith)

  is_success-false : (status : ℕ) → is_success status ≡ false → (status < 200) ⊎ (300 ≤ status)
  is_success-false status h = ground arith

  -- The result of a request says what came back, and why. A value comes from a response with a status
  -- between 200 and 299, so that a redirect is an error. An error names the operation. It has status 0
  -- and a cause exactly where the request could not be built, or there was no response, or one with a
  -- status between 200 and 299 could not be decoded, and the cause says which; on any other response
  -- it has that response's status, the trimmed first 4096 bytes of its body, and no cause.
  pub exchange-Explained : Explained (exchange http decode op q)
  unfolding exchange
  exchange-Explained = elim (Option-cases (http.build_error q)) [
    | inr (e, b) ↦ rw (exchange, b) (refl, inl (refl, refl, (_, refl, inl (e, b, refl))))
    | inl b ↦ elim (Reply-cases (http.send q)) [
      | inl (cause, r) ↦
          rw (exchange, b, r) (refl, inl (refl, refl, (cause, refl, inr (inl (b, r)))))
      | inr (status, body, r) ↦ elim (Bool-cases (is_success status)) [
        | inr s ↦
            rw (exchange, b, r, s)
              (refl, inr (status, body, b, r, is_success-false status s, refl, refl, refl))
        | inl s ↦ elim (Result-cases (decode body)) [
          | inl (a, d) ↦ rw (exchange, b, r, s, d) (status, body, b, r, is_success-true status s, d)
          | inr (e, d) ↦
              rw (exchange, b, r, s, d)
                (
                  refl,
                  inl (
                    refl,
                    refl,
                    (_, refl, inr (inr (status, body, e, b, r, is_success-true status s, d, refl))),
                  ),
                )
        ]
      ]
    ]
  ]
