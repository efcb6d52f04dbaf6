-- ===== src/Http/Answers.antt =====
-- What the client of the API gets for a request, and how the request is counted.
use shopback_cashback_ledger.Prelude.{
  ℕ, String, Bool, true, false, none, some, [], ◌∷◌, ◌++◌, ◌≡◌, ◌≢◌, refl, ◌⊎◌, inl, inr,
  text_comparable, if◌then◌else◌, arith,
}
use shopback_cashback_ledger.Errors.{
  Error, service, transaction_aborted, invalid_argument, invalid_decimal, syntax_error,
  order_not_found, order_not_confirmed, missing_order_id, usage, conflict,
}
use shopback_cashback_ledger.Json.{Json}
use shopback_cashback_ledger.Effect.{Effect, Result, ok, err}
use shopback_cashback_ledger.Services.{Services}
use shopback_cashback_ledger.World.{World}
use shopback_cashback_ledger.Orders.{confirm, confirm_with_key}
use shopback_cashback_ledger.Orders.Confirmed.{Confirmed, confirm_and_outbox-Confirmed}
use shopback_cashback_ledger.Platform.{Platform}
use shopback_cashback_ledger.Http.{
  Request, other, ApiError, use_request_id, catch_exception, envelope,
}
use shopback_cashback_ledger.Http.Metrics.{
  ApiMetrics, Counted, method_of, get_route, intercept_metrics, count_refused, is_metrics_path,
}
use shopback_cashback_ledger.Http.Serve.{Served, serve, exception_of, answer_of}

module _ {A W : Type 0} where
  -- A refused request runs no handler; a failure has the status 409 for a conflict and 500 else.
  abbrev pub Refused : Bool → W → Served A W → Type 0
  Refused allowed w s = (allowed ≡ false) × (s.response.status ≡ 429) × (s.state ≡ w)

  abbrev pub Failed : Bool → Result A → Served A W → Type 0
  Failed allowed r s =
      (e : Error) × (allowed ≡ true)
      × (r ≡ err e)
      × ((s.response.status ≡ 409) × ((m : String) × (e ≡ conflict m))
          ⊎ ((s.response.status ≡ 500) × ((m : String) → e ≢ conflict m)))

  -- The value of the handler, or an error and no data.
  abbrev pub Told : Bool → ℕ → Result A → W → Served A W → Type 0
  Told allowed status r w s =
      ((a : A) × (allowed ≡ true)
        × (r ≡ ok a)
        × (s.response.status ≡ status)
        × (s.response.body.payload ≡ some a)
        × (s.response.body.error ≡ none))
      ⊎ ((s.response.body.payload ≡ none)
          × ((e : ApiError) × (s.response.body.error ≡ some e))
          × (Refused allowed w s ⊎ Failed allowed r s))

  pub record IsAnswer (allowed : Bool) (status : ℕ) (r : Result A) (w : W) (s : Served A W)
      : Type 0 where
    pub same_id : s.response.body.request_id ≡ s.id_header
    pub body : Told allowed status r w s

-- What a controller throws is a conflict, or an exception without a status.
exception-cases :
    (e : Error)
    → ((m : String) × (e ≡ conflict m))
      ⊎ ((exception_of e ≡ other) × ((m : String) → e ≢ conflict m))
exception-cases (conflict m) = inl (m, refl)
exception-cases (service f) = inr (refl, λ m h. cc h)
exception-cases transaction_aborted = inr (refl, λ m h. cc h)
exception-cases invalid_argument = inr (refl, λ m h. cc h)
exception-cases (invalid_decimal t) = inr (refl, λ m h. cc h)
exception-cases syntax_error = inr (refl, λ m h. cc h)
exception-cases (order_not_found t) = inr (refl, λ m h. cc h)
exception-cases (order_not_confirmed t s) = inr (refl, λ m h. cc h)
exception-cases (usage t) = inr (refl, λ m h. cc h)
exception-cases (missing_order_id t) = inr (refl, λ m h. cc h)

module _ (P : Platform) {A W : Type 0} where
  error_report :
      (req : Request P) (status : ℕ) (w : W) (e : Error) (id : String) (m : ApiMetrics) (w' : W)
      → let response =
          catch_exception P {A = A} (record req { request_id = some id }) (exception_of e) in
        IsAnswer true status
          (err e)
          w
          (record { id_header = id; response = response; metrics = m; state = w' })
  unfolding catch_exception
  error_report req status w e id m w' = elim (exception-cases e) [
    | inl (text, same) ↦ rw same (record {
      same_id = refl;
      body = inr (refl, (_, refl), inr (_, refl, refl, inl (refl, (text, refl))));
    })
    | inr (no_status, apart) ↦ rw no_status (record {
      same_id = refl;
      body = inr (refl, (_, refl), inr (e, refl, refl, inr (refl, apart)));
    })
  ]

  by_result :
      (req : Request P) (id : String) (status : ℕ) (w : W) (r : Result A) (m : ApiMetrics) (w' : W)
      → let req' = record req { request_id = some id } in
        IsAnswer true status r w
          (record { id_header = id; response = answer_of P req' status r; metrics = m; state = w' })
  unfolding envelope
  by_result req id status w (ok a) m w' = record {
    same_id = refl;
    body = inl (a, refl, refl, refl, refl, refl);
  }
  by_result req id status w (err e) m w' = error_report req status w e id m w'

  -- For every handler, every state and whether or not the request is refused: the answer carries the
  -- id of the header `x-request-id`. Either the handler answered, and the client gets its value
  -- with the given status and no error, or the client gets an error and no data: with 429 if the
  -- request was refused, and then the handler has not run, with 409 if the handler threw a conflict,
  -- with 500 if it threw anything else.
  pub serve-IsAnswer :
      (req : Request P) (uuid : String) (allowed : Bool) (status : ℕ) (handler : Effect W A)
      (m : ApiMetrics) (w : W)
      → IsAnswer allowed status (handler w).0 w (serve P req uuid allowed status handler m w)
  unfolding serve use_request_id catch_exception
  serve-IsAnswer req uuid false status handler m w = record {
    same_id = refl;
    body = inr (refl, (_, refl), inl (refl, refl, refl));
  }
  serve-IsAnswer req uuid true status handler m w =
      by_result req _ status w (handler w).0 _ (handler w).1

  -- A request of any path but `/metrics` adds one increment to `http_requests_total`, whatever its
  -- handler does: with the status 429 if it was refused, and else with the status that the response
  -- had before the handler ran.
  serve_counted :
      (req : Request P) (uuid : String) (allowed : Bool) (status : ℕ) (handler : Effect W A)
      (m : ApiMetrics) (w : W)
      → is_metrics_path P req.path ≡ false
      → (c : Counted) × ((serve P req uuid allowed status handler m w).metrics.requests
          ≡ m.requests ++ c ∷ [])
        × (c.status ≡ (if allowed then P.nat_text status else "429"))
  unfolding serve use_request_id intercept_metrics count_refused
  serve_counted req uuid false status handler m w h = (_, refl, refl)
  serve_counted req uuid true status handler m w h = (
    record { method = method_of P req; route = get_route P req; status = P.nat_text status },
    rw h refl,
    refl,
  )

  -- If a handler throws, the request is not refused and its path is not `/metrics`: then the client
  -- gets the status 409 or 500, and the request is counted under the status that the response had
  -- before the handler ran.
  pub serve_error-counted :
      (req : Request P) (uuid : String) (status : ℕ) (handler : Effect W A) (m : ApiMetrics) (w : W)
      (e : Error)
      → is_metrics_path P req.path ≡ false
      → (handler w).0 ≡ err e
      → let s = serve P req uuid true status handler m w in
        ((s.response.status ≡ 409) ⊎ (s.response.status ≡ 500))
        × ((c : Counted) × (s.metrics.requests ≡ m.requests ++ c ∷ [])
            × (c.status ≡ P.nat_text status))
  serve_error-counted req uuid status handler m w e path failed = (
    by_answer (serve-IsAnswer req uuid true status handler m w).body,
    serve_counted req uuid true status handler m w path,
  )
    where
      by_answer :
          let s = serve P req uuid true status handler m w in
          Told true status (handler w).0 w s → (s.response.status ≡ 409) ⊎ (s.response.status ≡ 500)
      by_answer (inl (a, allowed, answered, s, p, e')) = absurd (cc (failed, answered))
      by_answer (inr (p, e', inl (refused, s, k))) = absurd (cc refused)
      by_answer (inr (p, e', inr (e'', allowed, r, inl (clash, why)))) = inl clash
      by_answer (inr (p, e', inr (e'', allowed, r, inr (internal, why)))) = inr internal

-- `POST /orders/:id/confirm` without a key, which NestJS answers with 201.
module _ (P : Platform) (S : Services) where
  abbrev pub confirm_request :
      Request P → String → Bool → String → ApiMetrics → World S → Served (Json S.Number) (World S)
  confirm_request req uuid allowed order_id m w =
      serve P req uuid allowed 201 (confirm S none order_id) m w

  -- Whatever calls fail: a client whose confirmation, without a key, is answered with 201 gets
  -- data that fits the tables: the order was confirmed before and nothing has changed, or it is
  -- confirmed now and its event is in the outbox.
  pub confirm_request-Confirmed :
      (req : Request P) (uuid : String) (allowed : Bool) (order_id : String) (m : ApiMetrics)
      (w : World S)
      → let s = confirm_request req uuid allowed order_id m w in
        s.response.status ≡ 201
        → (j : Json S.Number) × (s.response.body.payload ≡ some j)
          × Confirmed S w.db order_id (ok j) s.state.db
  unfolding confirm confirm_with_key serve catch_exception
  confirm_request-Confirmed req uuid false order_id m w h = absurd (omega (arith, h))
  confirm_request-Confirmed req uuid true order_id m w h =
      by_answer (serve-IsAnswer P req uuid true 201 (confirm S none order_id) m w).body
    where
      by_answer :
          let s = confirm_request req uuid true order_id m w in
          Told true 201 (confirm S none order_id w).0 w s
          → (j : Json S.Number) × (s.response.body.payload ≡ some j)
            × Confirmed S w.db order_id (ok j) s.state.db
      by_answer (inl (j, allowed, answered, s, p, e')) =
          (j, p, rw answered at (confirm_and_outbox-Confirmed S order_id w))
      by_answer (inr (p, e', inl (refused, s, k))) = absurd (cc refused)
      by_answer (inr (p, e', inr (e'', allowed, r, inl (clash, why)))) =
          absurd (omega (arith, h, clash))
      by_answer (inr (p, e', inr (e'', allowed, r, inr (internal, why)))) =
          absurd (omega (arith, h, internal))
