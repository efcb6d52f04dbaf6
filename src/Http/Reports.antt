-- ===== src/Http/Reports.antt =====
-- What `HttpExceptionToApiResponseFilter` tells the client of an exception.
use shopback_cashback_ledger.Prelude.{
  ℕ, String, false, none, some, ◌≡◌, ◌≢◌, refl, ◌↔◌, Bool-cases, eqb, eqb→eq, eqb→ne, inl, inr,
  arith, ◌==◌, text_comparable, eq_iff,
}
use shopback_cashback_ledger.Platform.{Platform}
use shopback_cashback_ledger.Http.{
  Request, Response, Reply, Exception, http, other, ApiError, err_validation, err_not_found,
  err_conflict, err_internal, http_error, internal_error, catch_exception, id_of,
}

-- The code tells the statuses 400, 404 and 409 from each other and from all others.
abbrev pub IsCoded : ℕ → String → Type 0
IsCoded status code =
    ((status ≡ 400) ↔ (code ≡ err_validation))
    × ((status ≡ 404) ↔ (code ≡ err_not_found))
    × ((status ≡ 409) ↔ (code ≡ err_conflict))

text_apart : (a b : String) → (a == b) ≡ false → a ≢ b
text_apart a b h e = cc (h, (eq_iff a b).1 e)

v≢n : err_validation ≢ err_not_found
v≢n = text_apart _ _ refl

v≢c : err_validation ≢ err_conflict
v≢c = text_apart _ _ refl

n≢c : err_not_found ≢ err_conflict
n≢c = text_apart _ _ refl

i≢v : err_internal ≢ err_validation
i≢v = text_apart _ _ refl

i≢n : err_internal ≢ err_not_found
i≢n = text_apart _ _ refl

i≢c : err_internal ≢ err_conflict
i≢c = text_apart _ _ refl

case_400 : IsCoded 400 err_validation
case_400 = ground (arith, v≢n, v≢c)

case_404 : IsCoded 404 err_not_found
case_404 = ground (arith, v≢n, n≢c)

case_409 : IsCoded 409 err_conflict
case_409 = ground (arith, v≢c, n≢c)

case_other : (n : ℕ) → n ≢ 400 → n ≢ 404 → n ≢ 409 → IsCoded n err_internal
case_other n a b c = ground (arith, i≢v, i≢n, i≢c)

http_error-IsCoded :
    (status : ℕ) (reply : Reply) (message : String)
    → IsCoded status (http_error status reply message).code
unfolding http_error
http_error-IsCoded status reply message = elim (Bool-cases (eqb status 400)) [
  | inl bad ↦ let e : status ≡ 400 = eqb→eq status 400 bad in rw (bad, e) case_400
  | inr h1 ↦ elim (Bool-cases (eqb status 404)) [
    | inl missing ↦ let e : status ≡ 404 = eqb→eq status 404 missing in rw e case_404
    | inr h2 ↦ elim (Bool-cases (eqb status 409)) [
      | inl clash ↦ let e : status ≡ 409 = eqb→eq status 409 clash in rw e case_409
      | inr h3 ↦
          rw (h1, h2, h3)
            (case_other status (eqb→ne status 400 h1) (eqb→ne status 404 h2) (eqb→ne status 409 h3))
    ]
  ]
]

module _ (P : Platform) {A : Type 0} where
  -- The answer has no data, and an error whose code fits the status.
  pub record IsReport (req : Request P) (r : Response A) : Type 0 where
    pub id : r.body.request_id ≡ id_of P req
    pub no_payload : r.body.payload ≡ none
    pub coded : (e : ApiError) × (r.body.error ≡ some e) × IsCoded r.status e.code

  -- Every exception is answered with the id of the request, no data, and an error whose code is
  -- `ERR_VALIDATION`, `ERR_NOT_FOUND` or `ERR_CONFLICT` just if the status is 400, 404 or 409.
  pub catch_exception-IsReport :
      (req : Request P) (e : Exception) → IsReport req (catch_exception P req e)
  unfolding catch_exception
  catch_exception-IsReport req (http status reply message) = record {
    id = refl;
    no_payload = refl;
    coded = (http_error status reply message, refl, http_error-IsCoded status reply message);
  }
  catch_exception-IsReport req other = record {
    id = refl;
    no_payload = refl;
    coded = (
      internal_error,
      refl,
      case_other 500 (λ h. omega (arith, h)) (λ h. omega (arith, h)) (λ h. omega (arith, h)),
    );
  }
