-- ===== src/Config/Loading.antt =====
-- What the API's configuration holds, and what is wrong when it is refused.
use shopback_cashback_ledger.Prelude.{
  String, Bool, true, false, Option, none, some, ◌≡◌, ◌≢◌, refl, ◌⊎◌, inl, inr, Bool-cases, ◌==◌,
  text_comparable, if◌then◌else◌, arith, eq_iff,
}
use shopback_cashback_ledger.Platform.{Platform}
use shopback_cashback_ledger.Config.{
  Environment, Loaded, loaded, missing_env, invalid_int_env, ◌>>=◌, AppConfig, is_blank, must_get,
  get_int, require_text, read_int, load_config, service_name_of,
}

module _ (P : Platform) (env : Environment) where
  -- A variable that is not set, or only to white space.
  abbrev pub IsUnset : String → Type 0
  IsUnset name = (env name ≡ none) ⊎ ((raw : String) × (env name ≡ some raw) × (P.trim raw ≡ ""))

  -- A variable whose text is `raw`, with more than white space.
  abbrev pub IsGiven : String → String → Type 0
  IsGiven name raw = (env name ≡ some raw) × (P.trim raw ≢ "")

  abbrev pub IsText : String → String → Type 0
  IsText name v = (raw : String) × IsGiven name raw × (v ≡ P.trim raw)

  abbrev pub IsInt : String → P.Number → P.Number → Type 0
  IsInt name fallback n =
      (IsUnset name × (n ≡ fallback))
      ⊎ ((raw : String) × IsGiven name raw × (n ≡ P.number_of_text raw) × (P.is_finite n ≡ true))

  pub record IsConfigured (c : AppConfig P) : Type 0 where
    pub port : IsInt "PORT" (P.number_of_nat 3000) c.port
    pub host : IsText "POSTGRES_HOST" c.postgres.host
    pub postgres_port : IsInt "POSTGRES_PORT" (P.number_of_nat 5432) c.postgres.port
    pub db : IsText "POSTGRES_DB" c.postgres.db
    pub user : IsText "POSTGRES_USER" c.postgres.user
    pub password : IsText "POSTGRES_PASSWORD" c.postgres.password
    pub redis_host : IsText "REDIS_HOST" c.redis.host
    pub redis_port : IsInt "REDIS_PORT" (P.number_of_nat 6379) c.redis.port
    pub broker : IsText "KAFKA_BROKER" c.broker
    pub service_name : c.service_name ≡ service_name_of P (env "SERVICE_NAME")

  -- A result with what it says of the environment.
  abbrev pub Explained : {A : Type 0} → (A → Type 0) → Loaded A → Type 0
  Explained Q (loaded a) = Q a
  Explained Q (missing_env name) = IsUnset name
  Explained Q (invalid_int_env name raw) =
      IsGiven name raw × (P.is_finite (P.number_of_text raw) ≡ false)

  is_blank-empty : (v : String) → is_blank P v ≡ true → P.trim v ≡ ""
  is_blank-empty v h = elim (Bool-cases (v == "")) [
    | inl empty ↦ let same : v ≡ "" = (eq_iff v "").0 empty in rw same P.trim_empty
    | inr full ↦ (eq_iff (P.trim v) "").0 (rw full at h)
  ]

  is_blank-full : (v : String) → is_blank P v ≡ false → P.trim v ≢ ""
  is_blank-full v h = ground (arith, eq_iff (P.trim v) "", h)

  Explained-if :
      {A : Type 0} (Q : A → Type 0) (b : Bool) (x y : Loaded A)
      → (b ≡ true → Explained Q x)
      → (b ≡ false → Explained Q y)
      → Explained Q (if b then x else y)
  Explained-if Q true x y hx hy = hx refl
  Explained-if Q false x y hx hy = hy refl

  Explained-bind :
      {A B : Type 0} (P' : A → Type 0) (Q : B → Type 0) (m : Loaded A) (f : A → Loaded B)
      → Explained P' m
      → ((a : A) → P' a → Explained Q (f a))
      → Explained Q (m >>= f)
  unfolding ◌>>=◌
  Explained-bind P' Q (loaded a) f h k = k a h
  Explained-bind P' Q (missing_env name) f h k = h
  Explained-bind P' Q (invalid_int_env name raw) f h k = h

  must_get-Explained : (name : String) → Explained (IsText name) (must_get P env name)
  unfolding must_get require_text
  must_get-Explained name = by_value (env name) refl
    where
      by_value :
          (o : Option String) → env name ≡ o → Explained (IsText name) (require_text P name o)
      by_value none e = inl e
      by_value (some v) e =
          Explained-if (IsText name) (is_blank P v) _ _
            (λ blank. inr (v, e, is_blank-empty v blank))
            (λ full. (v, (e, is_blank-full v full), refl))

  get_int-Explained :
      (name : String) (fallback : P.Number)
      → Explained (IsInt name fallback) (get_int P env name (some fallback))
  unfolding get_int read_int
  get_int-Explained name fallback = by_value (env name) refl
    where
      by_value :
          (o : Option String)
          → env name ≡ o
          → Explained (IsInt name fallback) (read_int P name (some fallback) o)
      by_value none e = inl (inl e, refl)
      by_value (some v) e =
          Explained-if (IsInt name fallback) (is_blank P v) _ _
            (λ blank. inl (inr (v, e, is_blank-empty v blank), refl))
            (λ full.
              Explained-if (IsInt name fallback) (P.is_finite (P.number_of_text v)) _ _
                (λ finite. inr (v, (e, is_blank-full v full), refl, finite))
                (λ infinite. ((e, is_blank-full v full), infinite)))

  -- The next variable is read.
  after_text :
      {B : Type 0} (Q : B → Type 0) (name : String) (f : String → Loaded B)
      → ((v : String) → IsText name v → Explained Q (f v))
      → Explained Q (must_get P env name >>= f)
  after_text Q name f k = Explained-bind (IsText name) Q _ f (must_get-Explained name) k

  after_int :
      {B : Type 0} (Q : B → Type 0) (name : String) (fallback : P.Number) (f : P.Number → Loaded B)
      → ((n : P.Number) → IsInt name fallback n → Explained Q (f n))
      → Explained Q (get_int P env name (some fallback) >>= f)
  after_int Q name fallback f k =
      Explained-bind (IsInt name fallback) Q _ f (get_int-Explained name fallback) k

  -- The configuration that is loaded has the trimmed text of each variable that is required, which
  -- is not empty, and for each number that of its variable, which is finite, or the default if the
  -- variable is not set or blank. If loading is refused, then the variable that the error names is
  -- not set or blank, or it has a text that is no finite number.
  pub load_config-Explained : Explained IsConfigured (load_config P env)
  unfolding load_config
  load_config-Explained =
      let Q : AppConfig P → Type 0 = IsConfigured in
      after_int Q "PORT" _ _ (λ port h1. after_text Q "POSTGRES_HOST" _ (λ host h2.
        after_int Q "POSTGRES_PORT" _ _ (λ pp h3. after_text Q "POSTGRES_DB" _ (λ db h4.
          after_text Q "POSTGRES_USER" _ (λ user h5. after_text Q "POSTGRES_PASSWORD" _ (λ pw h6.
            after_text Q "REDIS_HOST" _ (λ rh h7. after_int Q "REDIS_PORT" _ _ (λ rp h8.
              after_text Q "KAFKA_BROKER" _ (λ b h9. record {
                port = h1;
                host = h2;
                postgres_port = h3;
                db = h4;
                user = h5;
                password = h6;
                redis_host = h7;
                redis_port = h8;
                broker = h9;
                service_name = refl;
              })))))))))
