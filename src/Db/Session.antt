-- ===== src/Db/Session.antt =====
-- A request handler over an AsyncSession (backlogg/core/database.py): state, HTTP errors, commit and
-- rollback. What is not committed when the handler ends is rolled back.
use backlogg.Prelude.{ℕ, String, Bool, Option, none, some, if◌then◌else◌}
use backlogg.Db.Tables.{Db}

pub record Session : Type 0 where
  pub committed : Db
  pub working : Db

-- fastapi.HTTPException
pub record HttpException : Type 0 where
  pub status_code : ℕ
  pub detail : String

pub data Result (A : Type 0) : Type 0 where
  ok : A → Result A
  raised : HttpException → Result A

abbrev pub Action : Type 0 → Type 0
Action A = Session → Result A × Session

module _ {A : Type 0} where
  abbrev pub pure : A → Action A
  pure a s = (ok a, s)

  abbrev pub http_error : ℕ → String → Action A
  http_error code text s = (raised (record { status_code = code; detail = text }), s)

  -- A query.
  abbrev pub gets : (Db → A) → Action A
  gets f s = (ok (f s.working), s)

  -- A statement that changes rows and returns a value.
  abbrev pub execute : (Db → A × Db) → Action A
  execute f s = let (a, d) = f s.working in (ok a, record s { working = d })

  -- `if x is None: raise HTTPException(code, text)`
  abbrev pub or_error : ℕ → String → Option A → Action A
  or_error code text none = http_error code text
  or_error code text (some a) = pure a

-- What follows a step is run on its result, unless it raised.
abbrev pub and_then : {A B : Type 0} → (A → Action B) → Result A × Session → Result B × Session
and_then f (ok a, s) = f a s
and_then f (raised e, s) = (raised e, s)

infixl 5 ◌>>=◌ ◌>>◌
abbrev pub ◌>>=◌ : {A B : Type 0} → Action A → (A → Action B) → Action B
◌>>=◌ m f s = and_then f (m s)

abbrev pub ◌>>◌ : {A B : Type 0} → Action A → Action B → Action B
m >> k = m >>= λ _. k

abbrev pub raise_if : Bool → ℕ → String → Action (Unit {0})
raise_if test code text = if test then http_error code text else pure tt

abbrev pub modify : (Db → Db) → Action (Unit {0})
modify f s = (ok tt, record s { working = f s.working })

abbrev pub commit : Action (Unit {0})
commit s = (ok tt, record s { committed = s.working })

abbrev pub rollback : Action (Unit {0})
rollback s = (ok tt, record s { working = s.committed })

abbrev pub closed : {A : Type 0} → Result A × Session → Result A × Db
closed (r, s) = (r, s.committed)

-- One request on a stored database: the response, and what is stored afterwards.
abbrev pub request : {A : Type 0} → Action A → Db → Result A × Db
request m d = closed (m (record { committed = d; working = d }))
