-- ===== src/Prelude/Exec.antt =====
-- An `async` method as an action on the state: it returns or throws, and what it wrote before
-- it threw stays written.
use mathlib.Core.Path.{◌≡◌, refl, ap}
use mathlib.Core.Option.{Option, none, some}
use mathlib.Core.Bool.{Bool, true, false}
use Prim.Native.String.{String}

pub data FailureReason : Type 0 where
  aborted command_failed : FailureReason

-- What the services throw: the exceptions of @nestjs/common by status, a plain `Error`, the
-- `RedisTransactionError` of common/redis/redis-transaction.ts, and an error of the Redis client.
pub data Error : Type 0 where
  not_found : String → Error
  bad_request : String → Error
  conflict : String → Error
  forbidden : String → Error
  unavailable : String → Error
  unprocessable : String → Error
  plain : String → Error
  transaction : FailureReason → String → Error
  redis : String → Error

-- error.message
abbrev pub message : Error → String
message (not_found m) = m
message (bad_request m) = m
message (conflict m) = m
message (forbidden m) = m
message (unavailable m) = m
message (unprocessable m) = m
message (plain m) = m
message (transaction r m) = m
message (redis m) = m

pub data Result {ℓ} (A : Type ℓ) : Type ℓ where
  ok : A → Result A
  err : Error → Result A

abbrev pub Exec {ℓ} : Type ℓ → Type ℓ → Type ℓ
Exec S A = S → Result A × S

module _ {ℓ} {S A : Type ℓ} where
  abbrev pub pure : A → Exec S A
  pure a s = (ok a, s)

  abbrev pub throw : Error → Exec S A
  throw e s = (err e, s)

  abbrev pub gets : (S → A) → Exec S A
  gets f s = (ok (f s), s)

  abbrev pub recover : Result A → (Error → Exec S A) → Exec S A
  recover (ok a) h s = (ok a, s)
  recover (err e) h s = h e s

  -- try { m } catch (e) { h e }
  abbrev pub try_catch : Exec S A → (Error → Exec S A) → Exec S A
  try_catch m h s = recover (m s).0 h (m s).1

  -- if (!x) throw e
  abbrev pub or_throw : Option A → Error → Exec S A
  or_throw none e s = (err e, s)
  or_throw (some a) e s = (ok a, s)

  abbrev pub when_else : Bool → Exec S A → Exec S A → Exec S A
  when_else true m n = m
  when_else false m n = n

module _ {ℓ} {S A B : Type ℓ} where
  abbrev pub resume : Result A → (A → Exec S B) → Exec S B
  resume (ok a) f s = f a s
  resume (err e) f s = (err e, s)

  infixl 10 ◌>>=◌ ◌>>◌
  abbrev pub ◌>>=◌ : Exec S A → (A → Exec S B) → Exec S B
  ◌>>=◌ m f s = resume (m s).0 f (m s).1

  abbrev pub ◌>>◌ : Exec S A → Exec S B → Exec S B
  m >> n = m >>= λ _. n

-- if (b) throw e
abbrev pub throw_if {ℓ} : {S : Type ℓ} → Bool → Error → Exec S (Unit {ℓ})
throw_if true e s = (err e, s)
throw_if false e s = (ok tt, s)

abbrev pub modify {ℓ} : {S : Type ℓ} → (S → S) → Exec S (Unit {ℓ})
modify f s = (ok tt, f s)

-- A guard whose test is known.
module _ {ℓ} {S A : Type ℓ} where
  pub when_else_off : (b : Bool) (m n : Exec S A) (s : S) → b ≡ false → when_else b m n s ≡ n s
  when_else_off true m n s h = cc
  when_else_off false m n s h = refl

  pub when_else_on : (b : Bool) (m n : Exec S A) (s : S) → b ≡ true → when_else b m n s ≡ m s
  when_else_on true m n s h = refl
  when_else_on false m n s h = cc

module _ {ℓ} {S A B : Type ℓ} where
  -- A sequence that returns: what its first part returned, and where it left the state.
  pub >>=-eq-ok :
      (m : Exec S A) (f : A → Exec S B) (s : S) {b : B}
      → ((m >>= f) s).0 ≡ ok b
      → (a : A) × ((m s).0 ≡ ok a) × ((f a (m s).1).0 ≡ ok b)
  >>=-eq-ok m f s {b} h = go (m s).0 refl h
    where
      go :
          (r : Result A)
          → (m s).0 ≡ r
          → (resume r f (m s).1).0 ≡ ok b
          → (a : A) × ((m s).0 ≡ ok a) × ((f a (m s).1).0 ≡ ok b)
      go (ok a) e k = (a, e, k)
      go (err x) e k = cc

  -- A sequence whose first part is known to return.
  pub >>=-run :
      (m : Exec S A) (f : A → Exec S B) (s : S) {a : A} {s' : S}
      → m s ≡ (ok a, s')
      → (m >>= f) s ≡ f a s'
  >>=-run m f s e = ap (λ o. resume o.0 f o.1) e

-- A check that was passed, and what comes after it.
module _ {ℓ} {S A : Type ℓ} where
  pub throw_if-passes :
      (b : Bool) (e : Error) (m : Exec S A) (s : S) {a : A}
      → ((throw_if b e >> m) s).0 ≡ ok a
      → (b ≡ false) × ((m s).0 ≡ ok a)
  throw_if-passes true e m s h = cc
  throw_if-passes false e m s h = (refl, h)

  pub given-passes :
      (r : Result (Unit {ℓ})) (m : Exec S A) (s : S) {a : A}
      → (((λ s'. (r, s')) >> m) s).0 ≡ ok a
      → (r ≡ ok tt) × ((m s).0 ≡ ok a)
  given-passes (ok tt) m s h = (refl, h)
  given-passes (err e) m s h = cc
