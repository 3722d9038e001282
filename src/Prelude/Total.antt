-- ===== src/Prelude/Total.antt =====
-- Actions that return from every state: they never throw.
use mathlib.Core.Path.{◌≡◌, refl, sym, subst}
use mathlib.Core.Bool.{Bool, true, false}
use trustflow_backend.Prelude.Exec.{
  Error, Result, ok, err, Exec, pure, gets, modify, try_catch, when_else, ◌>>=◌, recover, resume,
}

pub record IsTotal {ℓ} {S A : Type ℓ} (m : Exec S A) : Type ℓ where
  pub at : (s : S) → (a : A) × ((m s).0 ≡ ok a)

module _ {ℓ} {S A : Type ℓ} where
  pub IsTotal-pure : (a : A) → IsTotal (pure {S = S} a)
  IsTotal-pure a = record { at = λ s. (a, refl) }

  pub IsTotal-gets : (f : S → A) → IsTotal (gets f)
  IsTotal-gets f = record { at = λ s. (f s, refl) }

  pub IsTotal-when_else :
      (b : Bool) (m n : Exec S A) → IsTotal m → IsTotal n → IsTotal (when_else b m n)
  IsTotal-when_else true m n hm hn = hm
  IsTotal-when_else false m n hm hn = hn

  recover_total :
      (r : Result A) (h : Error → Exec S A) (s : S)
      → ((e : Error) → IsTotal (h e))
      → (a : A) × ((recover r h s).0 ≡ ok a)
  recover_total (ok a) h s k = (a, refl)
  recover_total (err e) h s k = (k e).at s

  pub IsTotal-try_catch :
      (m : Exec S A) (h : Error → Exec S A)
      → ((e : Error) → IsTotal (h e))
      → IsTotal (try_catch m h)
  IsTotal-try_catch m h k = record { at = λ s. recover_total (m s).0 h (m s).1 k }

pub IsTotal-modify {ℓ} : {S : Type ℓ} (f : S → S) → IsTotal (modify f)
IsTotal-modify f = record { at = λ s. (tt, refl) }

module _ {ℓ} {S A B : Type ℓ} where
  resume_total :
      (r : Result A) (f : A → Exec S B) (s : S) (a : A)
      → r ≡ ok a
      → ((a : A) → IsTotal (f a))
      → (b : B) × ((resume r f s).0 ≡ ok b)
  resume_total (ok a) f s a' e k = (k a).at s
  resume_total (err x) f s a' e k = cc

  pub IsTotal-bind :
      (m : Exec S A) (f : A → Exec S B) → IsTotal m → ((a : A) → IsTotal (f a)) → IsTotal (m >>= f)
  IsTotal-bind m f hm hf = record {
    at = λ s. let (a, e) = hm.at s in resume_total (m s).0 f (m s).1 a e hf;
  }

pub ruleset total_rules =
    (IsTotal-pure, IsTotal-gets, IsTotal-modify, IsTotal-when_else, IsTotal-try_catch, IsTotal-bind)

-- Total correctness: the action returns from every state, and what it returns satisfies `P`.
pub record Yields {ℓ} {S A : Type ℓ} (P : A → Type ℓ) (m : Exec S A) : Type ℓ where
  pub at : (s : S) → (a : A) × ((m s).0 ≡ ok a) × P a

module _ {ℓ} {S A : Type ℓ} where
  pub Yields-pure : (P : A → Type ℓ) (a : A) → P a → Yields P (pure {S = S} a)
  Yields-pure P a p = record { at = λ s. (a, refl, p) }

  pub Yields-of_total : (m : Exec S A) → IsTotal m → Yields (λ _. Unit) m
  Yields-of_total m h = record { at = λ s. let (a, e) = h.at s in (a, e, tt) }

  recover_yields :
      (P : A → Type ℓ) (r : Result A) (h : Error → Exec S A) (s : S) (a : A)
      → r ≡ ok a
      → P a
      → (b : A) × ((recover r h s).0 ≡ ok b) × P b
  recover_yields P (ok b) h s a e p = (a, e, p)
  recover_yields P (err x) h s a e p = cc

  -- The handler of a block that does not throw is not run.
  pub Yields-try_catch :
      (P : A → Type ℓ) (m : Exec S A) (h : Error → Exec S A) → Yields P m → Yields P (try_catch m h)
  Yields-try_catch P m h k = record {
    at = λ s. let (a, e, p) = k.at s in recover_yields P (m s).0 h (m s).1 a e p;
  }

  -- So is a block that does not throw, whatever its handler.
  pub IsTotal-tried : (m : Exec S A) (h : Error → Exec S A) → IsTotal m → IsTotal (try_catch m h)
  IsTotal-tried m h k = record {
    at = λ s. let r = (Yields-try_catch (λ _. Unit) m h (Yields-of_total m k)).at s in (r.0, r.1);
  }

  pub Yields-when_else :
      (P : A → Type ℓ) (b : Bool) (m n : Exec S A)
      → (b ≡ true → Yields P m)
      → (b ≡ false → Yields P n)
      → Yields P (when_else b m n)
  Yields-when_else P true m n hm hn = hm refl
  Yields-when_else P false m n hm hn = hn refl

  pub Yields-weaken :
      {P Q : A → Type ℓ} (m : Exec S A) → ((a : A) → P a → Q a) → Yields P m → Yields Q m
  Yields-weaken m pq k = record { at = λ s. let (a, e, p) = k.at s in (a, e, pq a p) }

module _ {ℓ} {S A B : Type ℓ} where
  pub resume-Yields :
      (Q : B → Type ℓ) (r : Result A) (f : A → Exec S B) (s : S) (a : A)
      → r ≡ ok a
      → Yields Q (f a)
      → (b : B) × ((resume r f s).0 ≡ ok b) × Q b
  resume-Yields Q (ok b) f s a e k =
      let same : b ≡ a = cc in let k' = subst (λ x. Yields Q (f x)) (sym same) k in k'.at s
  resume-Yields Q (err x) f s a e k = cc

  pub Yields-bind :
      (P : A → Type ℓ) (Q : B → Type ℓ) (m : Exec S A) (f : A → Exec S B)
      → Yields P m
      → ((a : A) → P a → Yields Q (f a))
      → Yields Q (m >>= f)
  Yields-bind P Q m f hm hf = record {
    at = λ s. let (a, e, p) = hm.at s in resume-Yields Q (m s).0 f (m s).1 a e (hf a p);
  }

  -- A first part whose result does not matter.
  pub Yields-then :
      (Q : B → Type ℓ) (m : Exec S A) (f : A → Exec S B)
      → IsTotal m
      → ((a : A) → Yields Q (f a))
      → Yields Q (m >>= f)
  Yields-then Q m f hm hf = Yields-bind (λ _. Unit) Q m f (Yields-of_total m hm) (λ a _. hf a)
