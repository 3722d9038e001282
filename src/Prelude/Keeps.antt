-- ===== src/Prelude/Keeps.antt =====
-- Actions that keep a part of the state, whether they return or throw.
use mathlib.Core.Path.{◌≡◌, refl, ◌∙◌}
use mathlib.Core.Option.{Option, none, some}
use mathlib.Core.Bool.{Bool, true, false}
use trustflow_backend.Prelude.Exec.{
  Error, Result, ok, err, Exec, pure, throw, gets, try_catch, when_else, or_throw, throw_if, ◌>>=◌,
  recover, resume,
}

-- `view` reads the part that is kept.
pub record Keeps {ℓ} {S V A : Type ℓ} (view : S → V) (m : Exec S A) : Type ℓ where
  pub at : (s : S) → view (m s).1 ≡ view s

module _ {ℓ} {S V A : Type ℓ} (view : S → V) where
  pub Keeps-pure : (a : A) → Keeps view (pure {S = S} a)
  Keeps-pure a = record { at = λ s. refl }

  pub Keeps-throw : (e : Error) → Keeps view (throw {S = S} {A = A} e)
  Keeps-throw e = record { at = λ s. refl }

  pub Keeps-given : (r : Result A) → Keeps view (λ (s : S). (r, s))
  Keeps-given r = record { at = λ s. refl }

  pub Keeps-gets : (f : S → A) → Keeps view (gets f)
  Keeps-gets f = record { at = λ s. refl }

  pub Keeps-or_throw : (o : Option A) (e : Error) → Keeps view (or_throw {S = S} o e)
  Keeps-or_throw none e = record { at = λ s. refl }
  Keeps-or_throw (some a) e = record { at = λ s. refl }

  pub Keeps-when_else :
      (b : Bool) (m n : Exec S A) → Keeps view m → Keeps view n → Keeps view (when_else b m n)
  Keeps-when_else true m n hm hn = hm
  Keeps-when_else false m n hm hn = hn

  recover-Keeps :
      (r : Result A) (h : Error → Exec S A) (s : S)
      → ((e : Error) → Keeps view (h e))
      → view (recover r h s).1 ≡ view s
  recover-Keeps (ok a) h s k = refl
  recover-Keeps (err e) h s k = (k e).at s

  pub Keeps-try_catch :
      (m : Exec S A) (h : Error → Exec S A)
      → Keeps view m
      → ((e : Error) → Keeps view (h e))
      → Keeps view (try_catch m h)
  Keeps-try_catch m h km kh = record { at = λ s. recover-Keeps (m s).0 h (m s).1 kh ∙ km.at s }

module _ {ℓ} {S V : Type ℓ} (view : S → V) where
  pub Keeps-throw_if : (b : Bool) (e : Error) → Keeps view (throw_if {S = S} b e)
  Keeps-throw_if true e = record { at = λ s. refl }
  Keeps-throw_if false e = record { at = λ s. refl }

module _ {ℓ} {S V A B : Type ℓ} (view : S → V) where
  resume-Keeps :
      (r : Result A) (f : A → Exec S B) (s : S)
      → ((a : A) → Keeps view (f a))
      → view (resume r f s).1 ≡ view s
  resume-Keeps (ok a) f s k = (k a).at s
  resume-Keeps (err e) f s k = refl

  pub Keeps-bind :
      (m : Exec S A) (f : A → Exec S B)
      → Keeps view m
      → ((a : A) → Keeps view (f a))
      → Keeps view (m >>= f)
  Keeps-bind m f km kf = record { at = λ s. resume-Keeps (m s).0 f (m s).1 kf ∙ km.at s }
