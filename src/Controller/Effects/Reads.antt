-- ===== src/Controller/Effects/Reads.antt =====
-- Rules for the actions that send nothing and leave `inst` alone.
use showroom_msp_chat_ui.Prelude.{◌≡◌, refl, ◌∙◌, Bool, true, false, if◌then◌else◌}
use showroom_msp_chat_ui.Controller.Effects.{
  ◌>>=◌, Action, pure, Run, ok, Log, attempt, current, err, fail, lift, ask, continue,
}
use showroom_msp_chat_ui.Errors.{Error, Result}

pub record Reads {ℓ} {A : Type ℓ} (m : Action A) : Type ℓ where
  pub unchanged : (s : Run) → (m s).1 ≡ s

module _ {ℓ} {A : Type ℓ} where
  pub Reads-pure : (a : A) → Reads (pure a)
  Reads-pure a = record { unchanged = λ s. refl }

  pub Reads-fail : (e : Error) → Reads (fail {A = A} e)
  Reads-fail e = record { unchanged = λ s. refl }

  pub Reads-lift : (r : Result A) → Reads (lift r)
  Reads-lift r = record { unchanged = λ s. refl }

  pub Reads-ask : (f : Log → Result A) → Reads (ask f)
  Reads-ask f = record { unchanged = λ s. refl }

  pub Reads-attempt : (m : Action A) → Reads m → Reads (attempt m)
  unfolding attempt
  Reads-attempt m k = record { unchanged = k.unchanged }

  pub Reads-if : (b : Bool) (m n : Action A) → Reads m → Reads n → Reads (if b then m else n)
  Reads-if true m n km kn = km
  Reads-if false m n km kn = kn

pub Reads-current : Reads current
Reads-current = record { unchanged = λ s. refl }

module _ {ℓ κ} {A : Type ℓ} {B : Type κ} where
  continue-unchanged :
      (answer : Result A) (f : A → Action B) (s : Run)
      → ((a : A) → Reads (f a))
      → (continue answer f s).1 ≡ s
  continue-unchanged (ok a) f s k = (k a).unchanged s
  continue-unchanged (err e) f s k = refl

  pub Reads-bind :
      (m : Action A) (f : A → Action B) → Reads m → ((a : A) → Reads (f a)) → Reads (m >>= f)
  unfolding ◌>>=◌
  Reads-bind m f k kf = record {
    unchanged = λ s. continue-unchanged (m s).0 f (m s).1 kf ∙ k.unchanged s;
  }

pub ruleset reads = (
  Reads-pure, Reads-fail, Reads-lift, Reads-ask, Reads-attempt, Reads-if, Reads-current, Reads-bind,
)
