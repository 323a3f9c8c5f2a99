-- ===== src/Controller/Effects/Keeping.antt =====
-- Rules for an invariant of a run, which an action keeps whatever the API server answers and whether
-- or not it fails.
use showroom_msp_chat_ui.Prelude.{String, ◌≡◌, refl, ◌∷◌, Bool, true, false, if◌then◌else◌}
use showroom_msp_chat_ui.Controller.Effects.{
  ◌>>=◌, ◌>>◌, Run, Action, pure, Log, attempt, current, fail, lift, ask, continue, Write, write,
}
use showroom_msp_chat_ui.Errors.{Error, Result, fail_if, ok, err}
use showroom_msp_chat_ui.Controller.Effects.Reads.{Reads}
use showroom_msp_chat_ui.Controller.Objects.{Instance}

pub record Keeps {ℓ} {A : Type ℓ} (I : Run → Type 0) (m : Action A) : Type ℓ where
  pub kept : (s : Run) → I s → I (m s).1

module _ {ℓ} {A : Type ℓ} {I : Run → Type 0} where
  pub Keeps-pure : (a : A) → Keeps I (pure a)
  Keeps-pure a = record { kept = λ s h. h }

  pub Keeps-fail : (e : Error) → Keeps I (fail {A = A} e)
  Keeps-fail e = record { kept = λ s h. h }

  pub Keeps-lift : (r : Result A) → Keeps I (lift r)
  Keeps-lift r = record { kept = λ s h. h }

  pub Keeps-ask : (f : Log → Result A) → Keeps I (ask f)
  Keeps-ask f = record { kept = λ s h. h }

  pub Keeps-attempt : (m : Action A) → Keeps I m → Keeps I (attempt m)
  unfolding attempt
  Keeps-attempt m k = record { kept = k.kept }

  pub Keeps-Reads : (m : Action A) → Reads m → Keeps I m
  Keeps-Reads m k = record { kept = λ s h. rw (k.unchanged s) h }

  pub Keeps-if : (b : Bool) (m n : Action A) → Keeps I m → Keeps I n → Keeps I (if b then m else n)
  Keeps-if true m n km kn = km
  Keeps-if false m n km kn = kn

  -- the rule for a test, where the branches use what it says
  pub Keeps-split :
      (b : Bool) (m n : Action A)
      → (b ≡ true → Keeps I m)
      → (b ≡ false → Keeps I n)
      → Keeps I (if b then m else n)
  Keeps-split true m n km kn = km refl
  Keeps-split false m n km kn = kn refl

  -- The rest may use what the invariant says of `inst`.
  pub Keeps-current_bind :
      (f : Instance → Action A) → ((s : Run) → I s → Keeps I (f s.inst)) → Keeps I (current >>= f)
  unfolding ◌>>=◌
  Keeps-current_bind f k = record { kept = λ s h. (k s h).kept s h }

  checked :
      (b : Bool) (text : String) (n : Action A) (s : Run)
      → (b ≡ false → Keeps I n)
      → I s
      → I (continue (fail_if b text) (λ _. n) s).1
  checked true text n s k h = h
  checked false text n s k h = (k refl).kept s h

  -- The rest may use that the check passed.
  pub Keeps-check :
      (b : Bool) (text : String) (n : Action A)
      → (b ≡ false → Keeps I n)
      → Keeps I (lift (fail_if b text) >> n)
  unfolding ◌>>=◌
  Keeps-check b text n k = record { kept = λ s h. checked b text n s k h }

pub Keeps-current : {I : Run → Type 0} → Keeps I current
Keeps-current = record { kept = λ s h. h }

module _ {ℓ κ} {A : Type ℓ} {B : Type κ} (I : Run → Type 0) where
  pub answered :
      (r : Result A) (f : A → Action B) (s : Run)
      → I s
      → ((a : A) → r ≡ ok a → I (f a s).1)
      → I (continue r f s).1
  answered (ok a) f s h k = k a refl
  answered (err e) f s h k = h

module _ {ℓ κ} {A : Type ℓ} {B : Type κ} {I : Run → Type 0} where
  pub Keeps-bind :
      (m : Action A) (f : A → Action B) → Keeps I m → ((a : A) → Keeps I (f a)) → Keeps I (m >>= f)
  unfolding ◌>>=◌
  Keeps-bind m f k kf = record {
    kept = λ s h. answered I (m s).0 f (m s).1 (k.kept s h) (λ a _. (kf a).kept _ (k.kept s h));
  }

  -- The rest may use what was answered to the write, and after which writes.
  pub Keeps-write_bind :
      (send : Log → Write → Result A) (w : Write) (f : A → Action B)
      → ((s : Run) → I s → I (record s { log = w ∷ s.log }))
      → ((s : Run) (a : A) → I s → send s.log w ≡ ok a → I (f a (record s { log = w ∷ s.log })).1)
      → Keeps I (write send w >>= f)
  unfolding ◌>>=◌
  Keeps-write_bind send w f logged k = record {
    kept = λ s h. answered I (send s.log w) f _ (logged s h) (λ a e. k s a h e);
  }

pub ruleset keeps = (
  Keeps-pure, Keeps-fail, Keeps-lift, Keeps-ask, Keeps-attempt, Keeps-if, Keeps-current, Keeps-bind,
)
