-- ===== src/Controller/Effects/Sends.antt =====
-- Rules for what an action sends: every write that it adds to the log satisfies `P`, and an answer
-- satisfies `Q`, whatever the API server says.
use showroom_msp_chat_ui.Prelude.{◌≡◌, All, refl, ◌∙◌, Bool, true, false, if◌then◌else◌}
use showroom_msp_chat_ui.Controller.Effects.{
  ◌>>=◌, Write, Action, pure, Run, ok, Log, attempt, current, err, fail, lift, ask, write, put,
  continue,
}
use showroom_msp_chat_ui.Errors.{Error, Result}
use mathlib.Core.Path.{subst}
use showroom_msp_chat_ui.Controller.Objects.{Instance}

pub record Sends {ℓ κ} {A : Type ℓ} (P : Write → Type 0) (Q : A → Type κ) (m : Action A)
    : Type (ℓ ⊔ κ) where
  pub log : (s : Run) → All P s.log → All P (m s).1.log
  pub answer : (s : Run) (a : A) → (m s).0 ≡ ok a → Q a

pub ok_injective : {A : Type 0} {a b : A} → ok a ≡ ok b → a ≡ b
ok_injective h = cc

pub err-ne-ok : {A : Type 0} {e : Error} {a : A} → ¬ (err e ≡ ok a)
err-ne-ok h = cc

module _ {A : Type 0} (P : Write → Type 0) (Q : A → Type 0) where
  pub Sends-pure : (a : A) → Q a → Sends P Q (pure a)
  Sends-pure a q = record { log = λ s h. h; answer = λ s b e. subst Q (ok_injective e) q }

  pub Sends-fail : (e : Error) → Sends P Q (fail e)
  Sends-fail e = record { log = λ s h. h; answer = λ s b h. absurd (err-ne-ok h) }

  pub Sends-lift : (r : Result A) → ((a : A) → r ≡ ok a → Q a) → Sends P Q (lift r)
  Sends-lift r q = record { log = λ s h. h; answer = λ s a e. q a e }

  pub Sends-ask : (f : Log → Result A) → ((a : A) → Q a) → Sends P Q (ask f)
  Sends-ask f q = record { log = λ s h. h; answer = λ s a e. q a }

  -- a read whose answer says what it says at every log
  pub Sends-ask_of :
      (f : Log → Result A) → ((l : Log) (a : A) → f l ≡ ok a → Q a) → Sends P Q (ask f)
  Sends-ask_of f q = record { log = λ s h. h; answer = λ s a e. q s.log a e }

  pub Sends-write :
      (f : Log → Write → Result A) (w : Write) → P w → ((a : A) → Q a) → Sends P Q (write f w)
  Sends-write f w p q = record { log = λ s h. (p, h); answer = λ s a e. q a }

  pub Sends-attempt :
      (m : Action A) → Sends P Q m → Sends P (λ r. (a : A) → r ≡ ok a → Q a) (attempt m)
  unfolding attempt
  Sends-attempt m k = record {
    log = k.log;
    answer = λ s r e a h. k.answer s a (ok_injective e ∙ h);
  }

  pub Sends-if :
      (b : Bool) (m n : Action A)
      → (b ≡ true → Sends P Q m)
      → (b ≡ false → Sends P Q n)
      → Sends P Q (if b then m else n)
  Sends-if true m n km kn = km refl
  Sends-if false m n km kn = kn refl

  -- a weaker claim about the answer
  pub Sends-mono :
      (R : A → Type 0) (m : Action A) → Sends P R m → ((a : A) → R a → Q a) → Sends P Q m
  Sends-mono R m k f = record { log = k.log; answer = λ s a e. f a (k.answer s a e) }

pub Sends-current : (P : Write → Type 0) → Sends P (λ _. Unit {0}) current
Sends-current P = record { log = λ s h. h; answer = λ s a e. tt }

pub Sends-put : (P : Write → Type 0) (inst : Instance) → Sends P (λ _. Unit {0}) (put inst)
Sends-put P inst = record { log = λ s h. h; answer = λ s a e. tt }

module _ {A B : Type 0} (P : Write → Type 0) (Q : A → Type 0) (R : B → Type 0) where
  continue-log :
      (r : Result A) (f : A → Action B) (s : Run)
      → ((a : A) → r ≡ ok a → Sends P R (f a))
      → All P s.log
      → All P (continue r f s).1.log
  continue-log (ok a) f s k h = (k a refl).log s h
  continue-log (err e) f s k h = h

  continue-answer :
      (r : Result A) (f : A → Action B) (s : Run) (b : B)
      → ((a : A) → r ≡ ok a → Sends P R (f a))
      → (continue r f s).0 ≡ ok b
      → R b
  continue-answer (ok a) f s b k h = (k a refl).answer s b h
  continue-answer (err e) f s b k h = absurd (err-ne-ok h)

  -- The rest may use what is known of the answer.
  pub Sends-bind :
      (m : Action A) (f : A → Action B)
      → Sends P Q m
      → ((a : A) → Q a → Sends P R (f a))
      → Sends P R (m >>= f)
  unfolding ◌>>=◌
  Sends-bind m f k kf = record {
    log = λ s h. continue-log (m s).0 f (m s).1 (λ a e. kf a (k.answer s a e)) (k.log s h);
    answer = λ s b e. continue-answer (m s).0 f (m s).1 b (λ a e'. kf a (k.answer s a e')) e;
  }
