-- ===== src/Controller/Effects/Outcomes.antt =====
-- Rules for a chain of checks: each one is passed, or the run ends with writes that satisfy `P`.
use showroom_msp_chat_ui.Prelude.{◌≡◌, refl, ◌⊎◌, inl, Bool, true, false, if◌then◌else◌, All}
use showroom_msp_chat_ui.Controller.Effects.{◌>>=◌, Action, Write, Run, attempt}
use showroom_msp_chat_ui.Controller.Effects.Logs.{Logs, Logs-All}
use showroom_msp_chat_ui.Errors.{Result, Error, ok, err}

-- Either nothing is sent but `P`, or `X` holds.
module _ {A B : Type 0} (P : Write → Type 0) (X : Type 0) where
  attempted :
      (m : Action A) (s : Run) (f : Result A → Action B) (out : Result A × Run)
      → m s ≡ out
      → All P out.1.log
      → ((e : Error) → Logs P (f (err e)))
      → ((a : A) (s1 : Run) → m s ≡ (ok a, s1) → All P s1.log → All P (f (ok a) s1).1.log ⊎ X)
      → All P (f out.0 out.1).1.log ⊎ X
  attempted m s f (ok a, s1) e h bad good = good a s1 e h
  attempted m s f (err c, s1) e h bad good = inl (Logs-All (f (err c)) (bad c) s1 h)

  pub attempt_or :
      (m : Action A) (f : Result A → Action B) (s : Run)
      → Logs P m
      → All P s.log
      → ((e : Error) → Logs P (f (err e)))
      → ((a : A) (s1 : Run) → m s ≡ (ok a, s1) → All P s1.log → All P (f (ok a) s1).1.log ⊎ X)
      → All P ((attempt m >>= f) s).1.log ⊎ X
  unfolding attempt ◌>>=◌
  attempt_or m f s k h bad good = attempted m s f (m s) refl (Logs-All m k s h) bad good

module _ {A : Type 0} (P : Write → Type 0) (X : Type 0) where
  pub if_or :
      (b : Bool) (m n : Action A) (s : Run)
      → Logs P m
      → All P s.log
      → (b ≡ false → All P (n s).1.log ⊎ X)
      → All P ((if b then m else n) s).1.log ⊎ X
  if_or true m n s k h other = inl (Logs-All m k s h)
  if_or false m n s k h other = other refl
