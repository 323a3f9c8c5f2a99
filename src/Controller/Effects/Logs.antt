-- ===== src/Controller/Effects/Logs.antt =====
-- Rules for the writes alone: an action adds to the log only writes that satisfy `P`, whatever the
-- API server answers. They fit automation, since nothing is said of the answers.
use mathlib.Core.List.{◌++◌, append_assoc}
use showroom_msp_chat_ui.Controller.Effects.Reads.{Reads}
use showroom_msp_chat_ui.Prelude.{
  All-mono, All-append, Bool, true, false, if◌then◌else◌, All, ◌≡◌, refl, sym, ap, ◌∙◌, [], ◌∷◌,
}
use showroom_msp_chat_ui.Controller.Effects.{
  ◌>>=◌, Write, Action, pure, Run, ok, Log, attempt, current, err, fail, lift, ask, write, put,
  continue,
}
use showroom_msp_chat_ui.Errors.{Error, Result}
use showroom_msp_chat_ui.Controller.Objects.{Instance}

-- What the action adds to the log, the latest first.
pub record Added (P : Write → Type 0) (before after : Log) : Type 0 where
  pub writes : Log
  pub same : after ≡ writes ++ before
  pub all : All P writes

pub record Logs {ℓ} {A : Type ℓ} (P : Write → Type 0) (m : Action A) : Type ℓ where
  pub added : (s : Run) → Added P s.log (m s).1.log

abbrev nothing : {P : Write → Type 0} (log : Log) → Added P log log
nothing log = record { writes = []; same = refl; all = tt }

module _ {ℓ} {A : Type ℓ} {P : Write → Type 0} where
  pub Logs-pure : (a : A) → Logs P (pure a)
  Logs-pure a = record { added = λ s. nothing s.log }

  pub Logs-fail : (e : Error) → Logs P (fail {A = A} e)
  Logs-fail e = record { added = λ s. nothing s.log }

  pub Logs-lift : (r : Result A) → Logs P (lift r)
  Logs-lift r = record { added = λ s. nothing s.log }

  pub Logs-ask : (f : Log → Result A) → Logs P (ask f)
  Logs-ask f = record { added = λ s. nothing s.log }

  pub Logs-write : (f : Log → Write → Result A) (w : Write) → P w → Logs P (write f w)
  Logs-write f w p = record { added = λ s. record { writes = w ∷ []; same = refl; all = (p, tt) } }

  pub Logs-attempt : (m : Action A) → Logs P m → Logs P (attempt m)
  unfolding attempt
  Logs-attempt m k = record { added = k.added }

  pub Logs-if : (b : Bool) (m n : Action A) → Logs P m → Logs P n → Logs P (if b then m else n)
  Logs-if true m n km kn = km
  Logs-if false m n km kn = kn

  -- the rule for a test, where the branches use what it says
  pub Logs-split :
      (b : Bool) (m n : Action A)
      → (b ≡ true → Logs P m)
      → (b ≡ false → Logs P n)
      → Logs P (if b then m else n)
  Logs-split true m n km kn = km refl
  Logs-split false m n km kn = kn refl

  -- A log of such writes stays one.
  pub Logs-All : (m : Action A) → Logs P m → (s : Run) → All P s.log → All P (m s).1.log
  Logs-All m k s h = let a = k.added s in rw a.same (All-append P a.writes s.log a.all h)

  -- A weaker claim on the writes.
  pub Logs-mono :
      (Q : Write → Type 0) (m : Action A) → ((w : Write) → P w → Q w) → Logs P m → Logs Q m
  Logs-mono Q m f k = record {
    added = λ s.
        let a = k.added s in
        record { writes = a.writes; same = a.same; all = All-mono P Q f a.writes a.all };
  }

  pub Logs-Reads : (m : Action A) → Reads m → Logs P m
  Logs-Reads m k = record {
    added = λ s. record { writes = []; same = ap (λ (t : Run). t.log) (k.unchanged s); all = tt };
  }

pub Logs-current : {P : Write → Type 0} → Logs P current
Logs-current = record { added = λ s. nothing s.log }

pub Logs-put : {P : Write → Type 0} (inst : Instance) → Logs P (put inst)
Logs-put inst = record { added = λ s. nothing s.log }

module _ {P : Write → Type 0} where
  Added-trans :
      {first second third : Log} → Added P first second → Added P second third → Added P first third
  Added-trans {first} {second} {third} a b = record {
    writes = b.writes ++ a.writes;
    same = b.same ∙ ap (λ l. b.writes ++ l) a.same ∙ sym (append_assoc b.writes a.writes first);
    all = All-append P b.writes a.writes b.all a.all;
  }

module _ {ℓ κ} {A : Type ℓ} {B : Type κ} {P : Write → Type 0} where
  continue-Added :
      (r : Result A) (f : A → Action B) (s : Run)
      → ((a : A) → Logs P (f a))
      → Added P s.log (continue r f s).1.log
  continue-Added (ok a) f s k = (k a).added s
  continue-Added (err e) f s k = nothing s.log

  pub Logs-bind :
      (m : Action A) (f : A → Action B) → Logs P m → ((a : A) → Logs P (f a)) → Logs P (m >>= f)
  unfolding ◌>>=◌
  Logs-bind m f k kf = record {
    added = λ s. Added-trans (k.added s) (continue-Added (m s).0 f (m s).1 kf);
  }

pub ruleset logs = (
  Logs-pure, Logs-fail, Logs-lift, Logs-ask, Logs-write, Logs-attempt, Logs-if, Logs-current,
  Logs-put, Logs-bind,
)
