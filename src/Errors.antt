-- ===== src/Errors.antt =====
-- Go's error values: the sentinels that the operator tests by errors.Is, the errors of the API
-- client, of which apierrors.IsNotFound tells one kind apart, fmt.Errorf with %w, errors.Join, and
-- errors.New with its text.
use showroom_msp_chat_ui.Prelude.{
  String, ◌≡◌, refl, Bool, true, false, ◌||◌, Option, none, some, ◌⊎◌, inl, inr,
}

-- hostnamepolicy.ErrLegacyUnmapped and ErrIdentity, accesspolicy.ErrUnmapped, and the controller's
-- errIngressNotOwned, errHostnameConflict, errDeploymentNotOwned, errAccessCutover
pub data Sentinel : Type 0 where
  legacy_unmapped identity unmapped ingress_not_owned hostname_conflict : Sentinel
  deployment_not_owned access_cutover : Sentinel

pub data Error : Type 0 where
  sentinel : Sentinel → Error
  message : String → Error
  wrapped : String → Error → Error
  joined : Error → Error → Error
  not_found : Error
  remote : String → Error

abbrev pub same_sentinel : Sentinel → Sentinel → Bool
same_sentinel legacy_unmapped legacy_unmapped = true
same_sentinel identity identity = true
same_sentinel unmapped unmapped = true
same_sentinel ingress_not_owned ingress_not_owned = true
same_sentinel hostname_conflict hostname_conflict = true
same_sentinel deployment_not_owned deployment_not_owned = true
same_sentinel access_cutover access_cutover = true
same_sentinel _ _ = false

-- errors.Is(err, target), for a sentinel
unfoldable pub is : Sentinel → Error → Bool
is s (sentinel t) = same_sentinel t s
is s (message _) = false
is s (wrapped _ e) = is s e
is s (joined e f) = is s e || is s f
is s not_found = false
is s (remote _) = false

-- apierrors.IsNotFound
abbrev pub is_not_found : Error → Bool
is_not_found not_found = true
is_not_found _ = false

-- A value and an error, of which one counts.
pub data Result {ℓ} (A : Type ℓ) : Type ℓ where
  ok : A → Result A
  err : Error → Result A

infixl 5 ◌>>=◌ ◌>>◌
abbrev pub ◌>>=◌ {ℓ κ} : {A : Type ℓ} {B : Type κ} → Result A → (A → Result B) → Result B
r >>= next = elim r [ ok value ↦ next value | err cause ↦ err cause ]

abbrev pub ◌>>◌ {ℓ κ} : {A : Type ℓ} {B : Type κ} → Result A → Result B → Result B
r >> rest = r >>= λ ignored. rest

-- if b { return errors.New(text) }
abbrev pub fail_if : Bool → String → Result (Unit {0})
fail_if true text = err (message text)
fail_if false text = ok tt

-- if err != nil { return fmt.Errorf(text + ": %w", err) }
abbrev pub with_context {ℓ} : {A : Type ℓ} → String → Result A → Result A
with_context text (ok a) = ok a
with_context text (err e) = err (wrapped text e)

pub with_context-eq-ok :
    {A : Type 0} (text : String) {a : A} (r : Result A) → with_context text r ≡ ok a → r ≡ ok a
with_context-eq-ok text (ok b) h = h
with_context-eq-ok text (err e) h = cc

-- errors.Join of errors that may be nil
abbrev pub join : Option Error → Option Error → Option Error
join none e = e
join (some e) none = some e
join (some e) (some f) = some (joined e f)

-- Where a sequence succeeds, so did its first part, and what follows at the first part's value.
pub >>=-eq-ok {κ ℓ} :
    {B : Type κ} {A : Type ℓ} (r : Result A) (next : A → Result B) {last : B}
    → r >>= next ≡ ok last
    → (value : A) × (r ≡ ok value) × (next value ≡ ok last)
>>=-eq-ok (ok value) next both = (value, refl, both)
>>=-eq-ok (err cause) next both = cc

pub Result-cases {ℓ} :
    {A : Type ℓ} (r : Result A) → ((a : A) × (r ≡ ok a)) ⊎ ((e : Error) × (r ≡ err e))
Result-cases (ok a) = inl (a, refl)
Result-cases (err e) = inr (e, refl)

abbrev pub given {ℓ} : {A : Type ℓ} → Option A → String → Result A
given none text = err (message text)
given (some a) text = ok a
