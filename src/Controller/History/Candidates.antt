-- ===== src/Controller/History/Candidates.antt =====
-- What makeAccessSecretRoom knows of the Secrets that it may delete.
use showroom_msp_chat_ui.Prelude.{
  String, ◌≡◌, refl, ◌⊎◌, inl, inr, true, false, List, [], ◌∷◌, arith, eq_iff, Bool-cases, All,
  Listed, ap, Bool, ◌≢◌, not, ◌==◌, if◌then◌else◌,
}
use showroom_msp_chat_ui.Controller.Effects.{Api, Write, Log, delete_secret}
use showroom_msp_chat_ui.Controller.Effects.Sends.{
  Sends, Sends-if, Sends-pure, Sends-fail, Sends-bind, Sends-lift, Sends-attempt, Sends-ask_of,
}
use showroom_msp_chat_ui.Controller.Setup.{Kit, owned_by_instance}
use showroom_msp_chat_ui.Controller.Objects.{Instance, Secret, Key, key_of}
use showroom_msp_chat_ui.Controller.History.{
  history_found, oldest, is_older, history_secret, collect_candidates,
}
use showroom_msp_chat_ui.Controller.Sessions.{is_true}
use showroom_msp_chat_ui.Errors.{Result, ok, err, fail_if}
use showroom_msp_chat_ui.HostnamePolicy.{mem}
use showroom_msp_chat_ui.Text.{has_prefix}
use showroom_msp_chat_ui.Dictionary.{Map}

-- An access Secret of the instance that is pinned under its UID, and that nothing refers to.
pub record IsRetirable (inst : Instance) (referenced : List String) (secret : Secret) : Type 0 where
  pub owned : owned_by_instance secret.meta inst ≡ true
  pub immutable : is_true secret.immutable ≡ true
  pub pinned : Listed (secret.meta.name, secret.meta.uid) inst.status.access_secret_uids
  pub bundle : has_prefix secret.meta.name "chatui-access-" ≡ true
  pub unused : mem secret.meta.name referenced ≡ false

-- A deleted Secret is a retirable one, under its UID and resource version; other writes are free.
abbrev pub IsRetirement : Instance → List String → Write → Type 0
IsRetirement inst referenced (delete_secret key uid version) =
    (secret : Secret) × (key_of secret.meta ≡ key)
    × (secret.meta.uid ≡ uid)
    × (secret.meta.resource_version ≡ version)
    × IsRetirable inst referenced secret
IsRetirement _ _ _ = Unit

-- a Secret that is already gone, or a retirable one
abbrev pub IsCandidate : Instance → List String → Secret → Type 0
IsCandidate inst referenced secret = (secret.meta.uid ≡ "") ⊎ IsRetirable inst referenced secret

pub oldest-All :
    (P : Secret → Type 0) (s : Secret) (ss : List Secret) → P s → All P ss → P (oldest s ss)
unfolding oldest
oldest-All P s [] p h = p
oldest-All P s (t ∷ ts) p (q, h) = elim (Bool-cases (is_older t s)) [
  | inl older ↦ rw older (oldest-All P t ts q h)
  | inr newer ↦ rw newer (oldest-All P s ts p h)
]

pub ne_empty : {u : String} → not (u == "") ≡ true → u ≢ ""
ne_empty {u} h = ground (arith, eq_iff u "")

-- Reading a Secret gives the one that was asked for.
abbrev pub IsByName : Api → Type 0
IsByName api =
    (log : Log) (key : Key) (secret : Secret)
    → api.get_secret log key ≡ ok secret
    → key_of secret.meta ≡ key

module _ (k : Kit) (api : Api) (by_name : IsByName api) (inst : Instance)
    (referenced : List String) where
  abbrev P : Write → Type 0
  P = IsRetirement inst referenced

  -- a Secret of the history, under a pin
  abbrev IsHistory : String → String → Secret → Type 0
  IsHistory name uid secret =
      (secret.meta.uid ≡ "")
      ⊎ ((owned_by_instance secret.meta inst ≡ true)
          × (is_true secret.immutable ≡ true)
          × (secret.meta.uid ≡ uid)
          × (secret.meta.name ≡ name)
          × (has_prefix name "chatui-access-" ≡ true))

  history_found-Sends :
      (name uid : String) (found : Result Secret)
      → has_prefix name "chatui-access-" ≡ true
      → ((secret : Secret) → found ≡ ok secret → secret.meta.name ≡ name)
      → Sends P (IsHistory name uid) (history_found k api inst name uid found)
  history_found-Sends name uid (ok secret) prefix named =
      Sends-if P (IsHistory name uid) _ _ _ (λ _. Sends-fail P _ _)
        (λ trusted. Sends-pure P (IsHistory name uid) secret (
          inr (
            ground arith,
            ground arith,
            ground (arith, eq_iff secret.meta.uid uid),
            named secret refl,
            prefix,
          )))
  history_found-Sends name uid (err e) prefix named =
      Sends-if P (IsHistory name uid) _ _ _ (λ _. Sends-pure P (IsHistory name uid) _ (inl refl))
        (λ _. Sends-fail P _ e)

  checked : (b : Bool) (text : String) (a : Unit {0}) → fail_if b text ≡ ok a → b ≡ false
  checked true text a h = cc
  checked false text a h = refl

  history_secret-Sends :
      (name uid : String) → Sends P (IsHistory name uid) (history_secret k api inst name uid)
  history_secret-Sends name uid =
      Sends-bind P (λ _. has_prefix name "chatui-access-" ≡ true) (IsHistory name uid) _ _
        (Sends-lift P _ _ (λ a e. let no_fault = checked _ _ a e in ground arith))
        (λ _ prefix.
          Sends-bind P (λ found. (secret : Secret) → found ≡ ok secret → secret.meta.name ≡ name)
            (IsHistory name uid) _ _
            (Sends-attempt P _ _ (
              Sends-ask_of P (λ secret. secret.meta.name ≡ name) _
                (λ log secret e. ap (λ key. key.name) (by_name log _ secret e))))
            (λ found named. history_found-Sends name uid found prefix named))

  candidate :
      (name uid : String) (secret : Secret)
      → Listed (name, uid) inst.status.access_secret_uids
      → IsHistory name uid secret
      → mem name referenced ≡ false
      → IsCandidate inst referenced secret
  candidate name uid secret l (inl missing) unused = inl missing
  candidate name uid secret l (inr (owned, immutable, same_uid, same_name, bundle)) unused =
      inr (record {
        owned = owned;
        immutable = immutable;
        pinned = rw (same_uid, same_name) l;
        bundle = rw same_name bundle;
        unused = rw same_name unused;
      })

  kept :
      (name uid : String) (secret : Secret) (others : List Secret)
      → Listed (name, uid) inst.status.access_secret_uids
      → IsHistory name uid secret
      → All (IsCandidate inst referenced) others
      → All
          (IsCandidate inst referenced)
          (if not (mem name referenced) then secret ∷ others else others)
  kept name uid secret others l history candidates = elim (Bool-cases (mem name referenced)) [
    | inl used ↦ rw used candidates
    | inr unused ↦ rw unused (candidate name uid secret l history unused, candidates)
  ]

  pub collect_candidates-Sends :
      (pins : Map String)
      → ((f : String × String) → Listed f pins → Listed f inst.status.access_secret_uids)
      → Sends P (All (IsCandidate inst referenced)) (collect_candidates k api inst referenced pins)
  unfolding collect_candidates
  collect_candidates-Sends [] up = Sends-pure P (All (IsCandidate inst referenced)) [] tt
  collect_candidates-Sends ((name, uid) ∷ pins) up =
      let rest = collect_candidates-Sends pins (λ f l. up f (inr l)) in
      Sends-if P (All (IsCandidate inst referenced)) _ _ _ (λ _. rest)
        (λ _.
          Sends-bind P (IsHistory name uid) (All (IsCandidate inst referenced)) _ _
            (history_secret-Sends name uid)
            (λ secret history.
              Sends-bind P (All (IsCandidate inst referenced)) (All (IsCandidate inst referenced)) _
                _ rest
                (λ others candidates.
                  Sends-pure P (All (IsCandidate inst referenced)) _
                    (kept name uid secret others (up (name, uid) (inl refl)) history candidates))))
