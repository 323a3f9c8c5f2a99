-- ===== src/Controller/Sessions/Trusting.antt =====
-- Which session Secret an instance uses.
use showroom_msp_chat_ui.Prelude.{
  ◌≡◌, ◌≢◌, ◌↔◌, true, false, ◌&&◌, some, refl, sym, ap, ◌∙◌, inl, inr, Bool, Option, none, arith,
  eq_iff, eq_refl, Bool-cases, ne-==,
}
use showroom_msp_chat_ui.Controller.Effects.{◌>>=◌, Api, Run, attempt}
use showroom_msp_chat_ui.Controller.Setup.{Kit, owned_by_instance}
use showroom_msp_chat_ui.Controller.Objects.{Instance, Secret, Key}
use showroom_msp_chat_ui.Errors.{ok}
use showroom_msp_chat_ui.Dictionary.{value_of}
use showroom_msp_chat_ui.Controller.Sessions.{
  session_secret_name, is_trusted, session_secret, has_key, is_true, pin_of,
}
use showroom_msp_chat_ui.Controller.Effects.Sends.{err-ne-ok, ok_injective}

-- A Secret that an instance may rely on: its own, immutable, not being deleted, with a UID, under
-- which the status pins it, and with two keys of 32 bytes.
pub record IsReliable (k : Kit) (api : Api) (inst : Instance) (secret : Secret) : Type 0 where
  pub owned : owned_by_instance secret.meta inst ≡ true
  pub immutable : secret.immutable ≡ some true
  pub alive : secret.meta.deleting ≡ false
  pub uid : secret.meta.uid ≢ ""
  pub pinned : value_of secret.meta.name inst.status.access_secret_uids ≡ secret.meta.uid
  pub cookie_key : has_key k api secret "cookie-secret" ≡ true
  pub webui_key : has_key k api secret "webui-secret" ≡ true

abbrev pub session_key : Kit → Api → Instance → Key
session_key k api inst = record {
  namespace = inst.meta.namespace;
  name = session_secret_name k api inst;
}

clash : false ≢ true
clash h = cc

is_true-some : (o : Option Bool) → is_true o ≡ true → o ≡ some true
is_true-some none h = cc
is_true-some (some true) h = refl
is_true-some (some false) h = cc

module _ (k : Kit) (api : Api) where
  reliable :
      (inst : Instance) (secret : Secret)
      → is_trusted k api inst secret ≡ true
      → (has_key k api secret "cookie-secret" && has_key k api secret "webui-secret") ≡ true
      → IsReliable k api inst secret
  reliable inst secret trusted keys =
      let e1 = eq_iff secret.meta.uid "" in
      let e2 = eq_iff (pin_of k api inst secret.meta.name) secret.meta.uid in
      record {
        owned = ground arith;
        immutable = is_true-some secret.immutable (ground arith);
        alive = ground arith;
        uid = ground arith;
        pinned = ground arith;
        cookie_key = ground arith;
        webui_key = ground arith;
      }

  reliable_parts :
      (inst : Instance) (secret : Secret)
      → IsReliable k api inst secret
      → (is_trusted k api inst secret ≡ true)
        × ((has_key k api secret "cookie-secret" && has_key k api secret "webui-secret") ≡ true)
  reliable_parts inst secret r = (
    rw (r.owned, r.immutable, r.alive, ne-== r.uid, r.pinned) (eq_refl secret.meta.uid),
    rw (r.cookie_key, r.webui_key) refl,
  )

  -- A session Secret that exists is used exactly when it is the instance's own, immutable, alive,
  -- pinned in the status under its UID, and has its two keys of 32 bytes; nothing is written then.
  pub session_secret_iff :
      (s : Run) (secret t : Secret)
      → api.get_secret s.log (session_key k api s.inst) ≡ ok secret
      → (((session_secret k api s).0 ≡ ok t) ↔ ((t ≡ secret) × IsReliable k api s.inst secret))
        × ((session_secret k api s).1 ≡ s)
  unfolding session_secret attempt ◌>>=◌
  session_secret_iff s secret t found = elim (Bool-cases (is_trusted k api s.inst secret)) [
    | inr bad ↦
        rw (found, bad)
          (
            (
              λ w. absurd (err-ne-ok w),
              λ (_, r). absurd (clash (sym bad ∙ (reliable_parts s.inst secret r).0)),
            ),
            refl,
          )
    | inl good ↦
        elim (Bool-cases
          (has_key k api secret "cookie-secret" && has_key k api secret "webui-secret")) [
            | inr bad ↦
                rw (found, good, bad)
                  (
                    (
                      λ w. absurd (err-ne-ok w),
                      λ (_, r). absurd (clash (sym bad ∙ (reliable_parts s.inst secret r).1)),
                    ),
                    refl,
                  )
            | inl keys ↦
                rw (found, good, keys)
                  (
                    (
                      λ w. (sym (ok_injective w), reliable s.inst secret good keys),
                      λ (same, _). ap ok (sym same),
                    ),
                    refl,
                  )
          ]
  ]
