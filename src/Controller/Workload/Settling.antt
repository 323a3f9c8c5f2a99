-- ===== src/Controller/Workload/Settling.antt =====
-- A template that the reconciler made is its own managed template: once stored, it is not changed
-- again.
use showroom_msp_chat_ui.Prelude.{
  decide_self, String, ◌≡◌, refl, ◌∙◌, false, some, [], ◌∷◌, ◌==◌, eq_refl, All, Pairwise, sym, ap,
  true, Bool, if◌then◌else◌, arith, ◌||◌, not,
}
use showroom_msp_chat_ui.Dictionary.{Map, lookup, insert, insert_all, lookup-insert, insert_same}
use showroom_msp_chat_ui.Controller.Effects.{
  update_deployment, write, pure, ◌>>=◌, Api, Run, attempt, Action,
}
use showroom_msp_chat_ui.Controller.Setup.{Kit, Reconciler, chatui_key, owned_by_instance}
use showroom_msp_chat_ui.Controller.Objects.{Instance, pos}
use showroom_msp_chat_ui.Controller.Pods.{PodTemplate, Deployment, PodTemplate-discrete}
use showroom_msp_chat_ui.Controller.Workload.Template.{managed_access_template}
use showroom_msp_chat_ui.Controller.Workload.Rollout.{
  Rollout, desired_deployment, reconcile_deployment, update_workload, needs_cutover, has_replicas,
}
use showroom_msp_chat_ui.Errors.{ok}
use showroom_msp_chat_ui.Controller.Services.{ui_labels}

abbrev IsOtherKey : String → String × String → Type 0
IsOtherKey key f = (f.0 == key) ≡ false

lookup-insert_all :
    (key : String) (more m : Map String)
    → All (IsOtherKey key) more
    → lookup key (insert_all more m) ≡ lookup key m
unfolding insert_all
lookup-insert_all key [] m h = refl
lookup-insert_all key ((k, v) ∷ more) m (p, h) =
    lookup-insert_all key more (insert k v m) h ∙ rw (lookup-insert k key v m, p)

-- the keys are pairwise different
abbrev IsMap : Map String → Type 0
IsMap m = Pairwise (λ a b. IsOtherKey a.0 b) m

insert_all-holds :
    (more m : Map String) → IsMap more → All (λ f. lookup f.0 (insert_all more m) ≡ some f.1) more
unfolding insert_all
insert_all-holds [] m d = tt
insert_all-holds ((k, v) ∷ more) m (d, ds) = (
  lookup-insert_all k more (insert k v m) d ∙ rw (lookup-insert k k v m) (rw (eq_refl k)),
  insert_all-holds more (insert k v m) ds,
)

insert_all_held :
    (more m : Map String) → All (λ f. lookup f.0 m ≡ some f.1) more → insert_all more m ≡ m
unfolding insert_all
insert_all_held [] m h = refl
insert_all_held ((k, v) ∷ more) m (p, h) = rw (insert_same k v m p) (insert_all_held more m h)

-- Putting a map's values in a second time changes nothing.
insert_all_again :
    (more m : Map String) → IsMap more → insert_all more (insert_all more m) ≡ insert_all more m
insert_all_again more m d = insert_all_held more _ (insert_all-holds more m d)

neither : (a b : Bool) → a ≡ true → b ≡ true → (not a || not b) ≡ false
neither a b p q = rw (p, q) refl

nothing_left :
    (s : Run) (b c : Bool) (m n p : Action (Unit {0}))
    → b ≡ false
    → c ≡ true
    → (if b then m else if c then n else p) s ≡ n s
nothing_left s b c m n p unchanged held = rw (unchanged, held) refl

module _ (k : Kit) (api : Api) (r : Reconciler) (inst : Instance) (o : Rollout) where
  abbrev desired : PodTemplate
  desired = (desired_deployment k api r inst o).template

  labels-IsMap : IsMap desired.labels
  unfolding desired_deployment ui_labels
  labels-IsMap = ((refl, (refl, tt)), ((refl, tt), (tt, tt)))

  annotations-IsMap : IsMap desired.annotations
  unfolding desired_deployment
  annotations-IsMap = ((refl, tt), (tt, tt))

  again : (existing : PodTemplate) → PodTemplate
  again existing = record (managed_access_template existing desired) {
    labels = insert_all desired.labels (insert_all desired.labels existing.labels);
    annotations =
        insert_all desired.annotations (insert_all desired.annotations existing.annotations);
  }

  -- all but the maps is computed to the same
  managed_twice :
      (existing : PodTemplate)
      → managed_access_template (managed_access_template existing desired) desired ≡ again existing
  unfolding managed_access_template desired_deployment again
  managed_twice existing = refl

  managed_access_template-again :
      (existing : PodTemplate)
      → managed_access_template (managed_access_template existing desired) desired
        ≡ managed_access_template existing desired
  unfolding managed_access_template again
  managed_access_template-again existing = managed_twice existing ∙ λ i.
      record (managed_access_template existing desired) {
        labels = insert_all_again desired.labels existing.labels labels-IsMap i;
        annotations = insert_all_again desired.annotations existing.annotations annotations-IsMap i;
      }

  update_workload-settled :
      (existing : Deployment) (s : Run)
      → existing.template ≡ managed_access_template existing.template desired
      → existing.strategy ≡ "Recreate"
      → existing.replicas ≡ some (pos o.replicas)
      → update_workload k api r inst o.replicas existing (desired_deployment k api r inst o) s
        ≡ (ok tt, s)
  update_workload-settled existing s template strategy replicas =
      let same_template =
        decide_self
          (PodTemplate-discrete existing.template
            (managed_access_template existing.template desired))
          template in
      nothing_left s
        (needs_cutover k api r existing (managed_access_template existing.template desired))
        (has_replicas k api r existing.replicas o.replicas) _ (pure tt)
        (write api.send (update_deployment (record existing { replicas = some (pos o.replicas) })))
        (neither _ _ same_template (rw strategy (eq_refl "Recreate"))) (ground arith)

  -- Once the API server has the Deployment as reconcileDeployment sent it, owned by the instance,
  -- with the template made from any former one, the strategy Recreate and the wanted replicas, the
  -- next call with the same arguments succeeds and sends nothing: there is no second cutover.
  pub reconcile_deployment_settled :
      (existing : Deployment) (former : PodTemplate) (s : Run)
      → api.get_deployment s.log (chatui_key inst) ≡ ok existing
      → owned_by_instance existing.meta inst ≡ true
      → existing.template ≡ managed_access_template former desired
      → existing.strategy ≡ "Recreate"
      → existing.replicas ≡ some (pos o.replicas)
      → reconcile_deployment k api r inst o s ≡ (ok tt, s)
  unfolding reconcile_deployment attempt ◌>>=◌
  reconcile_deployment_settled existing former s found owned template strategy replicas =
      let same =
        template
        ∙ sym (managed_access_template-again former)
        ∙ ap (λ t. managed_access_template t desired) (sym template) in
      rw (found, owned) (update_workload-settled existing s same strategy replicas)
