-- ===== src/Operator/Labels.antt =====
-- The labelling client of cmd/main.go: the operator's labels on every object that it creates or
-- updates.
use showroom_msp_chat_ui.Prelude.{
  String, not, [], ◌∷◌, ◌==◌, eqb, if◌then◌else◌, length, ◌≡◌, ◌&&◌, Option, none, some, arith,
  eq_iff,
}
use showroom_msp_chat_ui.Dictionary.{Map, lookup, insert, has, lookup-insert}
use showroom_msp_chat_ui.Controller.Objects.{Meta}
use showroom_msp_chat_ui.Controller.Effects.{
  Api, Write, update_instance, patch_status, update_status, create_deployment, update_deployment,
  create_service, update_service, create_ingress, update_ingress, delete_ingress, create_secret,
  delete_secret,
}

-- one round of the loop over the base labels
abbrev pub with_label : String → String → Map String → Map String
with_label key value labels =
    if value == "" then labels else if has key labels then labels else insert key value labels

-- the loop
unfoldable pub add_labels : Map String → Map String → Map String
unfolding insert lookup
add_labels [] labels = labels
add_labels ((key, value) ∷ base) labels = add_labels base (with_label key value labels)

unfoldable pub ensure_labels : Map String → Map String → Map String
unfolding add_labels
ensure_labels base labels = if eqb (length base) 0 then labels else add_labels base labels

abbrev pub base_labels : String → Map String
base_labels version =
    ("app.kubernetes.io/name", "chat-ui")
    ∷ ("app.kubernetes.io/part-of", "chat-ui")
    ∷ ("app.kubernetes.io/managed-by", "chat-ui-operator")
    ∷ (if not (version == "") then ("app.kubernetes.io/version", version) ∷ [] else [])

abbrev pub label : Map String → Meta → Meta
label base m = record m { labels = ensure_labels base m.labels }

-- Create, Update and Patch label the object; Delete and the status subresource are the delegate's.
unfoldable pub labelled : Map String → Write → Write
unfolding ensure_labels
labelled base (update_instance o) = update_instance (record o { meta = label base o.meta })
labelled base (patch_status o) = patch_status o
labelled base (update_status o) = update_status o
labelled base (create_deployment o) = create_deployment (record o { meta = label base o.meta })
labelled base (update_deployment o) = update_deployment (record o { meta = label base o.meta })
labelled base (create_service o) = create_service (record o { meta = label base o.meta })
labelled base (update_service o) = update_service (record o { meta = label base o.meta })
labelled base (create_ingress o) = create_ingress (record o { meta = label base o.meta })
labelled base (update_ingress o) = update_ingress (record o { meta = label base o.meta })
labelled base (delete_ingress key uid version) = delete_ingress key uid version
labelled base (create_secret o) = create_secret (record o { meta = label base o.meta })
labelled base (delete_secret key uid version) = delete_secret key uid version

-- the API server behind the labelling client
abbrev pub new_labeling_client : Api → Map String → Api
new_labeling_client delegate base = record delegate {
  send = λ log w. delegate.send log (labelled base w);
  send_instance = λ log w. delegate.send_instance log (labelled base w);
  send_secret = λ log w. delegate.send_secret log (labelled base w);
}

-- the first value of a key that is not empty
abbrev pub first_label : String → Map String → Option String
first_label key [] = none
first_label key ((name, value) ∷ base) =
    let rest = first_label key base in if name == key && not (value == "") then some value else rest

-- a value, or another where there is none
abbrev pub or_else : Option String → Option String → Option String
or_else (some v) other = some v
or_else none other = other

add_labels-lookup :
    (base labels : Map String) (key : String)
    → lookup key (add_labels base labels) ≡ or_else (lookup key labels) (first_label key base)
unfolding add_labels
add_labels-lookup [] labels key = ground arith
add_labels-lookup ((name, value) ∷ base) labels key = ground (
  arith,
  add_labels-lookup base (with_label name value labels) key,
  lookup-insert name key value labels,
  eq_iff name key,
)

-- A label that an object has is kept, whatever the operator's labels say, and a label that it lacks
-- is the operator's one of that key that is not empty, if there is one.
pub ensure_labels-lookup :
    (base labels : Map String) (key : String)
    → lookup key (ensure_labels base labels) ≡ or_else (lookup key labels) (first_label key base)
unfolding ensure_labels
ensure_labels-lookup [] labels key = add_labels-lookup [] labels key
ensure_labels-lookup (l ∷ base) labels key = ground (arith, add_labels-lookup (l ∷ base) labels key)
