-- ===== src/Controller/Workload/Template.antt =====
-- managedAccessTemplate of access_resources.go: which part of a pod template is the operator's, and
-- which part stays as the platform admitted it. A nil map is the empty one here; the source makes it
-- that before it writes to it.
use mathlib.Core.Option
use showroom_msp_chat_ui.Prelude.{
  String, false, none, some, List, [], ◌∷◌, map, ◌==◌, if◌then◌else◌,
}
use showroom_msp_chat_ui.Controller.Pods.{
  Container, PodTemplate, Probe, HttpGet, Volume, Port, SecretVolume,
}
use showroom_msp_chat_ui.Dictionary.{insert_all}

abbrev pub with_scheme : HttpGet → HttpGet
with_scheme get = record get { scheme = "HTTP" }

abbrev pub managed_probe : Probe → Probe
managed_probe p = record p { success_threshold = 1; http_get = Option.map with_scheme p.http_get }

-- the loop over the existing containers: the last one of the name counts
unfoldable pub admitted_resources : List Container → String → String → String
admitted_resources [] name resources = resources
admitted_resources (old ∷ olds) name resources =
    admitted_resources olds name (if old.name == name then old.resources else resources)

unfoldable pub managed_container : List Container → Container → Container
unfolding admitted_resources
managed_container existing c = record c {
  image_pull_policy = "IfNotPresent";
  termination_message_path = "/dev/termination-log";
  termination_message_policy = "File";
  ports = map (λ (p : Port). record p { protocol = "TCP" }) c.ports;
  resources = admitted_resources existing c.name c.resources;
  readiness_probe = Option.map managed_probe c.readiness_probe;
  liveness_probe = Option.map managed_probe c.liveness_probe;
  startup_probe = Option.map managed_probe c.startup_probe;
}

-- 0644
abbrev pub with_mode : SecretVolume → SecretVolume
with_mode secret = record secret { default_mode = some 420 }

abbrev pub managed_volume : Volume → Volume
managed_volume v = record v { secret = Option.map with_mode v.secret }

unfoldable pub managed_access_template : PodTemplate → PodTemplate → PodTemplate
unfolding managed_container insert_all
managed_access_template existing desired = record {
  labels = insert_all desired.labels existing.labels;
  annotations = insert_all desired.annotations existing.annotations;
  spec = record (existing.spec) {
    containers = map (managed_container existing.spec.containers) desired.spec.containers;
    init_containers = [];
    volumes = map managed_volume desired.spec.volumes;
    security_context = desired.spec.security_context;
    automount_service_account_token = some false;
    host_network = false;
    host_pid = false;
    host_ipc = false;
    share_process_namespace = none;
  };
}
