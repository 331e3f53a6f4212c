-- ===== src/Drift.antt =====
-- Which live content the operator compares and which it keeps (contentDrifted, ownedServiceSpec,
-- preserveServiceFields of internal/controller/kubernaut_controller.go).
pub mod Preserve
use kubernaut_operator.Base.{
  ℕ, String, Bool, true, false, not, ◌||◌, Option, none, some, List, [], ◌∷◌, ◌==◌, if◌then◌else◌,
}
use mathlib.Core.List.{map}
use kubernaut_operator.Base.Map.{Map, lookup, delete, copy, get}
use kubernaut_operator.Kube.Object.{Object, ServicePort, ServiceSpec, Body, service, config_map}
use kubernaut_operator.Kube.Library.{Library}

-- `if s == "" { s = d }`
abbrev pub or_default : String → String → String
or_default s d = if s == "" then d else s

-- The port as the operator manages it: the node port is the API server's.
unfoldable pub owned_port : ServicePort → ServicePort
owned_port p = record p { node_port = 0; protocol = or_default p.protocol "TCP" }

-- ownedServiceSpec; the fields that it leaves out have their zero value.
unfoldable pub owned_service_spec : ServiceSpec → ServiceSpec
owned_service_spec spec = record {
  selector = spec.selector;
  ports = map owned_port spec.ports;
  type = or_default spec.type "ClusterIP";
  session_affinity = or_default spec.session_affinity "None";
  external_name = spec.external_name;
  publish_not_ready_addresses = spec.publish_not_ready_addresses;
  cluster_ip = "";
  external_traffic_policy = "";
  health_check_node_port = 0;
  load_balancer_class = none;
  allocate_load_balancer_node_ports = none;
}

-- The loop over `desiredCM.Data`: a missing key reads as the empty text.
unfoldable pub text_drifted : Map String → Map String → Bool
text_drifted [] live = false
text_drifted ((key, val) ∷ desired) live = not (get key live == val) || text_drifted desired live

abbrev pub same_bytes : Option String → String → Bool
same_bytes none val = false
same_bytes (some live) val = val == live

-- The loop over `desiredCM.BinaryData`: a missing key is a drift.
unfoldable pub binary_drifted : Map String → Map String → Bool
binary_drifted [] live = false
binary_drifted ((key, val) ∷ desired) live =
    not (same_bytes (lookup key live) val) || binary_drifted desired live

-- contentDrifted, by the types of the two objects
unfoldable pub body_drifted : Library → Body → Body → Bool
body_drifted lib (service desired) (service live) =
    not (lib.same_service (owned_service_spec desired) (owned_service_spec live))
body_drifted lib (config_map desired desired_binary) (config_map live live_binary) =
    text_drifted desired live || binary_drifted desired_binary live_binary
body_drifted lib _ _ = false

unfoldable pub content_drifted : Library → Object → Object → Bool
unfolding body_drifted
content_drifted lib desired existing = body_drifted lib desired.body existing.body

-- The part of preserveServiceFields that makes the new spec.
unfoldable pub preserved_spec : ServiceSpec → ServiceSpec → ServiceSpec
preserved_spec desired existing =
    let owned = owned_service_spec desired in
    let live = record existing {
      selector = owned.selector;
      ports = owned.ports;
      type = owned.type;
      session_affinity = owned.session_affinity;
      external_name = owned.external_name;
      publish_not_ready_addresses = owned.publish_not_ready_addresses;
    } in
    if owned.type == "ClusterIP"
    then record live {
      external_traffic_policy = "";
      health_check_node_port = 0;
      load_balancer_class = none;
      allocate_load_balancer_node_ports = none;
    }
    else live

-- OCPServingCertAnnotation
abbrev pub serving_cert_key : String
serving_cert_key = "service.beta.openshift.io/serving-cert-secret-name"

-- preserveServiceFields, which runs if the desired object is a Service
abbrev pub preserve_body : Object → Object → Body → Body → Object
preserve_body desired existing (service want) (service live) = record desired {
  body = service (preserved_spec want live);
  annotations = copy desired.annotations (delete serving_cert_key existing.annotations);
  labels = copy desired.labels existing.labels;
}
preserve_body desired existing _ _ = desired

unfoldable pub preserve_service_fields : Object → Object → Object
unfolding preserved_spec
preserve_service_fields desired existing = preserve_body desired existing desired.body existing.body
