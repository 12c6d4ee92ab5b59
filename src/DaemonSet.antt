-- ===== src/DaemonSet.antt =====
-- `getBridgeInformationDaemonSet` (main.go): the object that makes every node run a daemon. Of the
-- Kubernetes types it has the fields that are set.
use bridge_operator.Prelude.{Bool, List, String, [], int_eq, nat_eq, string_eq, true, ◌∷◌}
use bridge_operator.GoMap.{GoMap}
use bridge_operator.Tracker.{name_eq}
use bridge_operator.Types.{LabelSelector, ObjectMeta, interface_eq, vlan_interface_eq}

pub record Toleration : Type 0 where
  pub operator : String
  pub effect : String

pub record VolumeMount : Type 0 where
  pub name : String
  pub mount_path : String

pub record HostVolume : Type 0 where
  pub name : String
  pub host_path : String

pub record Container : Type 0 where
  pub name : String
  pub image : String
  pub command : List String
  pub requests : GoMap String String
  pub limits : GoMap String String
  pub privileged : Bool
  pub added_capabilities : List String
  pub volume_mounts : List VolumeMount

pub record PodSpec : Type 0 where
  pub host_network : Bool
  pub node_selector : GoMap String String
  pub tolerations : List Toleration
  pub service_account_name : String
  pub containers : List Container
  pub volumes : List HostVolume

pub record DaemonSet : Type 0 where
  pub metadata : ObjectMeta
  pub labels : GoMap String String
  pub selector : LabelSelector
  pub update_strategy : String
  pub template_labels : GoMap String String
  pub template_spec : PodSpec

abbrev daemon_labels : GoMap String String
daemon_labels = ("tier", "node") ∷ ("app", "bridge-operator") ∷ ("name", "bridge-operator") ∷ []

unfoldable pub daemon_container : String → Container
daemon_container image = record {
  name = "bridge-operator-daemon";
  image = image;
  command = "/usr/bin/bridge-operator-daemon" ∷ [];
  requests = ("cpu", "100m") ∷ ("memory", "80Mi") ∷ [];
  limits = ("cpu", "100m") ∷ ("memory", "150Mi") ∷ [];
  privileged = true;
  added_capabilities = "SYS_ADMIN" ∷ "NET_ADMIN" ∷ [];
  volume_mounts = record { name = "host"; mount_path = "/host" } ∷ [];
}

unfoldable pub daemon_pod : String → String → PodSpec
unfolding daemon_container
daemon_pod service_account_name image = record {
  host_network = true;
  node_selector = ("kubernetes.io/os", "linux") ∷ [];
  tolerations = record { operator = "Exists"; effect = "NoSchedule" } ∷ [];
  service_account_name = service_account_name;
  containers = daemon_container image ∷ [];
  volumes = record { name = "host"; host_path = "/" } ∷ [];
}

-- `env` is `os.Getenv`.
unfoldable pub get_bridge_information_daemon_set : (String → String) → DaemonSet
unfolding daemon_pod
get_bridge_information_daemon_set env = record {
  metadata = record { name = "bridge-operator-ds"; namespace = env "POD_NAMESPACE" };
  labels = daemon_labels;
  selector = record { match_labels = ("name", "bridge-operator") ∷ []; match_expressions = [] };
  update_strategy = "RollingUpdate";
  template_labels = daemon_labels;
  template_spec = daemon_pod (env "POD_SERVICE_ACCOUNT") (env "DAEMON_IMAGE");
}
