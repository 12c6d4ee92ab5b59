-- ===== src/Cluster.antt =====
-- What the daemon uses of the Kubernetes API and of apimachinery's label selectors, as a
-- parameter. A generated client returns an object that is never nil beside the error.
use bridge_operator.Prelude.{Bool, Error, List, Option, Result, String, ℕ}
use bridge_operator.GoMap.{GoMap}
use bridge_operator.Types.{BridgeConfiguration, BridgeInformation, LabelSelector}

pub record Node : Type 0 where
  pub labels : GoMap String String

pub data ApiCall : Type 0 where
  info_delete : String → ApiCall
  info_create info_update_status : BridgeInformation → ApiCall

pub record Cluster (W : Type 0) : Type 0 where
  pub node_get : String → W → Node × Option Error
  pub config_list : W → Result (List BridgeConfiguration)
  pub info_list : W → Result (List BridgeInformation)
  pub info_get : String → W → BridgeInformation × Option Error
  -- The object and the error that the server answers with, and the server after the call.
  pub request : ApiCall → W → BridgeInformation × Option Error × W
  pub selector_size : LabelSelector → ℕ
  pub label_selector_as_map : LabelSelector → Result (GoMap String String)
  pub selector_matches : GoMap String String → GoMap String String → Bool
