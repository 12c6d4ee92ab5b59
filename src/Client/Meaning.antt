-- ===== src/Client/Meaning.antt =====
-- What a request to the API server stands for, by the conventions of the Kubernetes API: as the
-- action on a store of objects.
use bridge_operator.Prelude.{
  List, Option, String, [], if◌then◌else◌, int_eq, nat_eq, none, some, string_eq, ◌==◌, ◌∷◌,
}
use bridge_operator.Client.{
  Body, Params, Request, body, delete_options, list_options, name, object, patch_data, resource,
  rest_delete, rest_get, rest_patch, rest_post, rest_put, sub_resource, timeout, versioned_params,
}
use bridge_operator.Client.Fake.{
  Action, root_create, root_delete, root_delete_collection, root_get, root_list, root_patch,
  root_update, root_update_subresource, root_watch,
}
use bridge_operator.Informers.Typed.{GroupVersionResource}
use bridge_operator.Tracker.{name_eq, name_of}
use bridge_operator.Types.{interface_eq, vlan_interface_eq}

pub data Verb : Type 0 where
  http_get http_post http_put http_delete : Verb
  http_patch : String → Verb

-- What the server reads off a request.
pub record Summary (O T : Type 0) : Type 0 where
  pub verb : Verb
  pub of_resource : String
  pub of_name : Option String
  pub sub_path : List String
  pub parameters : Option (Params O)
  pub content : Option (Body O T)

abbrev full_resource : String → GroupVersionResource
full_resource r = record {
  group = "bridgeoperator.k8s.cni.npwg.io";
  version = "v1alpha1";
  resource = r;
}

module _ {O T : Type 0} where
  abbrev plain : Verb → Summary O T
  plain verb = record {
    verb = verb;
    of_resource = "";
    of_name = none;
    sub_path = [];
    parameters = none;
    content = none;
  }

  abbrev pub summary : Request O T → Summary O T
  summary rest_get = plain http_get
  summary rest_post = plain http_post
  summary rest_put = plain http_put
  summary rest_delete = plain http_delete
  summary (rest_patch pt) = plain (http_patch pt)
  summary (resource r q) = record (summary q) { of_resource = r }
  summary (name n q) = record (summary q) { of_name = some n }
  summary (sub_resource subs q) = record (summary q) { sub_path = subs }
  summary (versioned_params ps q) = record (summary q) { parameters = some ps }
  summary (timeout d q) = summary q
  summary (body b q) = record (summary q) { content = some b }

  -- A GET without a name is a watch if the parameter says so.
  abbrev read_all : GroupVersionResource → Option (Params O) → Option (Action O T)
  read_all r (some (list_options opts)) =
      some (if opts.watch then root_watch r opts else root_list r opts)
  read_all r _ = none

  abbrev write_one :
      (T → String)
      → GroupVersionResource
      → Option String
      → List String
      → Option (Body O T)
      → Option (Action O T)
  write_one name_of r (some n) [] (some (object o)) =
      if n == name_of o then some (root_update r o) else none
  write_one name_of r (some n) (sub ∷ []) (some (object o)) =
      if n == name_of o then some (root_update_subresource r sub o) else none
  write_one name_of r _ _ _ = none

  abbrev remove_some :
      GroupVersionResource
      → Option String
      → Option (Params O)
      → Option (Body O T)
      → Option (Action O T)
  remove_some r (some n) none (some (delete_options opts)) = some (root_delete r n opts)
  remove_some r none (some (list_options opts)) (some (delete_options _)) =
      some (root_delete_collection r opts)
  remove_some r _ _ _ = none

  abbrev action_of : (T → String) → Summary O T → Verb → Option (Action O T)
  action_of name_of s http_get = elim s.of_name [
    | none ↦ read_all (full_resource s.of_resource) s.parameters
    | some n ↦ some (root_get (full_resource s.of_resource) n)
  ]
  action_of name_of s http_post = elim s.content [
    | none ↦ none
    | some b ↦ elim b [
      | object o ↦ some (root_create (full_resource s.of_resource) o)
      | delete_options _ ↦ none
      | patch_data _ ↦ none
    ]
  ]
  action_of name_of s http_put =
      write_one name_of (full_resource s.of_resource) s.of_name s.sub_path s.content
  action_of name_of s http_delete =
      remove_some (full_resource s.of_resource) s.of_name s.parameters s.content
  action_of name_of s (http_patch pt) = elim s.of_name [
    | none ↦ none
    | some n ↦ elim s.content [
      | none ↦ none
      | some b ↦ elim b [
        | patch_data bytes ↦ some (root_patch (full_resource s.of_resource) n pt bytes s.sub_path)
        | object _ ↦ none
        | delete_options _ ↦ none
      ]
    ]
  ]

  -- The action that the request stands for, if it is one that the API has.
  abbrev pub meaning : (T → String) → Request O T → Option (Action O T)
  meaning name_of q = action_of name_of (summary q) (summary q).verb
