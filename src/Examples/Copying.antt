-- ===== src/Examples/Copying.antt =====
-- Generated copies at concrete inputs, where metadata and selectors are plain values.
use bridge_operator.Prelude.{All, [], arith, false, none, pos, refl, some, true, ℕ, ◌∷◌, ◌≡◌}
use bridge_operator.DeepCopy.{ConfigurationObject, Copier, Heap, InformationObject}
use bridge_operator.DeepCopy.Copies.{map_pointer}
use bridge_operator.DeepCopy.ListCopies.{
  ConfigurationListIsIn, configuration_list_deep_copy-copies, items_of, read_configuration_list,
  write_configuration_list, write_nested,
}
use bridge_operator.DeepCopy.Lists.{ConfigurationListObject, ListHeap, configuration_list_deep_copy}
use bridge_operator.Memory.{cells}
use bridge_operator.Types.{
  EgressInterface, EgressVlanInterface, LabelSelector, ListMeta, ObjectMeta, TypeMeta,
}

abbrev meta_copier : Copier ObjectMeta ObjectMeta (Unit {0})
meta_copier = record {
  deep_copy = λ x h. (x, h);
  read = λ h x. x;
  is_in = λ h x. true;
  copied = λ x h e. refl;
  kept = λ x y h e f. refl;
  copy_in = λ x h e. refl;
  stays_in = λ x y h e f. refl;
}

abbrev selector_copier : Copier LabelSelector LabelSelector (Unit {0})
selector_copier = record {
  deep_copy = λ x h. (x, h);
  read = λ h x. x;
  is_in = λ h x. true;
  copied = λ x h e. refl;
  kept = λ x y h e f. refl;
  copy_in = λ x h e. refl;
  stays_in = λ x y h e f. refl;
}

abbrev heap : Heap (Unit {0}) (Unit {0})
heap = record {
  metas = tt;
  selectors = tt;
  vlan_cells = record { name = "eth0"; protocol = "802.1q"; id = pos 10 } ∷ [];
  interface_cells = record { name = "eth1" } ∷ record { name = "eth2" } ∷ [];
  port_cells = record { name = "eth1"; managed = true } ∷ [];
}

abbrev types : TypeMeta
types = record { kind = ""; api_version = "" }

abbrev blue_meta : ObjectMeta
blue_meta = record { name = "blue"; namespace = "" }

abbrev blue_object : ConfigurationObject ObjectMeta LabelSelector
blue_object = record {
  type_meta = types;
  object_meta = blue_meta;
  spec = record {
    node_selector = record { match_labels = []; match_expressions = [] };
    egress_vlan_interfaces = some (record { start = 0; size = 1 });
    egress_interfaces = some (record { start = 0; size = 2 });
  };
}

abbrev list_copier : Copier ListMeta ListMeta (Unit {0})
list_copier = record {
  deep_copy = λ x h. (x, h);
  read = λ h x. x;
  is_in = λ h x. true;
  copied = λ x h e. refl;
  kept = λ x y h e f. refl;
  copy_in = λ x h e. refl;
  stays_in = λ x y h e f. refl;
}

abbrev red_object : ConfigurationObject ObjectMeta LabelSelector
red_object = record blue_object { object_meta = record { name = "red"; namespace = "" } }

abbrev zero_information : InformationObject ObjectMeta
zero_information = record {
  type_meta = types;
  object_meta = record { name = ""; namespace = "" };
  status = record { name = ""; node = ""; managed = false; ports = none };
}

abbrev list_heap : ListHeap ObjectMeta LabelSelector (Unit {0}) (Unit {0}) (Unit {0})
list_heap = record {
  heap = heap;
  list_metas = tt;
  configuration_cells = blue_object ∷ red_object ∷ [];
  information_cells = [];
}

abbrev two_objects : ConfigurationListObject ListMeta
two_objects = record {
  type_meta = types;
  list_meta = record { resource_version = "7" };
  items = some (record { start = 0; size = 2 });
}

two_objects-IsIn :
    ConfigurationListIsIn meta_copier selector_copier list_copier blue_object zero_information
      list_heap two_objects
unfolding cells
two_objects-IsIn = (
  refl,
  ground arith,
  ((refl, refl, ground arith, ground arith), ((refl, refl, ground arith, ground arith), tt)),
)

list_copy_example :
    let (q, h1) =
      configuration_list_deep_copy meta_copier selector_copier list_copier blue_object
        zero_information
        (some two_objects)
        list_heap in
    (map_pointer
        (read_configuration_list meta_copier selector_copier list_copier blue_object
          zero_information h1)
        q
      ≡ some (
          read_configuration_list meta_copier selector_copier list_copier blue_object
            zero_information list_heap two_objects))
    × (read_configuration_list meta_copier selector_copier list_copier blue_object zero_information
          (write_configuration_list meta_copier selector_copier list_copier blue_object
            zero_information q 1 blue_object h1)
          two_objects
        ≡ read_configuration_list meta_copier selector_copier list_copier blue_object
            zero_information list_heap two_objects)
    × All
        (λ c.
          (j : ℕ) (w : EgressVlanInterface) (l : ℕ) (u : EgressInterface)
          → read_configuration_list meta_copier selector_copier list_copier blue_object
              zero_information
              (write_nested meta_copier selector_copier list_copier blue_object zero_information c j
                w l u
                (write_configuration_list meta_copier selector_copier list_copier blue_object
                  zero_information q 1 blue_object h1))
              two_objects
            ≡ read_configuration_list meta_copier selector_copier list_copier blue_object
                zero_information list_heap two_objects)
        (items_of meta_copier selector_copier list_copier blue_object zero_information q h1)
list_copy_example =
    configuration_list_deep_copy-copies meta_copier selector_copier list_copier blue_object
      zero_information (some two_objects) two_objects 1 blue_object list_heap two_objects-IsIn
      two_objects-IsIn
