-- ===== src/Options/Started.antt =====
-- Which server `Options.Run` starts.
-- All that the start asks for was had, and the server is the new one of that name.
use bridge_operator.Prelude.{
  Error, Option-cases, Result, String, ap, arith, err, inl, inr, int_eq, nat_eq, none, ok, refl,
  string_eq, sym, ◌↔◌, ◌∙◌, ◌≡◌, ◌⊎◌,
}
use bridge_operator.Daemon.{new_server}
use bridge_operator.Options.{
  Options, Setup, make_server, rest_config, run_options, server_named, server_with_config,
}
use bridge_operator.State.{State}
use bridge_operator.Tracker.{name_eq}
use bridge_operator.Types.{interface_eq, vlan_interface_eq}

pub record Started {C W : Type 0} (setup : Setup C) (o : Options) (w : W) (s : State W)
    : Type 0 where
  pub config : C
  pub config_had : rest_config setup o ≡ ok config
  pub client_made : setup.client_error config ≡ none
  pub bridge_client_made : setup.bridge_client_error config ≡ none
  pub hostname_had : setup.get_hostname o.hostname_override ≡ ok s.hostname
  pub is_new : s ≡ new_server s.hostname w

ok_or_err : {A : Type 0} (r : Result A) → ((e : Error) × (r ≡ err e)) ⊎ ((a : A) × (r ≡ ok a))
ok_or_err (err e) = inl (e, refl)
ok_or_err (ok a) = inr (a, refl)

ok_injective : {A : Type 0} {a b : A} → ok a ≡ ok b → a ≡ b
ok_injective e = cc

module _ {C W : Type 0} (setup : Setup C) (o : Options) (w : W) where
  started :
      (config : C) (hostname : String) (s : State W)
      → rest_config setup o ≡ ok config
      → setup.client_error config ≡ none
      → setup.bridge_client_error config ≡ none
      → setup.get_hostname o.hostname_override ≡ ok hostname
      → new_server hostname w ≡ s
      → Started setup o w s
  unfolding new_server
  started config hostname s had client bridge_client named made = record {
    config = config;
    config_had = had;
    client_made = client;
    bridge_client_made = bridge_client;
    hostname_had = named ∙ ap (λ x. ok x.hostname) made;
    is_new = sym made ∙ ap (λ x. new_server x.hostname w) made;
  }

  run_had_all : (s : State W) → run_options setup o w ≡ ok s → Started setup o w s
  unfolding run_options make_server server_with_config server_named
  run_had_all s e = elim (ok_or_err (rest_config setup o)) [
    | inl (x, none_had) ↦ absurd (ground (arith, none_had, e))
    | inr (config, had) ↦ elim (Option-cases (setup.client_error config)) [
      | inr (x, no_client) ↦ absurd (ground (arith, had, no_client, e))
      | inl client ↦ elim (Option-cases (setup.bridge_client_error config)) [
        | inr (x, no_client) ↦ absurd (ground (arith, had, client, no_client, e))
        | inl bridge_client ↦ elim (ok_or_err (setup.get_hostname o.hostname_override)) [
          | inl (x, no_name) ↦ absurd (ground (arith, had, client, bridge_client, no_name, e))
          | inr (hostname, named) ↦ started config hostname s had client bridge_client named (
              ok_injective (
                rw
                  (
                    run_options, make_server, server_with_config, had, client, bridge_client, named,
                    named,
                  )
                  at e))
        ]
      ]
    ]
  ]

  had_all_run : (s : State W) → Started setup o w s → run_options setup o w ≡ ok s
  unfolding run_options make_server server_with_config server_named
  had_all_run s h =
      rw
        (
          run_options, make_server, server_with_config, h.config_had, h.client_made,
          h.bridge_client_made, h.hostname_had, h.hostname_had,
        )
        (ap ok (sym h.is_new))

  -- `Options.Run` starts a server exactly if it can have a configuration, both clients and the name
  -- of the host; and the server is then the new one of that name.
  pub run_options-Started : (s : State W) → (run_options setup o w ≡ ok s) ↔ Started setup o w s
  run_options-Started s = (run_had_all s, had_all_run s)
