-- ===== src/Client/Clientset/Ready.antt =====
-- When `NewForConfig` (pkg/client/clientset/versioned/clientset.go) gives a set of clients.
use bridge_operator.Prelude.{
  Bool, Bool-cases, Option, Result-cases, ap, arith, err, failed, if◌then◌else◌, inl, inr, int_eq,
  nat_eq, none, not, ok, refl, some, string_eq, sym, true, ◌==◌, ◌||◌, ◌↔◌, ◌∙◌, ◌≡◌,
}
use bridge_operator.Client.Clientset.{
  Clientset, RestConfig, RestLibrary, clients_with, discovery_with, group_client_with,
  is_positive_int, new_for_config, new_for_config_and_client, set_config_defaults, with_agent,
  with_limiter,
}
use bridge_operator.InfoUpdate.{scheme_group_version}
use bridge_operator.Tracker.{name_eq}
use bridge_operator.Types.{interface_eq, vlan_interface_eq}

module _ {X Q R N H C D : Type 0} (lib : RestLibrary X Q R N H C D) where
  -- The rate limiter that the clients are to use.
  abbrev pub shared_limiter : RestConfig X Q R N → Option R
  shared_limiter config = elim config.rate_limiter [
    | some limiter ↦ some limiter
    | none ↦
        if lib.is_positive config.qps
        then some (lib.new_token_bucket_rate_limiter config.qps config.burst)
        else none
  ]

  -- `Burst` may only be 0 or less if there is a rate limiter already, or none is wanted.
  abbrev pub burst_is_fine : RestConfig X Q R N → Bool
  burst_is_fine config = elim config.rate_limiter [
    | some limiter ↦ true
    | none ↦ not (lib.is_positive config.qps) || is_positive_int config.burst
  ]

  -- The configuration that the clients are made from: with a user agent and the limiter.
  abbrev pub prepared : RestConfig X Q R N → RestConfig X Q R N
  prepared config = record config {
    user_agent =
        if config.user_agent == "" then lib.default_kubernetes_user_agent else config.user_agent;
    rate_limiter = shared_limiter config;
  }

  -- What setConfigDefaults adds for the client of the group.
  abbrev pub for_group : RestConfig X Q R N → RestConfig X Q R N
  for_group config = record config {
    group_version = some scheme_group_version;
    api_path = "/apis";
    negotiated_serializer = some lib.without_conversion;
  }

  -- The set can be made: both of its clients, over one transport and with one rate limiter.
  pub record IsReady (config : RestConfig X Q R N) (cs : Clientset C D) : Type 0 where
    pub transport : H
    pub has_transport :
        lib.http_client_for (record config {
          user_agent =
              if config.user_agent == ""
              then lib.default_kubernetes_user_agent
              else config.user_agent;
        })
        ≡ ok transport
    pub burst_fine : burst_is_fine config ≡ true
    pub has_client :
        lib.rest_client_for_config_and_client (for_group (prepared config)) transport
        ≡ ok cs.bridgeoperator_client.rest_client
    pub has_discovery :
        lib.new_discovery_client_for_config_and_client (prepared config) transport
        ≡ ok cs.discovery_client

  with_agent_lem :
      (config : RestConfig X Q R N)
      → with_agent lib config ≡ record config {
        user_agent =
            if config.user_agent == ""
            then lib.default_kubernetes_user_agent
            else config.user_agent;
      }
  unfolding with_agent
  with_agent_lem config = elim (Bool-cases (config.user_agent == "")) [
    | inl unnamed ↦ rw unnamed refl
    | inr named ↦ rw named refl
  ]

  -- The user agent is there already when the client of the group is made.
  set_config_defaults-prepared :
      (config : RestConfig X Q R N)
      → set_config_defaults lib (prepared config) ≡ for_group (prepared config)
  unfolding set_config_defaults with_agent
  set_config_defaults-prepared config = elim (Bool-cases (config.user_agent == "")) [
    | inl unnamed ↦ elim (Bool-cases (lib.default_kubernetes_user_agent == "")) [
      | inl no_default ↦ rw (unnamed, no_default) refl
      | inr default ↦ rw (unnamed, default) refl
    ]
    | inr named ↦ rw (named, named) refl
  ]

  with_limiter-with_agent :
      (config : RestConfig X Q R N)
      → with_limiter lib (with_agent lib config) ≡ (
          if burst_is_fine config
          then ok (prepared config)
          else err (failed "burst is required to be greater than 0"))
  unfolding with_limiter with_agent
  with_limiter-with_agent config = elim (Bool-cases (config.user_agent == "")) [
    | inl unnamed ↦ rw unnamed (ground (arith, unnamed))
    | inr named ↦ rw named (ground (arith, named))
  ]

  -- What is made, once the parts can be made.
  new_for_config_made :
      (config : RestConfig X Q R N) (h : H) (c : C) (d : D)
      → lib.http_client_for (with_agent lib config) ≡ ok h
      → burst_is_fine config ≡ true
      → lib.rest_client_for_config_and_client (set_config_defaults lib (prepared config)) h ≡ ok c
      → lib.new_discovery_client_for_config_and_client (prepared config) h ≡ ok d
      → new_for_config lib config
        ≡ ok (record { discovery_client = d; bridgeoperator_client = record { rest_client = c } })
  unfolding new_for_config new_for_config_and_client clients_with discovery_with group_client_with
  new_for_config_made config h c d transport fine client discovery =
      ground (arith, transport, with_limiter-with_agent config, fine, client, discovery)

  new_for_config-IsReady :
      (config : RestConfig X Q R N) (cs : Clientset C D)
      → new_for_config lib config ≡ ok cs
      → IsReady config cs
  unfolding new_for_config new_for_config_and_client clients_with discovery_with group_client_with
  new_for_config-IsReady config cs e =
      elim (Result-cases (lib.http_client_for (with_agent lib config))) [
        | inl (x, denied) ↦ absurd (ground (arith, e, denied))
        | inr (h, transport) ↦ elim (Bool-cases (burst_is_fine config)) [
          | inr wrong ↦ absurd (ground (arith, e, transport, wrong, with_limiter-with_agent config))
          | inl fine ↦
              elim (Result-cases (
                lib.rest_client_for_config_and_client (set_config_defaults lib (prepared config))
                  h)) [
                    | inl (x, denied) ↦
                        absurd (
                          ground
                            (arith, e, transport, fine, with_limiter-with_agent config, denied))
                    | inr (c, client) ↦
                        elim (Result-cases
                          (lib.new_discovery_client_for_config_and_client (prepared config) h)) [
                            | inl (x, denied) ↦ absurd (
                                ground (
                                  arith,
                                  e,
                                  transport,
                                  fine,
                                  with_limiter-with_agent config,
                                  client,
                                  denied,
                                ))
                            | inr (d, discovery) ↦
                                let same = same_set (
                                  sym e
                                  ∙ new_for_config_made config h c d transport fine client
                                      discovery) in
                                record {
                                  transport = h;
                                  has_transport =
                                      ap lib.http_client_for (sym (with_agent_lem config))
                                      ∙ transport;
                                  burst_fine = fine;
                                  has_client =
                                      ap (λ x. lib.rest_client_for_config_and_client x h)
                                        (sym (set_config_defaults-prepared config))
                                      ∙ client
                                      ∙ ap (λ x. ok x.bridgeoperator_client.rest_client) (sym same);
                                  has_discovery =
                                      discovery ∙ ap (λ x. ok x.discovery_client) (sym same);
                                }
                          ]
                  ]
        ]
      ]
    where
      same_set : {a b : Clientset C D} → ok a ≡ ok b → a ≡ b
      same_set q = cc

  -- `NewForConfig` gives a set of clients exactly if it can be made: if the configuration, with its
  -- user agent or the default one, has a transport, if `Burst` is positive where a rate limiter has
  -- to be made, and if the client of the group and the discovery client can be made over this one
  -- transport, with the same user agent and rate limiter. The set holds these two.
  pub new_for_config-eq-ok :
      (config : RestConfig X Q R N) (cs : Clientset C D)
      → (new_for_config lib config ≡ ok cs) ↔ IsReady config cs
  new_for_config-eq-ok config cs = (
    new_for_config-IsReady config cs,
    λ r.
        new_for_config_made config r.transport cs.bridgeoperator_client.rest_client
          cs.discovery_client (ap lib.http_client_for (with_agent_lem config) ∙ r.has_transport)
          r.burst_fine
          (ap (λ x. lib.rest_client_for_config_and_client x r.transport)
              (set_config_defaults-prepared config)
            ∙ r.has_client)
          r.has_discovery,
  )
