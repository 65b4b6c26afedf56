-- ===== src/Connectors/Tests.antt =====
-- Two mock connectors, and the theorem at them.
use argus_os.Prelude.{String, ◌≡◌, refl, true, false, List, [], ◌∷◌}
use argus_os.Prelude.Dict.{lookup}
use argus_os.Lifecycle.{LifecycleState}
use argus_os.Events.{text}
use argus_os.Connectors.{
  Connector, MockConnector, ConnectorManager, plain, mock_connector, unregister_connector, invoke,
}
use argus_os.Connectors.Paired.{Call, IsPaired, raises_key_error, run, run_clean}

abbrev connector : String → Connector
connector id = record {
  name = "mock";
  description = "";
  version = "1";
  id = id;
  enabled = true;
  capabilities = [];
  metadata = [];
}

abbrev mock : MockConnector
mock = record { connected = false; response = ("status", plain (text "ok")) ∷ [] }

abbrev no_connectors : ConnectorManager MockConnector
no_connectors = record {
  connectors = [];
  implementations = [];
  state = LifecycleState.created;
  published = [];
}

-- The second "a" is refused, and so is the call of "z".
abbrev calls : List (Call MockConnector mock_connector)
calls =
    Call.initialize
    ∷ Call.start
    ∷ Call.register_connector (connector "a") mock
    ∷ Call.register_connector (connector "a") mock
    ∷ Call.register_connector (connector "b") mock
    ∷ Call.disable_connector "b"
    ∷ Call.invoke "a" "get" []
    ∷ Call.invoke "z" "get" []
    ∷ Call.unregister_connector "b"
    ∷ []

run_clean_example :
    IsPaired MockConnector mock_connector (run MockConnector mock_connector calls no_connectors)
    × ((raises_key_error MockConnector mock_connector
            (unregister_connector MockConnector mock_connector "a"
              (run MockConnector mock_connector calls no_connectors)).0
          ≡ false)
        × (raises_key_error MockConnector mock_connector
              (invoke MockConnector mock_connector "a" "get" []
                (run MockConnector mock_connector calls no_connectors)).0
            ≡ false))
unfolding lookup
run_clean_example =
    run_clean MockConnector mock_connector calls "a" "get" [] no_connectors (λ k. refl)
