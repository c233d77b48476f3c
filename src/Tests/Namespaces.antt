-- ===== src/Tests/Namespaces.antt =====
-- The namespace "ns" in the public cloud, with its management node and its manager of hubs.
use Prim.Native.String.{◌++◌}
use azure_event_hubs_go.Base.{ℕ, String, ◌≡◌, refl, none, some, List, [], ◌∷◌}
use azure_event_hubs_go.Go.{errors_new, ok, err, second}
use azure_event_hubs_go.Namespace.{Environment, get_amqp_host_uri}
use azure_event_hubs_go.Management.{
  Services, Client, HubPartitionRuntimeInformation, get_hub_partition_runtime_information,
}
use azure_event_hubs_go.Management.Asking.{get_hub_partition_runtime_information-asks}
use azure_event_hubs_go.Management.Http.{EntityManager, Web, Request}
use azure_event_hubs_go.Hub.Manager.{new_hub_manager_from_azure_environment}
use azure_event_hubs_go.Hub.Manager
use azure_event_hubs_go.Hub.Manager.{Documents, HubDescription}
use azure_event_hubs_go.Hub.Urls.{new_hub_manager-sends}

abbrev public_cloud : Environment
public_cloud = record { service_bus_endpoint_suffix = "servicebus.windows.net" }

-- URLs are texts; the world is the last request that was sent.
abbrev web : Web String String ℕ String (Request String String)
web = record {
  parse_url = λ s. ok s;
  add_query = λ key value u. u ++ "?" ++ key ++ "=" ++ value;
  url_string = λ u. u;
  get_token = λ provider audience w. (ok ("token for " ++ audience), w);
  do_request = λ q w. (ok 200, q);
  no_body = "";
}

abbrev documents : Documents ℕ String ℕ (Request String String)
documents = record {
  marshal = λ e. ok "<entry/>";
  unmarshal_entry = λ s. none;
  unmarshal_feed = λ s. none;
  unmarshal_error = λ s. none;
  decimal = λ n. "";
  header = "<?xml?>";
  reader = λ s. s;
  read_all = λ a w. (ok "", w);
  close_body = λ a w. w;
  status_code = λ a. a;
}

abbrev description : HubDescription ℕ
description = record { service_bus_schema = none; rest = 0 }

abbrev before : Request String String
before = record { method = ""; url = ""; headers = []; body = "" }

abbrev authorized : List (String × String)
authorized =
    ("Authorization", "token for https://ns.servicebus.windows.net/hub?api-version=2017-04") ∷ []

abbrev typed : List (String × String)
typed = ("content-Type", "application/atom+xml;type=entry;charset=utf-8") ∷ authorized

abbrev sent : String → List (String × String) → String → Request String String
sent method headers body = record {
  method = method;
  url = "https://ns.servicebus.windows.net/hub?api-version=2017-04";
  headers = headers;
  body = body;
}

new_hub_manager-sends_example :
    (em : EntityManager String) × (new_hub_manager_from_azure_environment "ns" "key" public_cloud
      ≡ ok em)
    × (Manager.delete documents web em "hub" before ≡ (ok tt, sent "DELETE" typed ""))
    × ((Manager.put documents web em "hub" description before).1
        ≡ sent "PUT" typed "<?xml?><entry/>")
    × ((Manager.get documents web em "hub" before).1 ≡ sent "GET" authorized "")
new_hub_manager-sends_example =
    new_hub_manager-sends documents web "ns" "hub" "key" public_cloud description "<entry/>"
      "token for https://ns.servicebus.windows.net/hub?api-version=2017-04"
      "https://ns.servicebus.windows.net/hub" before refl refl refl refl

-- The management node answers every request with its number of properties.
abbrev information : HubPartitionRuntimeInformation ℕ
information = record {
  hub_path = "hub";
  partition_id = "0";
  beginning_sequence_number = 3;
  last_sequence_number = 9;
  last_enqueued_offset = "120";
  last_enqueued_time_utc = 5;
}

abbrev node : Services ℕ ℕ ℕ ℕ ℕ String ℕ
node = record {
  new_link = λ k a w. (ok 1, w);
  retryable_rpc = λ r n d m w. (ok 6, w);
  get_token = λ p a w. (ok "token", w);
  as_map = λ m. some m;
  decode = λ v. err (errors_new "no information");
  decode_partition = λ v. ok information;
}

abbrev client : Client String
client = record {
  namespace = record {
    name = "ns";
    token_provider = some "key";
    host = "amqps://ns.servicebus.windows.net";
  };
  hub_name = "hub";
}

get_hub_partition_runtime_information-asks_example :
    (link : ℕ) × (token : String) × (res : ℕ) × (v : ℕ) × (w1 : ℕ) × (w2 : ℕ) × ((node.new_link 1
        "$management" 0)
      ≡ (ok link, w1))
    × ((node.get_token (some "key") (get_amqp_host_uri client.namespace ++ "hub") w1)
        ≡ (ok token, w2))
    × ((node.retryable_rpc link 3 second
          (("operation", "READ")
            ∷ ("type", "com.microsoft:partition")
            ∷ ("name", "hub")
            ∷ ("partition", "0")
            ∷ ("security_token", token)
            ∷ [])
          w2).0
        ≡ ok res)
    × (node.as_map res ≡ some v)
    × (node.decode_partition v ≡ ok information)
unfolding get_hub_partition_runtime_information
get_hub_partition_runtime_information-asks_example =
    get_hub_partition_runtime_information-asks node client 1 "0" 0 information refl
