-- ===== src/Tests/Fixtures.antt =====
-- A cluster, a machine, the libraries, and an outside that answers nothing.
use cluster_api_provider_sca.Prelude.{◌==◌, true, false, none, some, [], ◌∷◌, if◌then◌else◌}
use cluster_api_provider_sca.Result.{Error, other, ok, err}
use cluster_api_provider_sca.Sdk.{Sdk}
use cluster_api_provider_sca.Cloud.{Request, Reply}
use cluster_api_provider_sca.Cloud.Instance.{Server, stopped}
use cluster_api_provider_sca.Client.{Client}
use cluster_api_provider_sca.Api.Cluster.{
  ScalewayCluster, ObjectMeta, PublicGatewaySpec, NetworkSpec,
}
use cluster_api_provider_sca.Scope.Cluster.{Scope}
use cluster_api_provider_sca.Scope.Machine.{MachineScope}

abbrev pub unavailable : Error
unavailable = other "unavailable"

abbrev pub silent : (q : Request) → Reply q
silent q = err unavailable

-- One region with one zone, and one canonical range.
abbrev pub libraries : Sdk
libraries = record {
  get_zones = λ region. "fr-par-1" ∷ [];
  instance_zones = "fr-par-1" ∷ [];
  gateway_zones = "fr-par-1" ∷ [];
  parse_region = λ region. if region == "fr-par" then ok region else err unavailable;
  parse_zone = λ zone. if zone == "fr-par-1" then ok zone else err unavailable;
  zone_region = λ zone. if zone == "fr-par-1" then ok "fr-par" else err unavailable;
  parse_cidr = λ range. ok "0.0.0.0/0";
  parse_addr_is4 = λ address. ok (address == "10.0.0.1");
  uuid_is_valid = λ id. true;
  parse_template = λ text. ok text;
  execute_template = λ text node provider. ok text;
  gigabyte = 1000000000;
  is_paused = λ owner meta. false;
}

abbrev pub meta : ObjectMeta
meta = record {
  name = "test";
  namespace = "default";
  uid = "1";
  finalizers = [];
  annotations = [];
  deleting = false;
}

abbrev pub gateway_spec : PublicGatewaySpec
gateway_spec = record { enabled = true; id = some "gw"; type = none; ip = none; zone = none }

abbrev pub network_with : PublicGatewaySpec → NetworkSpec
network_with g = record {
  private_network = some (record { enabled = true; id = none; subnet = none });
  public_gateway = some g;
  security_groups = [];
}

abbrev pub cluster_with : PublicGatewaySpec → ScalewayCluster
cluster_with g = record {
  meta = meta;
  spec = record {
    control_plane_endpoint = record { host = ""; port = 0 };
    failure_domains = "fr-par-1" ∷ [];
    region = "fr-par";
    network = some (network_with g);
    control_plane_load_balancer = none;
    scaleway_secret_name = "secret";
  };
  status = record {
    ready = false;
    failure_domains = [];
    network = some (record { private_network_id = some "pn"; public_gateway_id = none });
  };
}

abbrev pub cluster : ScalewayCluster
cluster = cluster_with gateway_spec

abbrev pub client : Client
client = record { project_id = "project" }

abbrev pub scope : Scope
scope = record { client = client; cluster = cluster }

abbrev pub machine : MachineScope
machine = record {
  client = client;
  cluster = cluster;
  owner = record { meta = meta; infrastructure_ref = some "test"; infrastructure_ready = false };
  scaleway_machine = record {
    meta = meta;
    spec = record {
      provider_id = none;
      image = "ubuntu";
      type = "DEV1-S";
      root_volume_size = none;
      root_volume_type = none;
      public_ip = none;
      security_group_name = none;
    };
    status = record { ready = false; addresses = [] };
  };
  machine = record {
    meta = meta;
    control_plane = true;
    failure_domain = none;
    data_secret_name = some "data";
  };
}

abbrev pub server : Server
server = record {
  id = "server";
  name = "caps-test";
  zone = "fr-par-1";
  state = stopped;
  public_ip = some (record { id = "ip"; address = "1.2.3.4"; dynamic = false });
  volumes = ("0", record { id = "volume"; boot = true }) ∷ [];
}
