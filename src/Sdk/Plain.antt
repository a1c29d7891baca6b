-- ===== src/Sdk/Plain.antt =====
-- Library functions that return or fail, and do not panic.
use cluster_api_provider_sca.Prelude.{String}
use cluster_api_provider_sca.Prog.Runs.{Meets, AnyError, Any}
use cluster_api_provider_sca.Sdk.{Sdk}

-- `net.ParseCIDR`, `netip.ParseAddr`, the parsers of the SDK, and the methods of a template.
pub record IsPlain (sdk : Sdk) : Type 0 where
  pub region : (text : String) → Meets AnyError Any (sdk.parse_region text)
  pub zone : (text : String) → Meets AnyError Any (sdk.parse_zone text)
  pub region_of : (zone : String) → Meets AnyError Any (sdk.zone_region zone)
  pub cidr : (text : String) → Meets AnyError Any (sdk.parse_cidr text)
  pub addr : (text : String) → Meets AnyError Any (sdk.parse_addr_is4 text)
  pub template : (text : String) → Meets AnyError Any (sdk.parse_template text)
  pub execute :
      (template node provider : String)
      → Meets AnyError Any (sdk.execute_template template node provider)
