-- ===== src/Scope/Cluster/Laws.antt =====
-- Which failure domains a cluster gets.
use cluster_api_provider_sca.Prelude.{
  ◌≡◌, refl, ap, String, true, ◌&&◌, ◌||◌, List, [], ◌∷◌, ◌==◌, arith, eq_iff,
}
use cluster_api_provider_sca.Sdk.{Sdk}
use cluster_api_provider_sca.Api.Cluster.{ScalewayCluster}
use cluster_api_provider_sca.Scope.Cluster.{
  contains, is_empty, zones, add_key, add_matching, add_domains, failure_domains,
}

contains-same :
    (k z : String) (keys : List String) → k ≡ z → contains keys k ≡ true → contains keys z ≡ true
contains-same k z keys same held = rw⁻¹ same held

add_key-contains :
    (k : String) (keys : List String) (z : String)
    → contains (add_key k keys) z ≡ (k == z) || contains keys z
unfolding add_key
add_key-contains k keys z = let e = eq_iff k z in let c = contains-same k z keys in ground arith

add_matching-contains :
    (zone : String) (fds keys : List String) (z : String)
    → contains (add_matching zone fds keys) z
      ≡ (contains fds zone && (zone == z)) || contains keys z
unfolding add_matching
add_matching-contains zone [] keys z = refl
add_matching-contains zone (fd ∷ fds) keys z =
    let a = add_key-contains zone keys z in
    ground (
      arith,
      a,
      add_matching-contains zone fds keys z,
      add_matching-contains zone fds (add_key zone keys) z,
    )

add_domains-contains :
    (fds zs keys : List String) (z : String)
    → contains (add_domains fds zs keys) z
      ≡ (contains zs z && (is_empty fds || contains fds z)) || contains keys z
unfolding add_domains
add_domains-contains fds [] keys z = refl
add_domains-contains fds (zone ∷ zs) keys z =
    let one = add_key-contains zone keys z in
    let two = add_matching-contains zone fds keys z in
    let e = eq_iff zone z in
    let same : (zone ≡ z → contains fds zone ≡ contains fds z) = ap (contains fds) in
    ground (
      arith,
      one,
      two,
      e,
      same,
      add_domains-contains fds zs (add_key zone keys) z,
      add_domains-contains fds zs (add_matching zone fds keys) z,
    )

-- The failure domains of a cluster are the zones of its region that its list of failure domains
-- names, or all of them where it names none.
pub failure_domains-contains :
    (sdk : Sdk) (c : ScalewayCluster) (z : String)
    → contains (failure_domains sdk c) z
      ≡ contains (zones sdk c []) z
        && (is_empty c.spec.failure_domains || contains c.spec.failure_domains z)
unfolding failure_domains
failure_domains-contains sdk c z =
    let whole = add_domains-contains c.spec.failure_domains (zones sdk c []) [] z in ground arith
