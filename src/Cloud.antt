-- ===== src/Cloud.antt =====
-- All that the program asks of the outside: the Scaleway APIs and Kubernetes. Every call of a
-- library that reaches one of them is a request, and its answer, or its error, is the outside's.
pub mod Instance
pub mod Balancer
pub mod Network
pub mod Kube
use cluster_api_provider_sca.Prelude.{Bool}
use cluster_api_provider_sca.Result.{Result}
use Instance.{InstanceRequest, InstanceAnswer, reads_instance}
use Balancer.{BalancerRequest, BalancerAnswer, reads_balancer}
use Network.{NetworkRequest, NetworkAnswer, reads_network}
use Kube.{KubeRequest, KubeAnswer, reads_kube}

pub data Request : Type 0 where
  instance_api : InstanceRequest → Request
  balancer_api : BalancerRequest → Request
  network_api : NetworkRequest → Request
  kube_api : KubeRequest → Request

abbrev pub Answer : Request → Type 0
Answer (instance_api q) = InstanceAnswer q
Answer (balancer_api q) = BalancerAnswer q
Answer (network_api q) = NetworkAnswer q
Answer (kube_api q) = KubeAnswer q

abbrev pub Reply : Request → Type 0
Reply q = Result (Answer q)

-- The calls that change nothing outside.
abbrev pub reads : Request → Bool
reads (instance_api q) = reads_instance q
reads (balancer_api q) = reads_balancer q
reads (network_api q) = reads_network q
reads (kube_api q) = reads_kube q
