-- ===== src/Webhook/Machine.antt =====
-- api/v1beta1/scalewaymachine_webhook.go
pub mod Laws
use cluster_api_provider_sca.Prelude.{
  String, Bool, true, false, ◌&&◌, not, Option, none, some, List, [], ◌∷◌, ◌==◌, option_eq, bool_eq,
  is_some, ℤ, pos, ltb_ℤ, eq_ℤ,
}
use cluster_api_provider_sca.Api.Machine.{ScalewayMachine, ScalewayMachineSpec}
use cluster_api_provider_sca.Webhook.Field.{
  Segment, child, FieldError, invalid, Admission, admitted, rejected, append_error, error_when,
  admission_of,
}
use cluster_api_provider_sca.Webhook.Immutable.{str_eq}

abbrev pub too_small : Option ℤ → Bool
too_small none = false
too_small (some n) = ltb_ℤ n (pos 5)

abbrev spec_error : String → Bool → String → Option FieldError
spec_error field wrong detail = error_when wrong (invalid (child "spec" ∷ child field ∷ []) detail)

-- `validate`
unfoldable pub validate : ScalewayMachine → Admission
validate m = admission_of "ScalewayMachine" m.meta.name (
    append_error []
      (spec_error "rootVolumeSize" (too_small m.spec.root_volume_size) "must be at least 5 GB"))

abbrev pub is_true : Option Bool → Bool
is_true none = false
is_true (some b) = b

unfoldable pub immutability_errors : ScalewayMachineSpec → ScalewayMachineSpec → List FieldError
immutability_errors m old =
    let provider_error =
      spec_error "providerID"
        (is_some old.provider_id && not (option_eq str_eq m.provider_id old.provider_id))
        "field is immutable" in
    let image_error = spec_error "image" (not (m.image == old.image)) "field is immutable" in
    let type_error = spec_error "type" (not (m.type == old.type)) "field is immutable" in
    let size_error =
      spec_error "rootVolumeSize" (not (option_eq eq_ℤ old.root_volume_size m.root_volume_size))
        "field is immutable" in
    let volume_error =
      spec_error "rootVolumeType" (not (option_eq str_eq old.root_volume_type m.root_volume_type))
        "field is immutable" in
    let ip_error =
      spec_error "publicIP"
        (is_some old.public_ip && not (option_eq bool_eq old.public_ip m.public_ip))
        "field is immutable" in
    let new_ip_error =
      spec_error "publicIP" (not (is_some old.public_ip) && is_true m.public_ip)
        "field can only be set to false" in
    let group_error =
      spec_error "securityGroupName"
        (not (option_eq str_eq old.security_group_name m.security_group_name))
        "field is immutable" in
    append_error
      (append_error
        (append_error
          (append_error
            (append_error
              (append_error (append_error (append_error [] provider_error) image_error) type_error)
              size_error)
            volume_error)
          ip_error)
        new_ip_error)
      group_error

-- `enforceImmutability`. The kind in its error is that of the cluster.
unfoldable pub enforce_immutability : ScalewayMachine → ScalewayMachine → Admission
enforce_immutability m old =
    admission_of "ScalewayCluster" m.meta.name (immutability_errors m.spec old.spec)

-- `ValidateCreate`
unfoldable pub validate_create : ScalewayMachine → Admission
unfolding validate
validate_create m = validate m

abbrev pub if_admitted : Admission → Admission → Admission
if_admitted admitted rest = rest
if_admitted (rejected k n errors) rest = rejected k n errors

-- `ValidateUpdate`
unfoldable pub validate_update : ScalewayMachine → ScalewayMachine → Admission
unfolding validate enforce_immutability
validate_update m old = if_admitted (enforce_immutability m old) (validate m)

-- `ValidateDelete`
unfoldable pub validate_delete : ScalewayMachine → Admission
validate_delete m = admitted
