-- ===== src/Webhook/Field.antt =====
-- Errors of fields, and what an admission answers, as Kubernetes' field and errors packages have
-- them. A path is the list of its segments.
use cluster_api_provider_sca.Prelude.{
  ℕ, String, Bool, true, false, List, [], ◌∷◌, ◌++◌, Option, none, some,
}

pub data Segment : Type 0 where
  child : String → Segment
  index : ℕ → Segment

-- The text is the detail of the error.
pub data FieldError : Type 0 where
  invalid : List Segment → String → FieldError
  duplicate : List Segment → FieldError

-- `apierrors.NewInvalid`, with the kind and the name of the object.
pub data Admission : Type 0 where
  admitted : Admission
  rejected : (kind name : String) (errors : List FieldError) → Admission

-- `if err := f(); err != nil { allErrs = append(allErrs, err) }`
abbrev pub append_error : List FieldError → Option FieldError → List FieldError
append_error errors none = errors
append_error errors (some e) = errors ++ e ∷ []

abbrev pub error_when : Bool → FieldError → Option FieldError
error_when true e = some e
error_when false e = none

-- `if allErrs == nil { return nil }`
abbrev pub admission_of : String → String → List FieldError → Admission
admission_of kind name [] = admitted
admission_of kind name (e ∷ errors) = rejected kind name (e ∷ errors)
