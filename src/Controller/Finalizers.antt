-- ===== src/Controller/Finalizers.antt =====
-- `controllerutil.AddFinalizer` and `RemoveFinalizer`, as the controllers use them: a finalizer is
-- added once, and every copy of it is removed.
use cluster_api_provider_sca.Prelude.{String, Bool, [], ◌∷◌, ◌++◌, ◌==◌, contains_func, select, not}
use cluster_api_provider_sca.Api.Cluster.{ObjectMeta}

abbrev pub has_finalizer : String → ObjectMeta → Bool
has_finalizer f meta = contains_func (λ g. g == f) meta.finalizers

abbrev pub add_finalizer : String → ObjectMeta → ObjectMeta
add_finalizer f meta = record meta { finalizers = meta.finalizers ++ f ∷ [] }

abbrev pub remove_finalizer : String → ObjectMeta → ObjectMeta
remove_finalizer f meta = record meta { finalizers = select (λ g. not (g == f)) meta.finalizers }
