-- ===== src/Controller.antt =====
-- internal/controller: the reconcilers of the two kinds of objects.
pub mod Secret
pub mod Finalizers
pub mod Cluster
pub mod Machine
