-- ===== src/Api.antt =====
-- api/v1alpha1: the custom resources of the operator.
pub mod K8sgpt
pub mod Result
pub mod Mutation
