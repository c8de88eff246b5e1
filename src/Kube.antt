-- ===== src/Kube.antt =====
-- The Kubernetes types that the operator reads and writes (k8s.io/api, k8s.io/apimachinery). The
-- packages are not part of the repository: here stand the fields that its code names.
-- A Go pointer is an `Option`, a Go string type is `String`, a slice is a `List`.
pub mod Meta
pub mod Pod
pub mod Objects
pub mod Selectors
