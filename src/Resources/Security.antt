-- ===== src/Resources/Security.antt =====
-- internal/resources/security.go
pub mod Privileges
use karkive.Prelude.{
  ℤ, pos, true, false, not, Option, none, some, [], ◌∷◌, int_eq, deref, ◌==◌, if◌then◌else◌,
}
use karkive.Kube.Pod.{SecurityContext, PodSecurityContext}
use karkive.Api.Common.{Engine, engine_mariadb, engine_redis}
use karkive.Api.Backup.{PvcSourceSpec}
use karkive.Resources.Engine.{effective_engine}

abbrev pub postgres_uid : ℤ
postgres_uid = pos 26

abbrev pub mariadb_uid : ℤ
mariadb_uid = pos 999

abbrev pub redis_uid : ℤ
redis_uid = pos 999

abbrev pub mc_uid : ℤ
mc_uid = pos 1000

abbrev pub tools_uid : ℤ
tools_uid = pos 65532

unfoldable pub pod_security_context : PodSecurityContext
pod_security_context = record {
  fs_group = some postgres_uid;
  fs_group_change_policy = some "OnRootMismatch";
}

unfoldable pub unix_user_security_context : ℤ → SecurityContext
unix_user_security_context uid = record {
  allow_privilege_escalation = some false;
  capabilities = some (record { add = []; drop = "ALL" ∷ [] });
  privileged = some false;
  read_only_root_filesystem = some true;
  run_as_group = some uid;
  run_as_non_root = some true;
  run_as_user = some uid;
  seccomp_profile = some "RuntimeDefault";
}

unfoldable pub postgres_security_context : SecurityContext
unfolding unix_user_security_context
postgres_security_context = unix_user_security_context postgres_uid

unfoldable pub mariadb_security_context : SecurityContext
unfolding unix_user_security_context
mariadb_security_context = unix_user_security_context mariadb_uid

unfoldable pub redis_security_context : SecurityContext
unfolding unix_user_security_context
redis_security_context = unix_user_security_context redis_uid

unfoldable pub mc_security_context : SecurityContext
unfolding unix_user_security_context
mc_security_context = unix_user_security_context mc_uid

unfoldable pub tools_security_context : SecurityContext
unfolding unix_user_security_context
tools_security_context = unix_user_security_context tools_uid

-- src != nil && src.RunAsUser != nil
unfoldable pub source_uid : Option PvcSourceSpec → ℤ
source_uid none = pos 0
source_uid (some src) = deref src.run_as_user (pos 0)

unfoldable pub source_gid : Option PvcSourceSpec → ℤ
unfolding source_uid
source_gid none = pos 0
source_gid (some src) = deref src.run_as_group (source_uid (some src))

unfoldable pub pvc_dump_security_context : Option PvcSourceSpec → SecurityContext
unfolding unix_user_security_context source_uid source_gid
pvc_dump_security_context src =
    let uid = source_uid src in
    let gid = source_gid src in
    let user = unix_user_security_context uid in
    if not (int_eq uid (pos 0)) then record user { run_as_group = some gid } else record {
      allow_privilege_escalation = some false;
      capabilities = some (record { add = "DAC_OVERRIDE" ∷ []; drop = "ALL" ∷ [] });
      privileged = some false;
      read_only_root_filesystem = some true;
      run_as_group = some gid;
      run_as_non_root = some false;
      run_as_user = some (pos 0);
      seccomp_profile = some "RuntimeDefault";
    }

unfoldable pub dump_security_context : Engine → SecurityContext
unfolding postgres_security_context mariadb_security_context redis_security_context
dump_security_context engine =
    let e = effective_engine engine in
    if e == engine_mariadb
    then mariadb_security_context
    else if e == engine_redis
    then redis_security_context
    else postgres_security_context
