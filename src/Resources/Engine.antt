-- ===== src/Resources/Engine.antt =====
-- internal/resources/engine.go
use karkive.Prelude.{
  ℤ, pos, String, Bool, not, ◌&&◌, [], ◌∷◌, ◌==◌, contains, is_positive, if◌then◌else◌,
}
use karkive.Api.Common.{
  Engine, engine_postgres, engine_mariadb, engine_redis, engine_pvc, DatabaseSpec,
}

unfoldable pub effective_engine : Engine → Engine
effective_engine engine = if engine == "" then engine_postgres else engine

unfoldable pub engine_implemented : Engine → Bool
engine_implemented engine =
    contains (engine_postgres ∷ engine_mariadb ∷ engine_redis ∷ engine_pvc ∷ [])
      (effective_engine engine)

unfoldable pub restore_engine_implemented : Engine → Bool
restore_engine_implemented engine =
    engine_implemented engine && not (effective_engine engine == engine_pvc)

unfoldable pub dump_prefix : Engine → String
dump_prefix engine =
    let e = effective_engine engine in
    if e == engine_mariadb
    then "mysqldump"
    else if e == engine_redis
    then "redisdump"
    else if e == engine_pvc
    then "pvcdump"
    else "pg_dump"

unfoldable pub default_port : Engine → ℤ
default_port engine =
    let e = effective_engine engine in
    if e == engine_mariadb then pos 3306 else if e == engine_redis then pos 6379 else pos 5432

unfoldable pub database_port : DatabaseSpec → Engine → ℤ
database_port db engine = if is_positive db.port then db.port else default_port engine
