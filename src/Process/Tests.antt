-- ===== src/Process/Tests.antt =====
-- The start at a sample environment, in which the Register call fails.
use karkive.Prelude.{ℕ, suc, true}
use karkive.Errors.{Result, ok, err, plain}
use karkive.Process.{Flags, Step, default_flags, main}
use karkive.Process.Start.{RunsInOrder, start_order, main-InOrder}

abbrev run : Step → ℕ → Result (Unit {0}) × ℕ
run Step.register_metrics w = (err (plain "duplicate"), w)
run _ w = (ok tt, suc w)

abbrev flags : Flags
flags = record default_flags { enable_webhooks = true }

main-InOrder_example : RunsInOrder run (start_order flags "db") 0 (main run flags "db" 0)
main-InOrder_example = main-InOrder run flags "db" 0
