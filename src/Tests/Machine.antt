-- ===== src/Tests/Machine.antt =====
-- A machine for the runs: each allocation has a page of its own, and time stands still.
use memcached4chaos.Base.{◌+◌, ◌*◌, true}
use memcached4chaos.System.{Env}

abbrev pub machine : Env
machine = record {
  malloc = λ n size. 4096 * (n + 1);
  time = λ n. 1000;
  expansion = λ n. (true, true);
}
