-- ===== src/Yum/Tests.antt =====
-- The theorem of this folder on a name that is no system.
use xbench_community.Yum.{new_yum}
use xbench_community.Yum.Total.{Outcome, new_yum-Outcome}

new_yum_example : Outcome "Rocky8" (new_yum "Rocky8")
new_yum_example = new_yum-Outcome "Rocky8"
