-- ===== src/Tests/Lists.antt =====
-- Tests of include/list.h.
use arm64os.Common.{ℕ, refl, List, [], ◌∷◌}
use arm64os.ListHead.Ring.{IsRing}
use arm64os.Kernel.{run_list}
use arm64os.Tests.{two_nodes, first, second}

abbrev queued : List ℕ
queued = run_list second ∷ run_list first ∷ []

pub two_nodes-IsRing : IsRing two_nodes 1000 queued
two_nodes-IsRing = record {
  chain = (refl, refl, (refl, refl, (refl, refl)));
  distinct = (refl, (refl, tt));
  head_out = refl;
}
