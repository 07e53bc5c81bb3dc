-- ===== src/NpuCoreMask.antt =====
-- `NpuCoreMask` of include/infer_server/inference/model_manager.h: the cores that a worker uses.
pub mod Bounds
mod Tests
use infer_server.Base.{
  ℕ, Bool, List, [], ◌∷◌, Option, none, some, ◌||◌, not, if◌then◌else◌, get_elem?,
}
use infer_server.Base.Int.{ℤ, pos, pos_part, ltb_ℤ}

-- `RKNN_NPU_CORE_AUTO`
abbrev pub auto : ℕ
auto = 0

-- `CORE_0`, `CORE_1`, `CORE_2`
abbrev pub cores : List ℕ
cores = 1 ∷ 2 ∷ 4 ∷ []

-- An index out of the bounds of `CORES` is `none`: the code reads beyond the array. The cap of
-- `num_cores` at 3 has no effect on what is returned.
unfoldable pub from_worker_id : ℤ → ℤ → Option ℕ
from_worker_id worker_id num_cores =
    if not (ltb_ℤ (pos 0) num_cores) || ltb_ℤ worker_id (pos 0) || not (ltb_ℤ worker_id num_cores)
    then some auto
    else get_elem? cores (pos_part worker_id)
