-- ===== src/Controller/Taints.antt =====
-- internal/controller/kubernetes/controller.go: `desiredControlPlaneTaints`.
pub mod Laws
use dbaas.Prelude.{Bool, true, false, not, ◌&&◌, List, [], ◌∷◌, ◌++◌, if◌then◌else◌}
use dbaas.Prelude.Text.{Text, codes, ◌==◌}
use dbaas.Cluster.{Taint}

abbrev pub control_plane_no_schedule_taint_key : Text
control_plane_no_schedule_taint_key = codes "node-role.kubernetes.io/control-plane"

-- `corev1.TaintEffectNoSchedule`
abbrev pub no_schedule : Text
no_schedule = codes "NoSchedule"

-- The test of the loop: the taint that keeps regular pods off control-plane nodes.
unfoldable pub is_control_plane_taint : Taint → Bool
is_control_plane_taint t = t.key == control_plane_no_schedule_taint_key && t.effect == no_schedule

abbrev pub control_plane_taint : Taint
control_plane_taint = record {
  key = control_plane_no_schedule_taint_key;
  value = [];
  effect = no_schedule;
}

-- The variables of the loop.
pub record Scan : Type 0 where
  pub updated : List Taint
  pub changed : Bool
  pub found : Bool

-- One round of the loop.
unfoldable pub visit : Bool → Taint → Scan → Scan
visit allow_scheduling taint s =
    if is_control_plane_taint taint
    then (if allow_scheduling
        then record s { changed = true; found = true }
        else record s { updated = s.updated ++ taint ∷ []; found = true })
    else record s { updated = s.updated ++ taint ∷ [] }

unfoldable pub scan : Bool → List Taint → Scan → Scan
scan allow_scheduling [] s = s
scan allow_scheduling (taint ∷ taints) s =
    scan allow_scheduling taints (visit allow_scheduling taint s)

-- The new taints, and whether they differ from the old ones.
unfoldable pub desired_control_plane_taints : List Taint → Bool → List Taint × Bool
desired_control_plane_taints taints allow_scheduling =
    let s =
      scan allow_scheduling taints (record { updated = []; changed = false; found = false }) in
    if not allow_scheduling && not s.found
    then (s.updated ++ control_plane_taint ∷ [], true)
    else (s.updated, s.changed)
