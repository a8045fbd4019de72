-- ===== src/Tests/Pure.antt =====
-- The taints and the names.
use dbaas.Prelude.{◌≡◌, true, false, List, [], ◌∷◌}
use dbaas.Prelude.Text.{Text, codes}
use dbaas.Cluster.{Taint}
use dbaas.Controller.Taints.{desired_control_plane_taints, control_plane_taint}
use dbaas.Controller.Taints.Laws.{is_tainted, others, desired_control_plane_taints_correct}

abbrev other_taint : Taint
other_taint = record { key = codes "gpu"; value = []; effect = codes "NoSchedule" }

abbrev taints : List Taint
taints = other_taint ∷ control_plane_taint ∷ []

desired_control_plane_taints_correct_example :
    (is_tainted (desired_control_plane_taints taints true).0 ≡ false)
    × (others (desired_control_plane_taints taints true).0 ≡ others taints)
desired_control_plane_taints_correct_example = desired_control_plane_taints_correct taints true

abbrev fake_sha1 : Text → Text
fake_sha1 s = 171 ∷ 205 ∷ []
