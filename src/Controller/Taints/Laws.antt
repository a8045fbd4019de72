-- ===== src/Controller/Taints/Laws.antt =====
-- What `desiredControlPlaneTaints` returns, against filters over the whole list.
use dbaas.Prelude.{
  Bool, true, false, not, ◌||◌, List, [], ◌∷◌, ◌++◌, if◌then◌else◌, ◌≡◌, refl, arith, append-nil,
  append_assoc, Bool-cases, inl, inr,
}
use dbaas.Prelude.Text.{eq_refl}
use dbaas.Cluster.{Taint}
use dbaas.Controller.Taints.{
  is_control_plane_taint, control_plane_taint, Scan, visit, scan, desired_control_plane_taints,
}

-- Whether regular pods are kept off the node.
pub is_tainted : List Taint → Bool
is_tainted [] = false
is_tainted (t ∷ ts) = is_control_plane_taint t || is_tainted ts

-- The taints that are not the controller's business.
pub others : List Taint → List Taint
others [] = []
others (t ∷ ts) = let rest = others ts in if is_control_plane_taint t then rest else t ∷ rest

control_plane_taint-lem : is_control_plane_taint control_plane_taint ≡ true
unfolding is_control_plane_taint
control_plane_taint-lem = simp eq_refl

is_tainted-append : (xs ys : List Taint) → is_tainted (xs ++ ys) ≡ (is_tainted xs || is_tainted ys)
unfolding is_tainted
is_tainted-append [] ys = refl
is_tainted-append (x ∷ xs) ys = ground (arith, is_tainted-append xs ys)

others-append : (xs ys : List Taint) → others (xs ++ ys) ≡ others xs ++ others ys
unfolding others
others-append [] ys = refl
others-append (x ∷ xs) ys = ground (arith, others-append xs ys)

is_tainted-others : (ts : List Taint) → is_tainted (others ts) ≡ false
unfolding is_tainted others
is_tainted-others [] = refl
is_tainted-others (t ∷ ts) = ground (arith, is_tainted-others ts)

others-others : (ts : List Taint) → others (others ts) ≡ others ts
unfolding others
others-others [] = refl
others-others (t ∷ ts) = ground (arith, others-others ts)

others_of_untainted : (ts : List Taint) → is_tainted ts ≡ false → others ts ≡ ts
unfolding is_tainted others
others_of_untainted [] h = refl
others_of_untainted (t ∷ ts) h = ground (arith, others_of_untainted ts)

-- The loop with scheduling allowed drops the taint.
scan_allowed :
    (ts : List Taint) (s : Scan)
    → scan true ts s ≡ record {
      updated = s.updated ++ others ts;
      changed = s.changed || is_tainted ts;
      found = s.found || is_tainted ts;
    }
unfolding scan visit others is_tainted
scan_allowed [] s = ground (arith, append-nil s.updated)
scan_allowed (t ∷ ts) s =
    ground (arith, scan_allowed ts (visit true t s), append_assoc s.updated (t ∷ []) (others ts))

-- The loop with scheduling forbidden copies the list.
scan_forbidden :
    (ts : List Taint) (s : Scan)
    → scan false ts s
      ≡ record { updated = s.updated ++ ts; changed = s.changed; found = s.found || is_tainted ts }
unfolding scan visit is_tainted
scan_forbidden [] s = ground (arith, append-nil s.updated)
scan_forbidden (t ∷ ts) s =
    ground (arith, scan_forbidden ts (visit false t s), append_assoc s.updated (t ∷ []) ts)

desired_allowed :
    (ts : List Taint) → desired_control_plane_taints ts true ≡ (others ts, is_tainted ts)
unfolding desired_control_plane_taints
desired_allowed ts = rw (scan_allowed ts _)

desired_forbidden :
    (ts : List Taint)
    → desired_control_plane_taints ts false
      ≡ (if is_tainted ts then (ts, false) else (ts ++ control_plane_taint ∷ [], true))
unfolding desired_control_plane_taints
desired_forbidden ts = rw (scan_forbidden ts _) (ground arith)

ruleset desired_laws = (
  desired_allowed, desired_forbidden, is_tainted-append, is_tainted-others, others-append,
  others-others,
)

-- Afterwards the node has the control-plane NoSchedule taint exactly if scheduling is not allowed,
-- and all other taints are as they were, in their order.
pub desired_control_plane_taints_correct :
    (ts : List Taint) (allow : Bool)
    → (is_tainted (desired_control_plane_taints ts allow).0 ≡ not allow)
      × (others (desired_control_plane_taints ts allow).0 ≡ others ts)
unfolding is_tainted others
desired_control_plane_taints_correct ts true =
    rw desired_allowed (is_tainted-others ts, others-others ts)
desired_control_plane_taints_correct ts false =
    rw desired_forbidden (elim (Bool-cases (is_tainted ts)) [
      | inl h ↦ rw h (h, refl)
      | inr h ↦
          rw (h, is_tainted-append, others-append, control_plane_taint-lem, append-nil)
            (ground arith, refl)
    ])

-- A change is reported exactly if the node has the taint and may not, or lacks it and must have
-- it.
pub changed_exact :
    (ts : List Taint) (allow : Bool)
    → (desired_control_plane_taints ts allow).1
      ≡ (if allow then is_tainted ts else not (is_tainted ts))
changed_exact ts true = rw desired_allowed refl
changed_exact ts false = rw desired_forbidden (ground arith)

-- Where no change is reported, the list is the old one.
pub unchanged_same :
    (ts : List Taint) (allow : Bool)
    → (desired_control_plane_taints ts allow).1 ≡ false
    → (desired_control_plane_taints ts allow).0 ≡ ts
unchanged_same ts true = rw desired_allowed (others_of_untainted ts)
unchanged_same ts false = rw desired_forbidden (ground arith)

-- A second run over the result changes nothing.
pub desired_idempotent :
    (ts : List Taint) (allow : Bool)
    → desired_control_plane_taints (desired_control_plane_taints ts allow).0 allow
      ≡ ((desired_control_plane_taints ts allow).0, false)
desired_idempotent ts true = simp (desired_allowed, others-others, is_tainted-others)
desired_idempotent ts false = rw (
  desired_forbidden (desired_control_plane_taints ts false).0,
  (desired_control_plane_taints_correct ts false).0,
)
