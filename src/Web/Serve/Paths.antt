-- ===== src/Web/Serve/Paths.antt =====
-- The routes of the links and the forms of the index page.
use dbaas.Prelude.{ℕ, false, [], ◌∷◌, ◌++◌, some, ◌≡◌, ◌≢◌, refl, arith}
use dbaas.Prelude.Text.{Text, codes, slash, split, split_parts, has_byte, ◌==◌}
use dbaas.Web.Serve.{
  to_kubeconfig, to_delete, workspace_segments, get_below, get_route, post_below, post_route, route,
  is_get,
}

split_parts-append :
    (c : ℕ) (p s : Text) → has_byte c p ≡ false → split_parts (p ++ c ∷ s) c ≡ (p, split s c)
unfolding split split_parts has_byte
split_parts-append c [] s h = ground arith
split_parts-append c (x ∷ p) s h = ground (arith, split_parts-append c p s)

split_parts-none : (c : ℕ) (p : Text) → has_byte c p ≡ false → split_parts p c ≡ (p, [])
unfolding split_parts has_byte
split_parts-none c [] h = refl
split_parts-none c (x ∷ p) h = ground (arith, split_parts-none c p)

-- The path of an action on a workspace.
abbrev action_path : Text → Text → Text
action_path name action = codes "/api/workspaces/" ++ (name ++ slash ∷ action)

segments-action_path :
    (name action : Text)
    → has_byte slash name ≡ false
    → has_byte slash action ≡ false
    → workspace_segments (split (action_path name action) slash) ≡ some (name, action)
unfolding workspace_segments split split_parts ◌==◌
segments-action_path name action h k =
    rw (split_parts-append slash name action h, split, split_parts-none slash action k) refl

-- For a name that has no slash and is not empty, `.` or `..`, the download link and the delete
-- form of the index page reach the two handlers with that name.
pub route-links :
    (name : Text)
    → has_byte slash name ≡ false
    → name ≢ []
    → name ≢ codes "."
    → name ≢ codes ".."
    → (route (codes "GET") (codes "/api/workspaces/" ++ (name ++ codes "/kubeconfig"))
        ≡ to_kubeconfig name)
      × (route (codes "POST") (codes "/api/workspaces/" ++ (name ++ codes "/delete"))
          ≡ to_delete name)
unfolding route get_route post_route is_get get_below post_below has_byte ◌==◌
route-links name h _ _ _ = (
  rw (segments-action_path name (codes "kubeconfig") h refl) refl,
  rw (segments-action_path name (codes "delete") h refl) refl,
)
