-- ===== src/Tests/Proxy.antt =====
-- The mount proxy.
use dbaas.Prelude.{◌≡◌, refl, [], ◌∷◌, ◌++◌, none, some}
use dbaas.Prelude.Text.{
  Text, codes, slash, has_byte, trim_suffix, trim_prefix, has_prefix, split_n, cut, ◌==◌,
}
use dbaas.Prelude.Dict
use dbaas.Prelude.Dict.{lookup}
use dbaas.Exec.{Result, ok, ◌>>=◌}
use dbaas.Cluster.{Secret, secret}
use dbaas.Controller.Proxy.{
  parse_target, join_url_path, Target, Answer, forward, handler, serve_target, answer_of_secret,
  answer_of_kubeconfig, target_of_parts, kubeconfig_key,
}
use dbaas.Controller.Proxy.Laws.{
  parse_target_unprefixed, handler_mounts, handler_forward_sound, handler-IsServed, IsServed,
}
use dbaas.Controller.Reconcile.{mount_url}
use dbaas.Controller.Reconcile.Routes.{mount_url_routes}
use dbaas.Tests.Memory.{Memory, found}
use dbaas.Tests.Fixtures.{config, host_url, server, stored, kubeconfig}

abbrev the_target : Target
the_target = record { namespace = codes "n"; name = codes "k"; upstream_path = codes "/api" }

parse_target_unprefixed_example :
    parse_target (codes "/k/api")
    ≡ some (record the_target { namespace = []; upstream_path = codes "/api" })
unfolding has_byte has_prefix
parse_target_unprefixed_example = parse_target_unprefixed (codes "k") (codes "api") refl refl

mount_url_routes_example :
    (path : Text) × (mount_url (codes "http://p/") (codes "n") (codes "k")
      ≡ trim_suffix (codes "http://p/") slash ++ path)
    × (parse_target path ≡ none)
    × (parse_target (path ++ slash ∷ codes "api") ≡ some the_target)
unfolding has_byte
mount_url_routes_example =
    mount_url_routes (codes "http://p/") (codes "n") (codes "k") (codes "api") refl refl

abbrev serve : Text → Memory → Result Answer × Memory
serve = handler (λ t. ok (config t)) (λ t. ok (host_url t)) (λ cfg. ok tt) server

abbrev the_answer : Answer
the_answer =
    forward (config (codes "h"))
      (record { scheme = codes "https"; host = codes "h"; path = codes "/api" })

handler_mounts_example : serve (codes "/mounts/n/k/api") stored ≡ (ok the_answer, stored)
unfolding has_byte found Dict.read lookup ◌==◌ trim_suffix
handler_mounts_example =
    handler_mounts (λ t. ok (config t)) (λ t. ok (host_url t)) (λ cfg. ok tt) server (codes "n")
      (codes "k") (codes "api") stored kubeconfig (config (codes "h")) (host_url (codes "h")) refl
      refl refl (λ e. cc) refl refl refl

handler_forward_sound_example :
    (t : Target) × (s : Secret) × (parse_target (codes "/mounts/n/k/api") ≡ some t)
    × ((server.get secret (kubeconfig_key t.namespace t.name) stored).0 ≡ ok s)
    × (ok (config (Dict.read (codes "value") s.value)) ≡ ok (config (codes "h")))
unfolding handler serve_target answer_of_secret answer_of_kubeconfig parse_target target_of_parts
    split_n cut trim_prefix has_byte found Dict.read lookup ◌==◌ ◌>>=◌ join_url_path
handler_forward_sound_example =
    handler_forward_sound (λ t. ok (config t)) (λ t. ok (host_url t)) (λ cfg. ok tt) server
      (codes "/mounts/n/k/api") stored (config (codes "h")) _ refl

handler-IsServed_example : IsServed (serve (codes "/mounts/n/k/api") stored).0
unfolding parse_target split_n trim_prefix
handler-IsServed_example =
    handler-IsServed (λ t. ok (config t)) (λ t. ok (host_url t)) (λ cfg. ok tt) server
      (codes "/mounts/n/k/api") stored (λ e. cc)
