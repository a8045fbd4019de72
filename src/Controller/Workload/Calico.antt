-- ===== src/Controller/Workload/Calico.antt =====
-- The requests of `ensureCalicoInstalled` to a workload cluster, whatever the servers answer.
use dbaas.Prelude.{
  true, false, if◌then◌else◌, none, some, List, [], ◌∷◌, ◌++◌, ◌≡◌, ◌∙◌, refl, ap, append_assoc,
  append-nil, sym,
}
use dbaas.Prelude.Text.{Text, codes, ◌==◌}
use mathlib.Core.Path.{subst}
use dbaas.Prelude.Dict
use dbaas.Exec.{Result, ok, err, lift}
use dbaas.Exec.Ensures.{
  Ensures, Ensures-bind, Ensures-if, Ensures-pure, Ensures-raise, Ensures-or_wrap, Ensures-lift,
  Ensures-Keeps, Ensures-given,
}
use dbaas.Cluster.{
  RestConfig, Document, Mapping, Apply, Server, ConfigMap, Secret, secret, config_map, remote,
}
use dbaas.Cluster.Calls.{Call, apply_call, Oracle, traced, get_call, mapping_call}
use dbaas.Controller.Env.{Packages}
use dbaas.Controller.Workload.{
  apply_request, apply_document, apply_documents, workload_rest_config, ensure_calico_installed,
  calico_manifest, management_key,
}
use dbaas.Controller.Proxy.{kubeconfig_key}
use dbaas.Exec.Keeps.{Keeps-lift}

-- What was applied, in the order of the requests.
unfoldable pub applied : List Call → List Apply
applied [] = []
applied (apply_call a ∷ older) = applied older ++ (a ∷ [])
applied (c ∷ older) = applied older

abbrev pub calico_call : Call
calico_call = get_call config_map (management_key (codes "default") (codes "dbaas-calico"))

module _ (P : Packages) (new_client : RestConfig → Result (Unit {0})) (oracle : Oracle) where
  abbrev T : Server (List Call)
  T = traced new_client oracle

  -- The workload cluster answered that the document's kind is this.
  abbrev pub IsMapped : RestConfig → Document → Mapping → Type 0
  IsMapped cfg d m =
      (older : List Call) × (oracle older (mapping_call (remote cfg) d.group_version_kind) ≡ ok m)

  -- One request for each document that is not empty, in the order of the documents, and none for an
  -- empty one; the whole stream could be decoded.
  pub data Installs (cfg : RestConfig) : List (Result Document) → List Apply → Type 0 where
    nothing_left : Installs cfg [] []
    skipping :
        (d : Document) (ds : List (Result Document)) (rest : List Apply)
        → d.is_empty ≡ true
        → Installs cfg ds rest
        → Installs cfg (ok d ∷ ds) rest
    applying :
        (d : Document) (ds : List (Result Document)) (rest : List Apply) (m : Mapping) (body : Text)
        → d.is_empty ≡ false
        → IsMapped cfg d m
        → d.body ≡ ok body
        → Installs cfg ds rest
        → Installs cfg (ok d ∷ ds) (
            record {
              endpoint = remote cfg;
              resource = m.resource;
              namespace = if m.namespaced then some d.namespace else none;
              name = d.name;
              body = body;
            }
            ∷ rest)

  module _ (cfg : RestConfig) where
    -- The requests of one document, which go before those of the rest.
    abbrev Adds : Document → List Apply → Type 0
    Adds d new =
        (ds : List (Result Document)) (rest : List Apply)
        → Installs cfg ds rest
        → Installs cfg (ok d ∷ ds) (new ++ rest)

    apply_document_rule :
        (d : Document) (sent : List Apply)
        → Ensures
            (λ t. applied t ≡ sent)
            (apply_document P T cfg d)
            (λ _ t. (new : List Apply) × (applied t ≡ sent ++ new) × Adds d new)
    unfolding apply_document applied apply_request
    apply_document_rule d sent =
        Ensures-if d.is_empty _ _
          (λ e.
            Ensures-pure tt
              (λ t h. ([], h ∙ sym (append-nil sent), λ ds rest i. skipping d ds rest e i)))
          (λ e.
            Ensures-bind {R = λ m t. IsMapped cfg d m × (applied t ≡ sent)} _ _
              (Ensures-or_wrap _ _ _ (record { at = λ t h m done. ((t, done), h) }))
              (λ m. Ensures-given (λ mapped.
                Ensures-bind _ _ (Ensures-or_wrap _ _ _ (Ensures-lift d.body)) (λ body.
                  Ensures-or_wrap _ _ _ (record {
                    at = λ t (known, h) u done. (
                      apply_request P T cfg d m body ∷ [],
                      ap (λ s. s ++ (apply_request P T cfg d m body ∷ [])) h,
                      λ ds rest i. applying d ds rest m body e mapped known i,
                    );
                  })))))

    apply_documents-Installs :
        (ds : List (Result Document)) (sent : List Apply)
        → Ensures
            (λ t. applied t ≡ sent)
            (apply_documents P T cfg ds)
            (λ _ t. (new : List Apply) × (applied t ≡ sent ++ new) × Installs cfg ds new)
    unfolding apply_documents
    apply_documents-Installs [] sent =
        Ensures-pure tt (λ t h. ([], h ∙ sym (append-nil sent), nothing_left))
    apply_documents-Installs (err e ∷ ds) sent = Ensures-raise _
    apply_documents-Installs (ok d ∷ ds) sent = Ensures-bind _ _ (apply_document_rule d sent) (λ u.
        record {
          at = λ t (new, h, adds) v done.
              let (more, h', i) = (apply_documents-Installs ds (sent ++ new)).at t h v done in
              (new ++ more, h' ∙ append_assoc sent new more, adds ds more i);
        })

  -- The config was made of a secret that was read.
  abbrev pub IsRead : Text → Text → RestConfig → Type 0
  IsRead namespace name cfg =
      (s : Secret) × (older : List Call) × (oracle older
          (get_call secret (kubeconfig_key namespace name))
        ≡ ok s)
      × (P.rest_config (Dict.read (codes "value") s.value) ≡ ok cfg)

  -- The manifest was read from the config map, and the config is that of the workload cluster.
  abbrev pub HandedOut : Text → Text → Text → RestConfig → Type 0
  HandedOut namespace name manifest cfg =
      ((c : ConfigMap) × (oracle [] calico_call ≡ ok c)
        × (Dict.read (codes "calico.yaml") c.value ≡ manifest))
      × IsRead namespace name cfg

  calico_manifest_rule :
      (c : ConfigMap) (sent : List Apply)
      → Ensures
          (λ t. applied t ≡ sent)
          (calico_manifest P T c)
          (λ manifest t. (Dict.read (codes "calico.yaml") c.value ≡ manifest) × (applied t ≡ sent))
  unfolding calico_manifest
  calico_manifest_rule c sent =
      Ensures-if (Dict.read (codes "calico.yaml") c.value == []) _ _ (λ e. Ensures-raise _)
        (λ e. Ensures-pure _ (λ t h. (refl, h)))

  workload_rest_config_rule :
      (namespace name : Text) (sent : List Apply)
      → Ensures
          (λ t. applied t ≡ sent)
          (workload_rest_config P T namespace name)
          (λ cfg t. IsRead namespace name cfg × (applied t ≡ sent))
  unfolding workload_rest_config applied lift
  workload_rest_config_rule namespace name sent =
      Ensures-bind
        {R = λ s t.
          ((older : List Call) × (oracle older (get_call secret (kubeconfig_key namespace name))
              ≡ ok s))
          × (applied t ≡ sent)}
        _ _ (Ensures-or_wrap _ _ _ (record { at = λ t h s done. ((t, done), h) }))
        (λ s.
          Ensures-or_wrap _ _ _
            (record { at = λ t ((older, done), h) cfg known. ((s, older, done, known), h) }))

  lift_rule :
      {A : Type 0} (r : Result A) (sent : List Apply)
      → Ensures (λ t. applied t ≡ sent) (lift r) (λ _ t. applied t ≡ sent)
  lift_rule r sent = Ensures-Keeps _ (Keeps-lift r)

  whole :
      (namespace name : Text)
      → Ensures
          (λ t. t ≡ [])
          (ensure_calico_installed P T namespace name)
          (λ _ t.
            (manifest : Text) × (cfg : RestConfig) × HandedOut namespace name manifest cfg
            × Installs cfg (P.decode manifest) (applied t))
  unfolding ensure_calico_installed applied
  whole namespace name =
      Ensures-bind {R = λ c t. (oracle [] calico_call ≡ ok c) × (applied t ≡ [])} _ _
        (Ensures-or_wrap _ _ _ (record {
          at = λ t h c done. (subst (λ u. oracle u calico_call ≡ ok c) h done, ap applied h);
        }))
        (λ c. Ensures-given (λ got. Ensures-bind _ _ (calico_manifest_rule c []) (λ manifest.
          Ensures-given (λ entry.
            Ensures-bind _ _ (workload_rest_config_rule namespace name []) (λ cfg.
              Ensures-given (λ (s, older, read, made).
                Ensures-bind _ _ (Ensures-or_wrap _ _ _ (lift_rule _ [])) (λ _.
                  Ensures-bind _ _ (Ensures-or_wrap _ _ _ (lift_rule _ [])) (λ _. record {
                    at = λ t h u done.
                        let (new, sent, installs) =
                          (apply_documents-Installs cfg (P.decode manifest) []).at t h u done in
                        (
                          manifest,
                          cfg,
                          ((c, got, entry), (s, older, read, made)),
                          subst (Installs cfg (P.decode manifest)) (sym sent) installs,
                        );
                  }))))))))

  -- Let `ensureCalicoInstalled` run against servers that give any answers. If it succeeds, it has
  -- sent to the workload cluster one apply request for each document of the manifest that is not
  -- empty, in their order, and no other: under the resource that the cluster names for the
  -- document's kind, with the document's name and body, and in the document's namespace where the
  -- resource has namespaces. The manifest is the entry calico.yaml of the config map that was
  -- read, and the cluster is that of the kubeconfig secret that was read.
  pub ensure_calico_installed-Installs :
      (namespace name : Text)
      → (ensure_calico_installed P T namespace name []).0 ≡ ok tt
      → (manifest : Text) × (cfg : RestConfig) × HandedOut namespace name manifest cfg
        × Installs cfg
            (P.decode manifest)
            (applied (ensure_calico_installed P T namespace name []).1)
  ensure_calico_installed-Installs namespace name done = (whole namespace name).at [] refl tt done
