-- ===== src/Governance/Ledger.antt =====
-- DeploymentLedger of pkg/runtime/governance.go. It holds the manifests by value: a change that a
-- caller makes through a pointer after Record is left out, as is a nil manifest in a loaded history.
-- A missing inner map and an empty one are the same here.
use fgoths_framework.Prelude.{Bool, List, [], ◌∷◌, ◌++◌, Option, none, some, any, if◌then◌else◌}
use fgoths_framework.Prelude.Text.{Str, str_eq, trim_space}
use fgoths_framework.Prelude.Maps.{Map, lookup2, insert2}
use fgoths_framework.Governance.Events.{or_nil, find_trimmed}
use fgoths_framework.Governance.Manifest.{
  DeploymentManifest, ManifestError, version_exists, validate_manifest,
}

pub record DeploymentLedger : Type 0 where
  pub active : Map (Map DeploymentManifest)
  pub past : Map (Map (List DeploymentManifest))

unfoldable pub new_deployment_ledger : DeploymentLedger
new_deployment_ledger = record { active = []; past = [] }

unfoldable pub has_version : Str → List DeploymentManifest → Bool
has_version version manifests = any (λ m. str_eq m.version version) manifests

unfoldable pub store_manifest :
    DeploymentManifest → DeploymentLedger → DeploymentLedger × Option ManifestError
unfolding or_nil has_version
store_manifest m l =
    let service = trim_space m.service in
    let env = trim_space m.environment in
    let before = or_nil (lookup2 service env l.past) in
    if has_version m.version before then (l, some version_exists) else (
      record {
        active = insert2 service env m l.active;
        past = insert2 service env (before ++ m ∷ []) l.past;
      },
      none,
    )

unfoldable pub record_manifest :
    DeploymentManifest → DeploymentLedger → DeploymentLedger × Option ManifestError
unfolding validate_manifest store_manifest
record_manifest m l =
    let (m', error) = validate_manifest m in
    elim error [ some e ↦ (l, some e) | none ↦ store_manifest m' l ]

unfoldable pub current : Str → Str → DeploymentLedger → Option DeploymentManifest
unfolding find_trimmed
current service environment l = find_trimmed service environment l.active

unfoldable pub past_manifests : Str → Str → DeploymentLedger → Option (List DeploymentManifest)
unfolding find_trimmed
past_manifests service environment l = find_trimmed service environment l.past
