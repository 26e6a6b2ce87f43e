-- ===== src/Governance/Store.antt =====
-- FileDeploymentStore, and Snapshot, Persist and LoadFrom of DeploymentLedger
-- (pkg/runtime/governance.go). The JSON of a state, both ways, is a parameter, and whether the file
-- system lets the store write is an argument. A nil map and an empty one are the same here.
use fgoths_framework.Prelude.{
  ◌≡◌, Bool, true, false, Option, none, some, refl, [], is_empty, if◌then◌else◌, arith,
}
use fgoths_framework.Prelude.Text.{Str, trim_space}
use fgoths_framework.Governance.Ledger.{DeploymentLedger, new_deployment_ledger}

-- The current manifests and the history, as in the ledger.
abbrev pub DeploymentLedgerState : Type 0
DeploymentLedgerState = DeploymentLedger

-- What the path of the store leads to.
pub data File : Type 0 where
  missing unreadable : File
  content : Str → File

pub data StoreError : Type 0 where
  path_required not_marshalled not_written not_read not_unmarshalled : StoreError

-- The copy leaves the history out.
unfoldable pub snapshot_state : DeploymentLedger → DeploymentLedgerState
snapshot_state l = record l { past = [] }

module _ (encode : DeploymentLedgerState → Option Str) (decode : Str → Option DeploymentLedgerState)
    (path : Str) where
  unfoldable pub save_state :
      (writable : Bool) → DeploymentLedgerState → File → File × Option StoreError
  save_state writable state file =
      if is_empty (trim_space path) then (file, some path_required) else elim (encode state) [
        | none ↦ (file, some not_marshalled)
        | some text ↦ if writable then (content text, none) else (file, some not_written)
      ]

  unfoldable pub read_file : File → DeploymentLedgerState × Option StoreError
  unfolding new_deployment_ledger
  read_file missing = (new_deployment_ledger, none)
  read_file unreadable = (new_deployment_ledger, some not_read)
  read_file (content text) = elim (decode text) [
    | none ↦ (new_deployment_ledger, some not_unmarshalled)
    | some state ↦ (state, none)
  ]

  unfoldable pub load_state : File → DeploymentLedgerState × Option StoreError
  unfolding read_file
  load_state file =
      if is_empty (trim_space path)
      then (new_deployment_ledger, some path_required)
      else read_file file

  unfoldable pub persist : (writable : Bool) → DeploymentLedger → File → File × Option StoreError
  unfolding save_state
  persist writable l file = save_state writable l file

  unfoldable pub load_from : File → DeploymentLedger → DeploymentLedger × Option StoreError
  unfolding load_state
  load_from file l =
      let (state, error) = load_state file in
      elim error [ some e ↦ (l, some e) | none ↦ (state, none) ]

  -- A ledger that is persisted without an error is read back as it was, by whatever ledger loads it, if
  -- decoding gives back what was encoded.
  load_from-persist :
      (writable : Bool) (l other : DeploymentLedger) (file : File)
      → ((text : Str) → encode l ≡ some text → decode text ≡ some l)
      → (persist writable l file).1 ≡ none
      → load_from (persist writable l file).0 other ≡ (l, none)
  unfolding persist save_state load_from load_state read_file
  load_from-persist writable l other file j e =
      split writable (is_empty (trim_space path)) (encode l) j e
    where
      split :
          (can blank : Bool) (encoded : Option Str)
          → ((text : Str) → encoded ≡ some text → decode text ≡ some l)
          → let saved : File × Option StoreError =
              if blank then (file, some path_required) else elim encoded [
                | none ↦ (file, some not_marshalled)
                | some text ↦ if can then (content text, none) else (file, some not_written)
              ] in
            saved.1 ≡ none
            → let loaded : DeploymentLedgerState × Option StoreError =
                if blank then (new_deployment_ledger, some path_required) else read_file saved.0 in
              (elim loaded.1 as (λ x. DeploymentLedger × Option StoreError) [
                | some e ↦ (other, some e)
                | none ↦ (loaded.0, none)
              ])
              ≡ (l, none)
      split can true encoded j e = cc
      split can false none j e = cc
      split true false (some text) j e = ground (arith, j text refl)
      split false false (some text) j e = cc
