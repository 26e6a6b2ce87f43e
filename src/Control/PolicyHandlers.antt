-- ===== src/Control/PolicyHandlers.antt =====
-- The handlers of policies (pkg/runtime/controlplane.go), on the PolicyVersioner of the server, whose
-- registry is the server's. A body is what decodeJSON reads, `none` if it is malformed. Statuses go by
-- words in the message of an error; a name, or a message of the store, with such words is left out.
-- `order` is the order in which Go visits the histories.
use fgoths_framework.Prelude.{
  ℕ, Bool, not, ◌&&◌, List, [], ◌∷◌, ◌++◌, Option, none, some, is_empty, if◌then◌else◌,
}
use fgoths_framework.Prelude.Int.{ℤ}
use fgoths_framework.Prelude.Text.{Str, str_eq, trim_space}
use fgoths_framework.Registry.State.{RoutePolicy, RegistryError}
use fgoths_framework.Registry.Routes
use fgoths_framework.Policies.Versions.{
  PolicyVersionRecord, Versions, PolicyVersioner, VersionError, refused, last_of, create, update,
  rollback, history,
}
use fgoths_framework.Policies.Numbering.{before_slash}

pub record PolicyRequest : Type 0 where
  pub policy : RoutePolicy
  pub actor : Str
  pub reason : Str

pub record PolicyRollbackRequest : Type 0 where
  pub version : ℤ
  pub actor : Str
  pub reason : Str

pub data PolicyReply : Type 0 where
  failed : (status : ℕ) → PolicyReply
  created_version updated_version : ℕ → PolicyReply
  rolled_back_to : ℤ → PolicyReply
  active_policy : RoutePolicy → PolicyReply
  records : List PolicyVersionRecord → PolicyReply

unfoldable pub policy_status : VersionError → ℕ
policy_status (refused RegistryError.already_exists) = 409
policy_status e = 422

unfoldable pub update_status : VersionError → ℕ
unfolding policy_status
update_status VersionError.not_found = 404
update_status (refused e) = policy_status (refused e)
update_status e = 422

unfoldable pub get_policy : (name : Str) → PolicyVersioner → PolicyReply
get_policy name pv = elim (Routes.get_policy name pv.registry) [
  | none ↦ failed 404
  | some p ↦ active_policy p
]

-- The histories of all environments of a name, one after the other.
unfoldable pub histories_of : (name : Str) → (order : Versions) → List PolicyVersionRecord
histories_of name [] = []
histories_of name ((key, xs) ∷ order) =
    let rest = histories_of name order in
    if str_eq (before_slash key) (trim_space name) then xs ++ rest else rest

unfoldable pub policy_history : (name : Str) → (order : Versions) → PolicyReply
unfolding histories_of
policy_history name order =
    let items = histories_of name order in if is_empty items then failed 404 else records items

-- The first history of the name that is not empty.
unfoldable pub any_history : (name : Str) → (order : Versions) → List PolicyVersionRecord
any_history name [] = []
any_history name ((key, xs) ∷ order) =
    let rest = any_history name order in
    if str_eq (before_slash key) (trim_space name) && not (is_empty xs) then xs else rest

-- The history that tells the environment of a rollback.
unfoldable pub history_for :
    (name : Str) → (order : Versions) → PolicyVersioner → List PolicyVersionRecord
unfolding any_history history
history_for name order pv = elim (history name [] pv) [
  | some xs ↦ xs
  | none ↦ any_history name order
]

abbrev pub last_version : Option (List PolicyVersionRecord) → ℕ
last_version none = 0
last_version (some xs) = elim (last_of xs) [ none ↦ 0 | some x ↦ x.version ]

module _ (save : Versions → Bool) where
  unfoldable pub create_policy :
      Option PolicyRequest → PolicyVersioner → PolicyVersioner × PolicyReply
  unfolding policy_status create
  create_policy none pv = (pv, failed 400)
  create_policy (some body) pv =
      let (pv', error) = create save body.policy body.actor body.reason pv in
      (pv', elim error [ some e ↦ failed (policy_status e) | none ↦ created_version 1 ])

  -- The name of the path takes the place of the body's.
  unfoldable pub update_policy :
      (name : Str) → Option PolicyRequest → PolicyVersioner → PolicyVersioner × PolicyReply
  unfolding update_status update history
  update_policy name none pv = (pv, failed 400)
  update_policy name (some body) pv =
      let policy = record (body.policy) { name = name } in
      let (pv', error) = update save policy body.actor body.reason pv in
      (
        pv',
        elim error [
          | some e ↦ failed (update_status e)
          | none ↦ updated_version (last_version (history name policy.environment pv'))
        ],
      )

  unfoldable pub rollback_policy :
      (name : Str)
      → Option PolicyRollbackRequest
      → (order : Versions) → PolicyVersioner
      → PolicyVersioner × PolicyReply
  unfolding history_for policy_status rollback
  rollback_policy name none order pv = (pv, failed 400)
  rollback_policy name (some body) order pv = elim (history_for name order pv) [
    | [] ↦ (pv, failed 404)
    | x ∷ xs ↦
        let (pv', error) =
          rollback save name x.environment body.version body.actor body.reason pv in
        (pv', elim error [ some e ↦ failed (policy_status e) | none ↦ rolled_back_to body.version ])
  ]
