-- ===== src/Core/Error.antt =====
-- crates/core/src/error.rs: error codes with their names and errnos, errors, and their JSON form.
pub mod Codes
use git_lazy_mount.Prelude.{
  ℕ, Bool, true, false, Option, none, some, List, [], ◌∷◌, ◌++◌, Bytes, codes,
}

pub data ErrorCode : Type 0 where
  configuration unsupported_remote_capability authentication offline_missing_object : ErrorCode
  remote_missing_object local_object_corruption filter_failure lfs_failure : ErrorCode
  invalid_repository_path platform_path_collision filesystem_backend_unavailable : ErrorCode
  stale_workspace concurrent_branch_movement dirty_workspace_conflict : ErrorCode
  overlay_corruption mount_lifecycle unsupported_operation resource_limit not_found : ErrorCode
  already_exists internal : ErrorCode

-- The stable string form.
unfoldable pub as_str : ErrorCode → Bytes
as_str configuration = codes "configuration"
as_str unsupported_remote_capability = codes "unsupported_remote_capability"
as_str authentication = codes "authentication"
as_str offline_missing_object = codes "offline_missing_object"
as_str remote_missing_object = codes "remote_missing_object"
as_str local_object_corruption = codes "local_object_corruption"
as_str filter_failure = codes "filter_failure"
as_str lfs_failure = codes "lfs_failure"
as_str invalid_repository_path = codes "invalid_repository_path"
as_str platform_path_collision = codes "platform_path_collision"
as_str filesystem_backend_unavailable = codes "filesystem_backend_unavailable"
as_str stale_workspace = codes "stale_workspace"
as_str concurrent_branch_movement = codes "concurrent_branch_movement"
as_str dirty_workspace_conflict = codes "dirty_workspace_conflict"
as_str overlay_corruption = codes "overlay_corruption"
as_str mount_lifecycle = codes "mount_lifecycle"
as_str unsupported_operation = codes "unsupported_operation"
as_str resource_limit = codes "resource_limit"
as_str not_found = codes "not_found"
as_str already_exists = codes "already_exists"
as_str internal = codes "internal"

unfoldable pub default_retryable : ErrorCode → Bool
default_retryable authentication = true
default_retryable offline_missing_object = true
default_retryable concurrent_branch_movement = true
default_retryable resource_limit = true
default_retryable _ = false

unfoldable pub errno : ErrorCode → ℕ
errno configuration = 22
errno unsupported_remote_capability = 95
errno authentication = 13
errno offline_missing_object = 5
errno remote_missing_object = 2
errno local_object_corruption = 5
errno filter_failure = 5
errno lfs_failure = 5
errno invalid_repository_path = 22
errno platform_path_collision = 22
errno filesystem_backend_unavailable = 19
errno stale_workspace = 116
errno concurrent_branch_movement = 11
errno dirty_workspace_conflict = 39
errno overlay_corruption = 5
errno mount_lifecycle = 16
errno unsupported_operation = 95
errno resource_limit = 28
errno not_found = 2
errno already_exists = 17
errno internal = 5

-- The identifiers are in the form that `to_json` gives them. `causes` is what the chain of sources
-- displays, the nearest first.
pub record Error : Type 0 where
  pub code : ErrorCode
  pub summary : Bytes
  pub retryable : Bool
  pub recommended_action : Option Bytes
  pub workspace_id : Option Bytes
  pub operation_id : Option Bytes
  pub context : List Bytes
  pub causes : List Bytes

unfoldable pub error : ErrorCode → Bytes → Error
unfolding default_retryable
error code summary = record {
  code = code;
  summary = summary;
  retryable = default_retryable code;
  recommended_action = none;
  workspace_id = none;
  operation_id = none;
  context = [];
  causes = [];
}

unfoldable pub with_retryable : Bool → Error → Error
with_retryable b e = record e { retryable = b }

unfoldable pub with_action : Bytes → Error → Error
with_action action e = record e { recommended_action = some action }

unfoldable pub with_workspace : Bytes → Error → Error
with_workspace id e = record e { workspace_id = some id }

unfoldable pub with_operation : Bytes → Error → Error
with_operation id e = record e { operation_id = some id }

unfoldable pub with_context : Bytes → Error → Error
with_context crumb e = record e { context = e.context ++ crumb ∷ [] }

-- The source displays as `cause`, and has sources of its own.
unfoldable pub with_source : Bytes → List Bytes → Error → Error
with_source cause further e = record e { causes = cause ∷ further }

action_text : Option Bytes → Bytes
action_text none = []
action_text (some action) = codes " (action: " ++ action ++ codes ")"

-- `Display`.
unfoldable pub display : Error → Bytes
unfolding as_str action_text
display e =
    codes "[" ++ as_str e.code ++ codes "] " ++ e.summary ++ action_text e.recommended_action

pub record ErrorJson : Type 0 where
  pub code : Bytes
  pub summary : Bytes
  pub retryable : Bool
  pub recommended_action : Option Bytes
  pub workspace_id : Option Bytes
  pub operation_id : Option Bytes
  pub causes : List Bytes
  pub context : List Bytes

unfoldable pub to_json : Error → ErrorJson
unfolding as_str
to_json e = record {
  code = as_str e.code;
  summary = e.summary;
  retryable = e.retryable;
  recommended_action = e.recommended_action;
  workspace_id = e.workspace_id;
  operation_id = e.operation_id;
  causes = e.causes;
  context = e.context;
}
