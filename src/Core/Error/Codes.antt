-- ===== src/Core/Error/Codes.antt =====
-- The names of error codes in crates/core/src/error.rs tell them apart.
use git_lazy_mount.Prelude.{
  ◌≡◌, refl, ap, sym, ◌∙◌, Option, none, some, List, [], ◌∷◌, arith, Bytes, bytes_eq, if◌then◌else◌,
}
use git_lazy_mount.Core.Error.{
  ErrorCode, as_str, configuration, unsupported_remote_capability, authentication,
  offline_missing_object, remote_missing_object, local_object_corruption, filter_failure,
  lfs_failure, invalid_repository_path, platform_path_collision, filesystem_backend_unavailable,
  stale_workspace, concurrent_branch_movement, dirty_workspace_conflict, overlay_corruption,
  mount_lifecycle, unsupported_operation, resource_limit, not_found, already_exists, internal,
}

abbrev every : List ErrorCode
every =
    configuration ∷ unsupported_remote_capability ∷ authentication ∷ offline_missing_object
    ∷ remote_missing_object ∷ local_object_corruption ∷ filter_failure ∷ lfs_failure
    ∷ invalid_repository_path ∷ platform_path_collision ∷ filesystem_backend_unavailable
    ∷ stale_workspace ∷ concurrent_branch_movement ∷ dirty_workspace_conflict ∷ overlay_corruption
    ∷ mount_lifecycle ∷ unsupported_operation ∷ resource_limit ∷ not_found ∷ already_exists
    ∷ internal ∷ []

-- The code of a name.
named : Bytes → List ErrorCode → Option ErrorCode
unfolding as_str
named name [] = none
named name (c ∷ cs) = let rest = named name cs in if bytes_eq (as_str c) name then some c else rest

named-as_str : (c : ErrorCode) → named (as_str c) every ≡ some c
unfolding named as_str bytes_eq
named-as_str configuration = refl
named-as_str unsupported_remote_capability = refl
named-as_str authentication = refl
named-as_str offline_missing_object = refl
named-as_str remote_missing_object = refl
named-as_str local_object_corruption = refl
named-as_str filter_failure = refl
named-as_str lfs_failure = refl
named-as_str invalid_repository_path = refl
named-as_str platform_path_collision = refl
named-as_str filesystem_backend_unavailable = refl
named-as_str stale_workspace = refl
named-as_str concurrent_branch_movement = refl
named-as_str dirty_workspace_conflict = refl
named-as_str overlay_corruption = refl
named-as_str mount_lifecycle = refl
named-as_str unsupported_operation = refl
named-as_str resource_limit = refl
named-as_str not_found = refl
named-as_str already_exists = refl
named-as_str internal = refl

-- Two error codes with the same name are the same code.
pub as_str-injective : (c d : ErrorCode) → as_str c ≡ as_str d → c ≡ d
as_str-injective c d h =
    some_inj (sym (named-as_str c) ∙ (ap (λ n. named n every) h ∙ named-as_str d))
  where
    some_inj : {a b : ErrorCode} → some a ≡ some b → a ≡ b
    some_inj e = ground (arith, e)
