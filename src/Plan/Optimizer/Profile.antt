-- ===== src/Plan/Optimizer/Profile.antt =====
-- The profile of a predicate: what it needs, what it costs, whether it may move (src/optimizer.rs).
use rushfind.Prelude.{ℕ, Bool, true, false, List, [], ◌∷◌}
use rushfind.Time.Types.{TimestampKind, birth}
use rushfind.Plan.Types.{RuntimePredicate}

pub data Requirement : Type 0 where
  basename full_path file_type active_metadata filesystem_info path_access birth_time directory_read
        link_target nss :
      Requirement

pub data CostTier : Type 0 where
  constant string_only regex_string file_type active_metadata path_access birth_time directory_read
        expensive :
      CostTier

-- `Ord` as derived: the place among the constructors.
abbrev pub rank : CostTier → ℕ
rank CostTier.constant = 0
rank CostTier.string_only = 1
rank CostTier.regex_string = 2
rank CostTier.file_type = 3
rank CostTier.active_metadata = 4
rank CostTier.path_access = 5
rank CostTier.birth_time = 6
rank CostTier.directory_read = 7
rank CostTier.expensive = 8

pub record PredicateProfile : Type 0 where
  pub reorderable : Bool
  pub requirements : List Requirement
  pub cost : CostTier

abbrev pub profile : List Requirement → CostTier → PredicateProfile
profile requirements cost = record { reorderable = true; requirements = requirements; cost = cost }

abbrev active_metadata_only : PredicateProfile
active_metadata_only = profile (Requirement.active_metadata ∷ []) CostTier.active_metadata

abbrev newer_profile : TimestampKind → PredicateProfile
newer_profile birth = profile (Requirement.birth_time ∷ []) CostTier.birth_time
newer_profile _ = active_metadata_only

unfoldable pub predicate_profile : RuntimePredicate → PredicateProfile
predicate_profile RuntimePredicate.prune = record {
  reorderable = false;
  requirements = [];
  cost = CostTier.constant;
}
predicate_profile (RuntimePredicate.fs_type _) =
    profile (Requirement.filesystem_info ∷ []) CostTier.active_metadata
predicate_profile RuntimePredicate.readable =
    profile (Requirement.path_access ∷ []) CostTier.path_access
predicate_profile RuntimePredicate.writable =
    profile (Requirement.path_access ∷ []) CostTier.path_access
predicate_profile RuntimePredicate.executable =
    profile (Requirement.path_access ∷ []) CostTier.path_access
predicate_profile RuntimePredicate.always = profile [] CostTier.constant
predicate_profile RuntimePredicate.never = profile [] CostTier.constant
predicate_profile (RuntimePredicate.name _) =
    profile (Requirement.basename ∷ []) CostTier.string_only
predicate_profile (RuntimePredicate.path _) =
    profile (Requirement.full_path ∷ []) CostTier.string_only
predicate_profile (RuntimePredicate.regex _) =
    profile (Requirement.full_path ∷ []) CostTier.regex_string
predicate_profile (RuntimePredicate.type_is _) =
    profile (Requirement.file_type ∷ []) CostTier.file_type
predicate_profile (RuntimePredicate.xtype_is _) =
    profile (Requirement.file_type ∷ []) CostTier.file_type
predicate_profile RuntimePredicate.is_empty =
    profile (Requirement.active_metadata ∷ Requirement.directory_read ∷ []) CostTier.directory_read
predicate_profile (RuntimePredicate.newer matcher) = newer_profile matcher.current
predicate_profile (RuntimePredicate.lname _) =
    profile (Requirement.link_target ∷ []) CostTier.expensive
predicate_profile RuntimePredicate.no_user =
    profile (Requirement.active_metadata ∷ Requirement.nss ∷ []) CostTier.expensive
predicate_profile RuntimePredicate.no_group =
    profile (Requirement.active_metadata ∷ Requirement.nss ∷ []) CostTier.expensive
predicate_profile _ = active_metadata_only
