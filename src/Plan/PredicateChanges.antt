-- ===== src/Plan/PredicateChanges.antt =====
-- A predicate changes nothing that an action changes, and `-depth` alone the order (src/planner.rs).
use rushfind.Plan.Changes.{
  or_false, Does, Changes-refl, needing-Does, to_predicate-Does, has_action,
}
use rushfind.Plan.State.{needing, to_predicate, relative_baseline, Lowering, Planning, PlanServices}
use rushfind.Plan.Capabilities.{PlatformCapabilities, PlatformFeature}
use rushfind.Plan.LowerPredicate.{
  lower_predicate, relative_time, resolve_reference_matcher, require_windows_ownership_predicate,
  on_windows, refused_or, needing_if_insensitive,
}
use rushfind.Command.Ast.{Predicate}
use rushfind.Entry.Types.{FollowMode}
use rushfind.Prelude.{
  ◌==◌, codes, if_cases, ◌||◌, ◌≡◌, Bytes, refl, String, Option, Bool, true, false, none, some,
}
use rushfind.Plan.Types.{RuntimePredicate}
use rushfind.Diagnostics.{OnOk-tt, Diagnostic, >>=-OnOk}
use rushfind.Time.Types.{RelativeTimeUnit, TimestampKind}
use rushfind.Plan.Expr.{RuntimeExpr}
use rushfind.Time.Amount.{parse_time_comparison}

abbrev pub is_depth : Predicate → Bool
is_depth Predicate.depth = true
is_depth _ = false

pub or_true : (b : Bool) → true ≡ (b || true)
or_true true = refl
or_true false = refl

module _ (services : PlanServices) (capabilities : PlatformCapabilities) (mode : FollowMode) where
  relative_time-Does :
      (flag : String) (raw : Bytes) (kind : TimestampKind) (unit : RelativeTimeUnit) (s : Planning)
      → Does false false false s (relative_time services capabilities mode flag raw kind unit s)
  unfolding relative_time has_action
  relative_time-Does flag raw kind unit s =
      >>=-OnOk (λ _. Unit {0}) _ (relative_baseline services s.state) _ (OnOk-tt _)
        λ baseline _.
          >>=-OnOk (λ _. Unit {0}) _ (parse_time_comparison (codes flag) raw) _ (OnOk-tt _)
            λ comparison _. (refl, Changes-refl s)

  needing_if_insensitive-Does :
      (insensitive : Bool) (rest : Lowering RuntimeExpr) (s : Planning)
      → ((t : Planning) → Does false false false t (rest t))
      → Does false false false s
          (needing_if_insensitive services capabilities mode insensitive rest s)
  needing_if_insensitive-Does false rest s h = h s
  needing_if_insensitive-Does true rest s h =
      needing-Does false false false capabilities PlatformFeature.case_insensitive_glob rest s h

  refused_or-Does :
      (refusal : Option Diagnostic) (rest : Lowering RuntimeExpr) (s : Planning)
      → ((t : Planning) → Does false false false t (rest t))
      → Does false false false s (refused_or services capabilities mode refusal rest s)
  refused_or-Does none rest s h = h s
  refused_or-Does (some error) rest s h = tt

  on_windows-Does :
      (flag : String) (rest : Lowering RuntimeExpr) (s : Planning)
      → ((t : Planning) → Does false false false t (rest t))
      → Does false false false s (on_windows services capabilities mode flag rest s)
  on_windows-Does flag rest s h =
      >>=-OnOk (λ _. Unit {0}) _ (require_windows_ownership_predicate (codes flag) capabilities) _
        (OnOk-tt _) λ _ _. h s

  pub lower_predicate-Does :
      (p : Predicate) (s : Planning)
      → Does false false (is_depth p) s (lower_predicate services capabilities mode p s)
  unfolding lower_predicate has_action
  lower_predicate-Does (Predicate.max_depth value) s = (refl, Changes-refl s)
  lower_predicate-Does (Predicate.min_depth value) s = (refl, Changes-refl s)
  lower_predicate-Does Predicate.depth s = (refl, (or_false _, or_false _, or_true _, λ w. w))
  lower_predicate-Does Predicate.prune s = (refl, Changes-refl s)
  lower_predicate-Does Predicate.x_dev s =
      needing-Does false false false capabilities PlatformFeature.same_file_system _ s
        λ t. (refl, Changes-refl t)
  lower_predicate-Does Predicate.readable s =
      needing-Does false false false capabilities PlatformFeature.access_predicates _ s
        λ t. (refl, Changes-refl t)
  lower_predicate-Does Predicate.writable s =
      needing-Does false false false capabilities PlatformFeature.access_predicates _ s
        λ t. (refl, Changes-refl t)
  lower_predicate-Does Predicate.executable s =
      needing-Does false false false capabilities PlatformFeature.access_predicates _ s
        λ t. (refl, Changes-refl t)
  lower_predicate-Does (Predicate.name pattern insensitive) s =
      needing_if_insensitive-Does insensitive _ s λ t. to_predicate-Does _ _ t
  lower_predicate-Does (Predicate.path pattern insensitive) s =
      needing_if_insensitive-Does insensitive _ s λ t. to_predicate-Does _ _ t
  lower_predicate-Does (Predicate.regex pattern insensitive) s = to_predicate-Does _ _ s
  lower_predicate-Does (Predicate.regex_type raw) s =
      >>=-OnOk (λ _. Unit {0}) _ (services.parse_dialect raw) _ (OnOk-tt _)
        λ _ _. (refl, Changes-refl s)
  lower_predicate-Does (Predicate.fs_type name) s =
      needing-Does false false false capabilities PlatformFeature.fs_type _ s
        λ t. (refl, Changes-refl t)
  lower_predicate-Does (Predicate.inum raw) s = to_predicate-Does _ _ s
  lower_predicate-Does (Predicate.links raw) s = to_predicate-Does _ _ s
  lower_predicate-Does (Predicate.same_file path) s = to_predicate-Does _ _ s
  lower_predicate-Does (Predicate.l_name pattern insensitive) s =
      needing_if_insensitive-Does insensitive _ s λ t. to_predicate-Does _ _ t
  lower_predicate-Does (Predicate.uid raw) s =
      refused_or-Does _ _ s
        λ t. needing-Does false false false capabilities _ _ t λ u. to_predicate-Does _ _ u
  lower_predicate-Does (Predicate.gid raw) s =
      refused_or-Does _ _ s
        λ t. needing-Does false false false capabilities _ _ t λ u. to_predicate-Does _ _ u
  lower_predicate-Does (Predicate.user raw) s =
      needing-Does false false false capabilities PlatformFeature.named_ownership _ s
        λ t. to_predicate-Does _ _ t
  lower_predicate-Does (Predicate.group raw) s =
      needing-Does false false false capabilities PlatformFeature.named_ownership _ s
        λ t. to_predicate-Does _ _ t
  lower_predicate-Does (Predicate.owner raw) s =
      on_windows-Does "-owner"
        (to_predicate (services.resolve_user_principal raw) RuntimePredicate.user) s
        λ t. to_predicate-Does (services.resolve_user_principal raw) RuntimePredicate.user t
  lower_predicate-Does (Predicate.owner_sid raw) s =
      on_windows-Does "-owner-sid"
        (to_predicate (services.canonicalize_sid_principal raw) RuntimePredicate.user) s
        λ t. to_predicate-Does (services.canonicalize_sid_principal raw) RuntimePredicate.user t
  lower_predicate-Does (Predicate.group_sid raw) s =
      on_windows-Does "-group-sid"
        (to_predicate (services.canonicalize_sid_principal raw) RuntimePredicate.group) s
        λ t. to_predicate-Does (services.canonicalize_sid_principal raw) RuntimePredicate.group t
  lower_predicate-Does Predicate.no_user s =
      needing-Does false false false capabilities PlatformFeature.named_ownership _ s
        λ t. (refl, Changes-refl t)
  lower_predicate-Does Predicate.no_group s =
      needing-Does false false false capabilities PlatformFeature.named_ownership _ s
        λ t. (refl, Changes-refl t)
  lower_predicate-Does (Predicate.perm raw) s =
      needing-Does false false false capabilities PlatformFeature.mode_bits _ s
        λ t. to_predicate-Does _ _ t
  lower_predicate-Does (Predicate.flags raw) s =
      needing-Does false false false capabilities PlatformFeature.file_flags _ s
        λ t. to_predicate-Does _ _ t
  lower_predicate-Does (Predicate.reparse_type raw) s =
      needing-Does false false false capabilities PlatformFeature.reparse_type _ s
        λ t. to_predicate-Does _ _ t
  lower_predicate-Does (Predicate.size raw) s = to_predicate-Does _ _ s
  lower_predicate-Does Predicate.is_empty s = (refl, Changes-refl s)
  lower_predicate-Does (Predicate.used raw) s = to_predicate-Does _ _ s
  lower_predicate-Does (Predicate.a_time raw) s =
      relative_time-Does "-atime" raw TimestampKind.access RelativeTimeUnit.days s
  lower_predicate-Does (Predicate.c_time raw) s =
      relative_time-Does "-ctime" raw TimestampKind.change RelativeTimeUnit.days s
  lower_predicate-Does (Predicate.m_time raw) s =
      relative_time-Does "-mtime" raw TimestampKind.modification RelativeTimeUnit.days s
  lower_predicate-Does (Predicate.a_min raw) s =
      relative_time-Does "-amin" raw TimestampKind.access RelativeTimeUnit.minutes s
  lower_predicate-Does (Predicate.c_min raw) s =
      relative_time-Does "-cmin" raw TimestampKind.change RelativeTimeUnit.minutes s
  lower_predicate-Does (Predicate.m_min raw) s =
      relative_time-Does "-mmin" raw TimestampKind.modification RelativeTimeUnit.minutes s
  lower_predicate-Does (Predicate.newer path) s = to_predicate-Does _ _ s
  lower_predicate-Does (Predicate.a_newer path) s = to_predicate-Does _ _ s
  lower_predicate-Does (Predicate.c_newer path) s = to_predicate-Does _ _ s
  lower_predicate-Does (Predicate.newer_xy current reference raw) s =
      let matcher =
        resolve_reference_matcher services capabilities mode (codes "-newerXY") current reference
          raw in
      if_cases {A = Lowering RuntimeExpr} (λ m. Does false false false s (m s))
        ((current == b'B') || (reference == b'B'))
        (needing capabilities PlatformFeature.birth_time
          (to_predicate matcher RuntimePredicate.newer))
        (to_predicate matcher RuntimePredicate.newer)
        (needing-Does false false false capabilities PlatformFeature.birth_time
          (to_predicate matcher RuntimePredicate.newer) s
          λ t. to_predicate-Does matcher RuntimePredicate.newer t)
        (to_predicate-Does matcher RuntimePredicate.newer s)
  lower_predicate-Does Predicate.day_start s = (refl, Changes-refl s)
  lower_predicate-Does (Predicate.type_is kind) s = (refl, Changes-refl s)
  lower_predicate-Does (Predicate.x_type_is kind) s = (refl, Changes-refl s)
  lower_predicate-Does Predicate.always s = (refl, Changes-refl s)
  lower_predicate-Does Predicate.never s = (refl, Changes-refl s)
