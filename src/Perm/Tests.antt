-- ===== src/Perm/Tests.antt =====
-- Modes that the properties are applied to.
use rushfind.Perm.Argument.{PermMatchKind, parse_perm_argument}
use rushfind.Perm.Octal.{parse_perm_argument-octal}
use rushfind.Perm.Matcher.{PermMatcher}
use rushfind.Diagnostics.{ok}
use rushfind.Std.Int.{is_digit}
use rushfind.Prelude.{refl, ◌++◌, ◌≡◌, codes}

parse_perm_argument-octal_example :
    parse_perm_argument (codes "-" ++ codes "644") ≡ ok (PermMatcher.all 0o644)
unfolding is_digit
parse_perm_argument-octal_example =
    parse_perm_argument-octal PermMatchKind.all_of (codes "644") refl refl

copied_mode : parse_perm_argument (codes "u=rw,g=u,o=r") ≡ ok (PermMatcher.exact 0o664)
unfolding parse_perm_argument is_digit
copied_mode = refl
