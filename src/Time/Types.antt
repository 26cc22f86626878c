-- ===== src/Time/Types.antt =====
-- Timestamps and the matchers that the planner makes (src/time.rs).
use rushfind.Prelude.{ℕ, Bool, ◌&&◌, ◌||◌, Bytes}
use rushfind.Prelude.Int.{ℤ, ltb_ℤ, eqb_ℤ}

pub record Timestamp : Type 0 where
  pub seconds : ℤ
  pub nanos : ℤ

-- `Ord` as derived: the seconds first, then the nanoseconds.
unfoldable pub timestamp_lt : Timestamp → Timestamp → Bool
timestamp_lt a b = ltb_ℤ a.seconds b.seconds || eqb_ℤ a.seconds b.seconds && ltb_ℤ a.nanos b.nanos

pub data TimestampKind : Type 0 where
  access birth change modification : TimestampKind

pub data RelativeTimeUnit : Type 0 where
  minutes days : RelativeTimeUnit

-- A decimal number: its digits, and how many of them stand behind the point.
pub record TimeAmount : Type 0 where
  pub digits : Bytes
  pub scale : ℕ

pub data TimeComparison : Type 0 where
  exactly less_than greater_than : TimeAmount → TimeComparison

pub record RelativeTimeMatcher : Type 0 where
  pub kind : TimestampKind
  pub unit : RelativeTimeUnit
  pub comparison : TimeComparison
  pub baseline : Timestamp
  pub daystart : Bool

pub record NewerMatcher : Type 0 where
  pub current : TimestampKind
  pub reference : Timestamp

-- `NewerMatcher::matches_timestamp`
unfoldable pub newer_matches : NewerMatcher → Timestamp → Bool
unfolding timestamp_lt
newer_matches matcher actual = timestamp_lt matcher.reference actual

pub record UsedMatcher : Type 0 where
  pub comparison : TimeComparison
