-- ===== src/Ordered/Tests.antt =====
-- Evaluations that arrive out of order (src/ordered/engine.rs): those of three entries, of which the second
-- fails at its `-print0`.
use rushfind.Prelude.{
  arith, [], ◌<◌, ◌∷◌, ◌++◌, ◌==◌, ℕ, ◌≡◌, refl, List, Bool, true, false, none, if◌then◌else◌,
}
use rushfind.Diagnostics.{Diagnostic, Message, Result, ok, err, parse}
use rushfind.Entry.Context.{EntryContext}
use rushfind.Eval.Outcome.{Outcome, outcome, default_status, is_stop_requested}
use rushfind.Eval.Ran.{Ran, bind}
use rushfind.Ordered.Commits.{receive_all-evaluate_below, evaluate_below}
use rushfind.Ordered.Engine.{Ready, evaluate_entry, receive_all}
use rushfind.Ordered.InOrder.{Arrives}
use rushfind.Ordered.ReadyQueue.{default_queue}
use rushfind.Plan.Expr.{RuntimeExpr, and, negate, predicate, action, cons, nil}
use rushfind.Plan.Types.{RuntimeAction, RuntimePredicate, output, print, print0}

abbrev refusal : Diagnostic
refusal = parse Message.expected_close

abbrev entries : ℕ → EntryContext
entries depth = record {
  path = [];
  depth = depth;
  is_command_line_root = false;
  file_name = none;
  physical_file_type_hint = none;
  physical_view = err refusal;
  followed_view = none;
  read_link = err refusal;
  directory_is_empty = ok false;
  reader_access = λ mode. none;
}

abbrev writable_at_two : EntryContext → RuntimePredicate → Result Bool
writable_at_two e p = ok (e.depth == 2)

-- The depths at which an action ran.
abbrev log_depth : EntryContext → RuntimeAction → List ℕ → Ran (List ℕ) Outcome
log_depth e (output print0) log =
    if e.depth == 1 then (err refusal, log) else (ok (outcome true), log)
log_depth e a log = (ok (outcome true), log ++ (e.depth ∷ []))

-- ! -writable -print -print0
abbrev root : RuntimeExpr
root = and (
    cons (negate (predicate RuntimePredicate.writable))
      (cons (action (output print)) (cons (action (output print0)) nil)))

abbrev evaluated : ℕ → Ready
evaluated k = evaluate_entry writable_at_two root (entries k)

abbrev arrivals : List (ℕ × Ready)
arrivals = (2, evaluated 2) ∷ (0, evaluated 0) ∷ (1, evaluated 1) ∷ []

ends_at_the_error :
    bind
      (receive_all writable_at_two log_depth root arrivals (default_queue Ready) default_status [])
      (λ (queue, status) s'. (ok status, s'))
    ≡ (err refusal, 0 ∷ 1 ∷ [])
unfolding receive_all evaluate_entry is_stop_requested
ends_at_the_error = refl

arrives : (k : ℕ) → k < 3 → Arrives k arrivals
arrives k h = ground arith

receive_all-evaluate_below_example :
    bind
      (receive_all writable_at_two log_depth root arrivals (default_queue Ready) default_status [])
      (λ (queue, status) s'. (ok status, s'))
    ≡ evaluate_below writable_at_two log_depth root entries 3 []
receive_all-evaluate_below_example =
    receive_all-evaluate_below writable_at_two log_depth root entries 3 arrivals [] (omega arith)
      (refl, omega arith, (refl, omega arith, (refl, omega arith, tt))) arrives
