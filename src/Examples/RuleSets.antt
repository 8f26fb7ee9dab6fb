-- ===== src/Examples/RuleSets.antt =====
-- Runs of internal/notifications/rules.go.
use kamacu.Common.{
  if◌then◌else◌, arith, ◌≡◌, refl, true, false, none, some, str_eq, List, [], ◌∷◌, any,
}
use kamacu.Rules.{
  null, text, flag, scalar, op_eq, op_not, op_any, RuleExpression, expression, no_args, arg, Truth,
  holds, Evidence,
}
use kamacu.Rules.Eval.{eval_expression, compare_fact}
use kamacu.Rules.Validate.{validate_expression, check_comparison}
use kamacu.Rules.Outcome.{
  RuleClause, NotificationRule, Evaluated, suppressed, is_suppressed, enabled_clauses,
  evaluate_rule_set, expression_activity,
}
use kamacu.Rules.Outcome.Suppression.{
  IsSameSubject, tests_routing, suppresses, suppressed_iff, preflight_agrees,
}
use kamacu.Rules.Total.{validated_evaluates}

-- Not by this actor, in a pull request that is no draft.
abbrev by_actor : RuleExpression
by_actor = expression op_eq "actor" (scalar (text "bot")) no_args ""

abbrev draft : RuleExpression
draft = expression op_eq "pr.draft" (scalar (flag true)) no_args ""

abbrev rule : RuleExpression
rule =
    expression op_not "" (scalar null)
      (arg (expression op_any "" (scalar null) (arg by_actor (arg draft no_args)) "") no_args) ""

abbrev evidence : Evidence
evidence = record {
  facts = λ f. record { known = str_eq f "actor"; value = text "octocat" };
  semantic = λ s. none;
}

validated_evaluates_example : (v : Truth) × (eval_expression str_eq rule evidence ≡ some v)
unfolding validate_expression check_comparison
validated_evaluates_example = validated_evaluates str_eq rule evidence refl

abbrev drop_drafts : RuleClause
drop_drafts = record {
  id = "r.1";
  category = "filtering";
  condition = draft;
  effect = "suppress";
  argument = "";
  priority = 0;
  on_unknown = "continue";
}

abbrev rules : List NotificationRule
rules = record { id = "r"; enabled = true; clauses = drop_drafts ∷ [] } ∷ []

abbrev of_draft : Evidence
of_draft = record {
  facts = λ f. record { known = str_eq f "pr.draft"; value = flag true };
  semantic = λ s. none;
}

suppressed_iff_example :
    (p : Evaluated) × (evaluate_rule_set str_eq of_draft rules false ≡ some p)
    × (is_suppressed p.outcome ≡ any (suppresses str_eq of_draft false) (enabled_clauses rules))
unfolding validate_expression check_comparison
suppressed_iff_example = suppressed_iff str_eq of_draft rules false (refl, tt)

abbrev first_look : Evaluated
first_look = record {
  outcome = suppressed;
  evaluations =
      record {
        rule_id = "r";
        clause_id = "r.1";
        result = holds;
        effect = "suppress";
        on_unknown = "continue";
      }
      ∷ [];
  matched = drop_drafts ∷ [];
}

-- The finding is review work, which needs a session.
abbrev of_review : Evidence
of_review = record {
  facts = λ f.
      if str_eq f "workflow.needs_session"
      then record { known = true; value = flag true }
      else of_draft.facts f;
  semantic = λ s. some holds;
}

same_but_routing : IsSameSubject of_draft of_review
same_but_routing f h = ground (arith, h)

preflight_agrees_example :
    (q : Evaluated) × (evaluate_rule_set str_eq of_review rules false ≡ some q)
    × (is_suppressed q.outcome ≡ true)
unfolding validate_expression check_comparison evaluate_rule_set expression_activity eval_expression
    compare_fact tests_routing
preflight_agrees_example =
    preflight_agrees str_eq of_draft of_review rules first_look (refl, tt) (refl, tt)
      (λ f h. same_but_routing f h) refl refl
