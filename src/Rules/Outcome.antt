-- ===== src/Rules/Outcome.antt =====
-- `evaluateRuleSet` and `expressionActivity` of internal/notifications/rules.go. Priorities are not
-- negative; `Evidence` and `Reason` of an evaluation, which are only shown, are left out.
pub mod Suppression
use kamacu.Common.{
  ℕ, Bool, true, false, not, ◌&&◌, ◌||◌, Option, none, some, List, [], ◌∷◌, ◌++◌, String, str_eq,
  if◌then◌else◌, ltb, leb, ◌==◌, string_eq,
}
use kamacu.Rules.{
  op_semantic, RuleExpression, expression, RuleArgs, no_args, arg, Truth, holds, fails, unknown,
  Evidence, Op,
}
use kamacu.Rules.Eval.{eval_expression}

pub record RuleClause : Type 0 where
  pub id : String
  pub category : String
  pub condition : RuleExpression
  pub effect : String
  pub argument : String
  pub priority : ℕ
  pub on_unknown : String

pub record NotificationRule : Type 0 where
  pub id : String
  pub enabled : Bool
  pub clauses : List RuleClause

pub record RuleEvaluation : Type 0 where
  pub rule_id : String
  pub clause_id : String
  pub result : Truth
  pub effect : String
  pub on_unknown : String

pub data Outcome : Type 0 where
  admitted held suppressed : Outcome

-- The three results.
pub record Evaluated : Type 0 where
  pub outcome : Outcome
  pub evaluations : List RuleEvaluation
  pub matched : List RuleClause

abbrev pub is_activity_fact : String → Bool
is_activity_fact f =
    str_eq f "actor"
    || str_eq f "activity.kind"
    || str_eq f "activity.work_kind"
    || str_eq f "activity.audience"
    || str_eq f "activity.uncertain"
    || str_eq f "activity.own"
    || str_eq f "review.state"

abbrev pub is_semantic : Op → Bool
is_semantic op_semantic = true
is_semantic _ = false

unfoldable mutual
  pub expression_activity : RuleExpression → Bool
  expression_activity (expression op fact value args condition) =
      is_semantic op || is_activity_fact fact || any_activity args

  pub any_activity : RuleArgs → Bool
  any_activity no_args = false
  any_activity (arg a rest) = expression_activity a || any_activity rest

-- The clauses of the rules that are enabled, with their rule.
abbrev pub with_rule : String → List RuleClause → List (String × RuleClause)
with_rule r [] = []
with_rule r (c ∷ cs) = (r, c) ∷ with_rule r cs

abbrev pub enabled_clauses : List NotificationRule → List (String × RuleClause)
enabled_clauses [] = []
enabled_clauses (r ∷ rs) =
    if r.enabled then with_rule r.id r.clauses ++ enabled_clauses rs else enabled_clauses rs

abbrev pub is_suppressed : Outcome → Bool
is_suppressed suppressed = true
is_suppressed _ = false

-- A preflight looks only at filters that need nothing of the activity.
abbrev pub is_skipped : Bool → RuleClause → Bool
is_skipped preflight c =
    preflight && (not (str_eq c.category "filtering") || expression_activity c.condition)

abbrev pub hold : Outcome → Outcome
hold suppressed = suppressed
hold _ = held

-- The outcome behind a clause.
abbrev pub weigh : RuleClause → Truth → Outcome → Outcome
weigh c holds o = if str_eq c.effect "suppress" then suppressed else o
weigh c fails o = o
weigh c unknown o =
    if str_eq c.on_unknown "hold"
      && not (str_eq c.category "action")
      && not (str_eq c.category "grouping")
    then hold o
    else o

abbrev pub match_in : RuleClause → Truth → List RuleClause → List RuleClause
match_in c holds matched = matched ++ c ∷ []
match_in c _ matched = matched

abbrev pub count_in : String → RuleClause → Truth → Evaluated → Evaluated
count_in r c v p = record {
  outcome = weigh c v p.outcome;
  evaluations =
      p.evaluations
      ++ record {
        rule_id = r;
        clause_id = c.id;
        result = v;
        effect = c.effect;
        on_unknown = c.on_unknown;
      }
        ∷ [];
  matched = match_in c v p.matched;
}

-- The applicable clause of a category with the highest priority, the first of them.
abbrev pub better : Option RuleClause → RuleClause → Option RuleClause
better none c = some c
better (some w) c = if ltb w.priority c.priority then some c else some w

abbrev pub winner : String → Option RuleClause → List RuleClause → Option RuleClause
winner category best [] = best
winner category best (c ∷ cs) =
    winner category (if str_eq c.category category then better best c else best) cs

-- Whether an unknown or another decision of the same weight contests the winner.
abbrev pub contests : Option RuleClause → RuleClause → Truth → Bool
contests best c fails = false
contests none c unknown = str_eq c.on_unknown "hold"
contests (some w) c unknown = str_eq c.on_unknown "hold" && leb w.priority c.priority
contests none c holds = false
contests (some w) c holds =
    c.priority == w.priority
    && (not (str_eq c.effect w.effect) || not (str_eq c.argument w.argument))

abbrev pub first_progress : Evaluated
first_progress = record { outcome = admitted; evaluations = []; matched = [] }

module _ (fold_eq : String → String → Bool) (facts : Evidence) where
  -- The first loop; `none` is the panic of an evaluation.
  abbrev pub run_clauses : Bool → List (String × RuleClause) → Evaluated → Option Evaluated
  run_clauses preflight [] p = some p
  run_clauses preflight ((r, c) ∷ cs) p = elim (is_skipped preflight c) [
    | true ↦ run_clauses preflight cs p
    | false ↦ elim (eval_expression fold_eq c.condition facts) [
      | none ↦ none
      | some v ↦ run_clauses preflight cs (count_in r c v p)
    ]
  ]

  abbrev pub run_contests :
      String → Option RuleClause → List (String × RuleClause) → Outcome → Option Outcome
  run_contests category best [] o = some o
  run_contests category best ((r, c) ∷ cs) o = elim (str_eq c.category category) [
    | false ↦ run_contests category best cs o
    | true ↦ elim (eval_expression fold_eq c.condition facts) [
      | none ↦ none
      | some v ↦ run_contests category best cs (if contests best c v then hold o else o)
    ]
  ]

  abbrev pub settle : List (String × RuleClause) → Evaluated → Option Evaluated
  settle cs p = elim (run_contests "grouping" (winner "grouping" none p.matched) cs p.outcome) [
    | none ↦ none
    | some o ↦ elim (run_contests "action" (winner "action" none p.matched) cs o) [
      | none ↦ none
      | some decided ↦ some (record p { outcome = decided })
    ]
  ]

  unfoldable pub evaluate_rule_set : List NotificationRule → Bool → Option Evaluated
  evaluate_rule_set rules preflight =
      let cs = enabled_clauses rules in
      elim (run_clauses preflight cs first_progress) [
        | none ↦ none
        | some p ↦ if preflight then some p else settle cs p
      ]
