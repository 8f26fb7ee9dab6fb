-- ===== src/Rules/Outcome/Suppression.antt =====
-- Which notifications the rules of internal/notifications/rules.go suppress.
use kamacu.Common.{
  ◌≡◌, refl, ap, sym, ◌∙◌, Bool, true, false, not, ◌&&◌, ◌||◌, Option, none, some, List, [], ◌∷◌,
  String, str_eq, if◌then◌else◌, any, All, Bool-cases, Option-cases, inl, inr, arith,
}
use kamacu.Rules.{
  op_eq, op_in, op_semantic, op_all, op_any, op_not, op_always, unsupported, RuleExpression,
  expression, RuleArgs, no_args, arg, Truth, holds, Evidence, Op, RuleValue,
}
use kamacu.Rules.Eval.{eval_expression, eval_args, compare_fact, is_unknown}
use kamacu.Rules.Validate.{validate_expression}
use kamacu.Rules.Total.{validated_evaluates}
use kamacu.Rules.Outcome.{
  RuleClause, NotificationRule, Evaluated, Outcome, is_suppressed, hold, weigh, is_skipped,
  count_in, contests, winner, enabled_clauses, run_clauses, run_contests, evaluate_rule_set,
  first_progress, is_activity_fact, expression_activity, any_activity,
}

abbrev pub is_true : Option Truth → Bool
is_true (some holds) = true
is_true _ = false

-- The expressions of the clauses pass validation.
abbrev pub IsValidated : List (String × RuleClause) → Type 0
IsValidated cs = All (λ rc. validate_expression rc.1.condition 0 ≡ none) cs

hold-is_suppressed : (o : Outcome) → is_suppressed (hold o) ≡ is_suppressed o
hold-is_suppressed o = ground arith

-- What the finding of an activity decides: `subjectRuleFacts` sets the first seven from the finding
-- and its activity, and turns the last to the review's session where the finding is review work.
abbrev pub is_of_finding : String → Bool
is_of_finding f =
    str_eq f "activity.kind"
    || str_eq f "activity.work_kind"
    || str_eq f "activity.audience"
    || str_eq f "activity.uncertain"
    || str_eq f "activity.own"
    || str_eq f "actor"
    || str_eq f "review.state"
    || str_eq f "workflow.needs_session"

-- Two views of the facts agree but for what the finding decides.
abbrev pub IsSameSubject : Evidence → Evidence → Type 0
IsSameSubject a b = (f : String) → is_of_finding f ≡ false → a.facts f ≡ b.facts f

-- The expression tests whether the task needs a session.
unfoldable mutual
  pub tests_routing : RuleExpression → Bool
  tests_routing (expression op fact value args condition) =
      str_eq fact "workflow.needs_session" || any_routing args

  pub any_routing : RuleArgs → Bool
  any_routing no_args = false
  any_routing (arg a rest) = tests_routing a || any_routing rest

-- No clause of the rules tests it.
abbrev pub HasNoRouting : List (String × RuleClause) → Type 0
HasNoRouting cs = All (λ rc. tests_routing rc.1.condition ≡ false) cs

module _ (fold_eq : String → String → Bool) where
  -- The clauses that suppress, told without the loop.
  abbrev pub suppresses : Evidence → Bool → String × RuleClause → Bool
  suppresses facts preflight (r, c) =
      not (is_skipped preflight c)
      && str_eq c.effect "suppress"
      && is_true (eval_expression fold_eq c.condition facts)

  weigh-is_suppressed :
      (c : RuleClause) (v : Truth) (o : Outcome)
      → is_suppressed (weigh c v o)
        ≡ (is_suppressed o || str_eq c.effect "suppress" && is_true (some v))
  weigh-is_suppressed c v o = ground arith

  run_clauses_suppressed :
      (facts : Evidence) (preflight : Bool) (cs : List (String × RuleClause)) (p : Evaluated)
      → IsValidated cs
      → (q : Evaluated) × (run_clauses fold_eq facts preflight cs p ≡ some q)
        × (is_suppressed q.outcome
            ≡ (is_suppressed p.outcome || any (suppresses facts preflight) cs))
  run_clauses_suppressed facts preflight [] p h = (p, refl, ground arith)
  run_clauses_suppressed facts preflight ((r, c) ∷ cs) p h =
      elim (Bool-cases (is_skipped preflight c)) [
        | inl k ↦
            let (q, e, s) = run_clauses_suppressed facts preflight cs p h.1 in
            (q, ground (arith, k, e), ground (arith, k, s))
        | inr k ↦
            let (v, a) = validated_evaluates fold_eq c.condition facts h.0 in
            let (q, e, s) = run_clauses_suppressed facts preflight cs (count_in r c v p) h.1 in
            (q, ground (arith, k, e, a), ground (arith, k, s, a, weigh-is_suppressed c v p.outcome))
      ]

  run_contests_suppressed :
      (facts : Evidence) (category : String) (best : Option RuleClause)
      (cs : List (String × RuleClause)) (o : Outcome)
      → IsValidated cs
      → (d : Outcome) × (run_contests fold_eq facts category best cs o ≡ some d)
        × (is_suppressed d ≡ is_suppressed o)
  run_contests_suppressed facts category best [] o h = (o, refl, refl)
  run_contests_suppressed facts category best ((r, c) ∷ cs) o h =
      elim (Bool-cases (str_eq c.category category)) [
        | inr k ↦
            let (d, e, s) = run_contests_suppressed facts category best cs o h.1 in
            (d, ground (arith, k, e), s)
        | inl k ↦
            let (v, a) = validated_evaluates fold_eq c.condition facts h.0 in
            let next_ : Outcome = if contests best c v then hold o else o in
            let (d, e, s) = run_contests_suppressed facts category best cs next_ h.1 in
            (d, ground (arith, k, e, a), ground (arith, s, hold-is_suppressed o))
      ]

  -- Of validated rules the evaluation has a result, and a notification is suppressed exactly if some
  -- clause of an enabled rule that suppresses holds, in a preflight a filter that needs nothing of the
  -- activity: neither the order of the rules nor an unknown fact nor a contested route can change that.
  pub suppressed_iff :
      (facts : Evidence) (rules : List NotificationRule) (preflight : Bool)
      → IsValidated (enabled_clauses rules)
      → (p : Evaluated) × (evaluate_rule_set fold_eq facts rules preflight ≡ some p)
        × (is_suppressed p.outcome ≡ any (suppresses facts preflight) (enabled_clauses rules))
  unfolding evaluate_rule_set
  suppressed_iff facts rules true h =
      let (p, e, s) = run_clauses_suppressed facts true (enabled_clauses rules) first_progress h in
      (p, ground (arith, e), ground (arith, s))
  suppressed_iff facts rules false h =
      let cs = enabled_clauses rules in
      let (p, e, s) = run_clauses_suppressed facts false cs first_progress h in
      let (o, f, t) =
        run_contests_suppressed facts "grouping" (winner "grouping" none p.matched) cs p.outcome
          h in
      let (d, g, u) =
        run_contests_suppressed facts "action" (winner "action" none p.matched) cs o h in
      (record p { outcome = d }, ground (arith, e, f, g), ground (arith, s, t, u))

  compare-same :
      (op : Op) (fact : String) (value : RuleValue) (a b : Evidence)
      → IsSameSubject a b
      → is_activity_fact fact ≡ false
      → str_eq fact "workflow.needs_session" ≡ false
      → compare_fact fold_eq op fact value (a.facts fact)
        ≡ compare_fact fold_eq op fact value (b.facts fact)
  compare-same op fact value a b same h k =
      ap (compare_fact fold_eq op fact value) (same fact (ground (arith, h, k)))

  mutual
    unfolding eval_expression expression_activity tests_routing

    -- What needs nothing of the activity evaluates alike in both, routing aside.
    same_evaluation :
        (e : RuleExpression) (a b : Evidence)
        → IsSameSubject a b
        → expression_activity e ≡ false
        → tests_routing e ≡ false
        → eval_expression fold_eq e a ≡ eval_expression fold_eq e b
    same_evaluation (expression op_always fact value args condition) a b same h k = refl
    same_evaluation (expression op_semantic fact value args condition) a b same h k =
        absurd (ground (arith, h))
    same_evaluation (expression op_not fact value no_args condition) a b same h k = refl
    same_evaluation (expression op_not fact value (arg x rest) condition) a b same h k =
        rw (same_evaluation x a b same (ground (arith, h)) (ground (arith, k))) refl
    same_evaluation (expression op_all fact value args condition) a b same h k =
        same_args true false args a b same (ground (arith, h)) (ground (arith, k))
    same_evaluation (expression op_any fact value args condition) a b same h k =
        same_args false false args a b same (ground (arith, h)) (ground (arith, k))
    same_evaluation (expression op_eq fact value args condition) a b same h k =
        ap some (compare-same op_eq fact value a b same (ground (arith, h)) (ground (arith, k)))
    same_evaluation (expression op_in fact value args condition) a b same h k =
        ap some (compare-same op_in fact value a b same (ground (arith, h)) (ground (arith, k)))
    same_evaluation (expression (unsupported op) fact value args condition) a b same h k =
        ap some (
          compare-same (unsupported op) fact value a b same (ground (arith, h)) (ground (arith, k)))

    same_args :
        (is_all seen : Bool) (args : RuleArgs) (a b : Evidence)
        → IsSameSubject a b
        → any_activity args ≡ false
        → any_routing args ≡ false
        → eval_args fold_eq is_all seen args a ≡ eval_args fold_eq is_all seen args b
    same_args is_all seen no_args a b same h k = refl
    same_args is_all seen (arg x rest) a b same h k =
        let first = same_evaluation x a b same (ground (arith, h)) (ground (arith, k)) in
        elim (Option-cases (eval_expression fold_eq x b)) [
          | inl e ↦ ground (arith, first, e)
          | inr (v, e) ↦ ground (
            arith,
            first,
            e,
            same_args is_all (seen || is_unknown fold_eq v) rest a b same (ground (arith, h))
                (ground (arith, k)),
          )
        ]

  suppresses-same :
      (a b : Evidence) (rc : String × RuleClause)
      → IsSameSubject a b
      → tests_routing rc.1.condition ≡ false
      → suppresses a true rc ≡ true
      → suppresses b false rc ≡ true
  suppresses-same a b (r, c) same k h =
      ground (arith, h, same_evaluation c.condition a b same (ground (arith, h)) k)

  any-suppresses :
      (a b : Evidence) (cs : List (String × RuleClause))
      → IsSameSubject a b
      → HasNoRouting cs
      → any (suppresses a true) cs ≡ true
      → any (suppresses b false) cs ≡ true
  any-suppresses a b [] same n h = absurd (ground (arith, h))
  any-suppresses a b (rc ∷ cs) same n h = elim (Bool-cases (suppresses a true rc)) [
    | inl k ↦ rw (suppresses-same a b rc same n.0 k) refl
    | inr k ↦ ground (arith, any-suppresses a b cs same n.1 (ground (arith, h, k)))
  ]

  -- A preflight never suppresses too much: where validated rules, no clause of which tests whether
  -- the task needs a session, suppress a notification before anything of its activity is known,
  -- then evaluating them suppresses it too, on any facts that differ only in what the finding decides
  -- and with whatever semantic judgments.
  pub preflight_agrees :
      (before after : Evidence) (rules : List NotificationRule) (p : Evaluated)
      → IsValidated (enabled_clauses rules)
      → HasNoRouting (enabled_clauses rules)
      → IsSameSubject before after
      → evaluate_rule_set fold_eq before rules true ≡ some p
      → is_suppressed p.outcome ≡ true
      → (q : Evaluated) × (evaluate_rule_set fold_eq after rules false ≡ some q)
        × (is_suppressed q.outcome ≡ true)
  preflight_agrees before after rules p h n same e s =
      let (p', e', s') = suppressed_iff before rules true h in
      let (q, f, t) = suppressed_iff after rules false h in
      let first : some p' ≡ some p = sym e' ∙ e in
      let counted : any (suppresses before true) (enabled_clauses rules) ≡ true =
        sym s' ∙ ap is_suppressed (ground (arith, first)) ∙ s in
      (q, f, t ∙ any-suppresses before after (enabled_clauses rules) same n counted)
