-- ===== src/Rules/Eval.antt =====
-- `evalExpression` of internal/notifications/rules.go. `none` stands for the panic of `Args[0]`
-- on an empty slice.
use kamacu.Common.{
  Bool, true, false, not, ◌||◌, Option, none, some, List, [], ◌∷◌, String, str_eq, if◌then◌else◌,
  any,
}
use kamacu.Rules.{
  Scalar, text, flag, RuleValue, scalar, many, Op, op_eq, op_in, op_semantic, op_all, op_any,
  op_not, op_always, unsupported, RuleExpression, expression, RuleArgs, no_args, arg, Truth, holds,
  fails, unknown, RuleFact, Evidence, scalar_eq, is_text_fact,
}

abbrev pub session_routing_condition : String
session_routing_condition =
    "the action required by this notification needs a new agent session rather than continuing an existing session"

module _ (fold_eq : String → String → Bool) where
  -- Names of people and repositories compare without case.
  abbrev pub folds : Bool → Scalar → Scalar → Bool
  folds false a b = false
  folds true (text a) (text b) = fold_eq a b
  folds true _ _ = false

  abbrev pub matches : String → Scalar → Scalar → Bool
  matches fact value v = folds (is_text_fact fact) value v || scalar_eq value v

  -- The values of a comparison: `in` wants a list, and anything else gives it no value.
  abbrev pub values : Op → RuleValue → List Scalar
  values op_in (many vs) = vs
  values op_in (scalar v) = []
  values _ (scalar v) = v ∷ []
  values _ (many vs) = []

  unfoldable pub compare_fact : Op → String → RuleValue → RuleFact → Truth
  compare_fact op fact value f =
      if not f.known
      then unknown
      else if any (matches fact f.value) (values op value)
      then holds
      else fails

  abbrev pub negate : Truth → Truth
  negate holds = fails
  negate fails = holds
  negate unknown = unknown

  abbrev pub or_unknown : Option Truth → Truth
  or_unknown none = unknown
  or_unknown (some t) = t

  unfoldable pub eval_semantic : String → Evidence → Truth
  unfolding compare_fact
  eval_semantic condition e =
      if str_eq condition session_routing_condition
      then compare_fact op_eq "workflow.needs_session" (scalar (flag true))
          (e.facts "workflow.needs_session")
      else or_unknown (e.semantic condition)

  -- One round of the loop of `all` or `any`: the answer that ends it, and `v` counted in.
  abbrev pub ends : Bool → Truth → Bool
  ends true fails = true
  ends false holds = true
  ends _ _ = false

  abbrev pub is_unknown : Truth → Bool
  is_unknown unknown = true
  is_unknown _ = false

  -- What the loop gives when no round ended it.
  abbrev pub exhausted : Bool → Bool → Truth
  exhausted is_all true = unknown
  exhausted true false = holds
  exhausted false false = fails

  unfoldable mutual
    unfolding eval_semantic

    pub eval_expression : RuleExpression → Evidence → Option Truth
    eval_expression (expression op_always fact value args condition) e = some holds
    eval_expression (expression op_semantic fact value args condition) e =
        some (eval_semantic condition e)
    eval_expression (expression op_not fact value args condition) e = eval_not args e
    eval_expression (expression op_all fact value args condition) e = eval_args true false args e
    eval_expression (expression op_any fact value args condition) e = eval_args false false args e
    eval_expression (expression op_eq fact value args condition) e =
        some (compare_fact op_eq fact value (e.facts fact))
    eval_expression (expression op_in fact value args condition) e =
        some (compare_fact op_in fact value (e.facts fact))
    eval_expression (expression (unsupported op) fact value args condition) e =
        some (compare_fact (unsupported op) fact value (e.facts fact))

    pub eval_not : RuleArgs → Evidence → Option Truth
    eval_not no_args e = none
    eval_not (arg a rest) e = elim (eval_expression a e) [ none ↦ none | some v ↦ some (negate v) ]

    pub eval_args : Bool → Bool → RuleArgs → Evidence → Option Truth
    eval_args is_all seen_unknown no_args e = some (exhausted is_all seen_unknown)
    eval_args is_all seen_unknown (arg a rest) e = elim (eval_expression a e) [
      | none ↦ none
      | some v ↦
          if ends is_all v then some v else eval_args is_all (seen_unknown || is_unknown v) rest e
    ]
