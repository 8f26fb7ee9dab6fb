-- ===== src/Rules/Total.antt =====
-- What `validateExpression` of internal/notifications/rules.go buys the evaluator.
use kamacu.Common.{
  ℕ, suc, ◌+◌, ◌≤◌, ◌≡◌, refl, Bool, true, false, not, ◌||◌, Option, none, some, String,
  if◌then◌else◌, ltb, ◌==◌, Bool-cases, arith, inl, inr,
}
use kamacu.Rules.{
  op_eq, op_in, op_semantic, op_all, op_any, op_not, op_always, unsupported, RuleExpression,
  expression, RuleArgs, no_args, arg, Truth, Evidence,
}
use kamacu.Rules.Eval.{eval_expression, eval_args, negate, ends, is_unknown, exhausted}
use kamacu.Rules.Validate.{
  RuleError, too_deep, validate_expression, validate_args, or_else, or_else-none, guard, arity,
  nesting, args_nesting, wants_conditions, wants_one_condition,
}

guard-none : (b : Bool) (e : RuleError) → guard b e ≡ none → b ≡ true
guard-none true e h = refl
guard-none false e h = absurd (ground arith)

-- The checks of a logical operator, one by one.
logical_checks :
    (a b c d : Option RuleError)
    → or_else a (or_else b (or_else c d)) ≡ none
    → (a ≡ none) × (c ≡ none) × (d ≡ none)
logical_checks a b c d h =
    let hb = or_else-none a (or_else b (or_else c d)) h in
    let hc = or_else-none b (or_else c d) hb.1 in
    let hd = or_else-none c d hc.1 in (hb.0, hd.0, hd.1)

shallow : (depth : ℕ) → guard (not (ltb 8 depth)) too_deep ≡ none → depth ≤ 8
shallow depth h = ground (arith, guard-none (not (ltb 8 depth)) too_deep h)

some_args : (n : ℕ) → guard (not (n == 0 || ltb 20 n)) wants_conditions ≡ none → 1 ≤ n
some_args n h = ground (arith, guard-none (not (n == 0 || ltb 20 n)) wants_conditions h)

one_arg : (n : ℕ) → guard (n == 1) wants_one_condition ≡ none → n ≡ 1
one_arg n h = ground (arith, guard-none (n == 1) wants_one_condition h)

mutual
  unfolding validate_expression nesting

  nesting_fits :
      (e : RuleExpression) (depth : ℕ) → validate_expression e depth ≡ none → depth + nesting e ≤ 8
  nesting_fits (expression op_eq fact value args condition) depth h =
      omega (arith, shallow depth (or_else-none (guard (not (ltb 8 depth)) too_deep) _ h).0)
  nesting_fits (expression op_in fact value args condition) depth h =
      omega (arith, shallow depth (or_else-none (guard (not (ltb 8 depth)) too_deep) _ h).0)
  nesting_fits (expression op_semantic fact value args condition) depth h =
      omega (arith, shallow depth (or_else-none (guard (not (ltb 8 depth)) too_deep) _ h).0)
  nesting_fits (expression op_always fact value args condition) depth h =
      omega (arith, shallow depth (or_else-none (guard (not (ltb 8 depth)) too_deep) _ h).0)
  nesting_fits (expression (unsupported op) fact value args condition) depth h =
      omega (arith, shallow depth (or_else-none (guard (not (ltb 8 depth)) too_deep) _ h).0)
  nesting_fits (expression op_all fact value args condition) depth h =
      let c =
        logical_checks _ _ (guard (not (arity args == 0 || ltb 20 (arity args))) wants_conditions) _
          h in
      omega (arith, args_nesting_fits args (suc depth) (some_args (arity args) c.1) c.2)
  nesting_fits (expression op_any fact value args condition) depth h =
      let c =
        logical_checks _ _ (guard (not (arity args == 0 || ltb 20 (arity args))) wants_conditions) _
          h in
      omega (arith, args_nesting_fits args (suc depth) (some_args (arity args) c.1) c.2)
  nesting_fits (expression op_not fact value args condition) depth h =
      let c = logical_checks _ _ (guard (arity args == 1) wants_one_condition) _ h in
      omega
        (arith, args_nesting_fits args (suc depth) (omega (arith, one_arg (arity args) c.1)) c.2)

  args_nesting_fits :
      (args : RuleArgs) (depth : ℕ)
      → 1 ≤ arity args
      → validate_args args depth ≡ none
      → depth + args_nesting args ≤ 8
  args_nesting_fits no_args depth some_arg h = absurd (omega arith)
  args_nesting_fits (arg a no_args) depth some_arg h =
      let c = or_else-none (validate_expression a depth) _ h in
      omega (arith, nesting_fits a depth c.0)
  args_nesting_fits (arg a (arg b rest)) depth some_arg h =
      let c = or_else-none (validate_expression a depth) (validate_args (arg b rest) depth) h in
      omega
        (arith, nesting_fits a depth c.0, args_nesting_fits (arg b rest) depth (omega arith) c.1)

-- An expression that validation accepts nests at most eight operators deep.
pub validated_nesting : (e : RuleExpression) → validate_expression e 0 ≡ none → nesting e ≤ 8
validated_nesting e h = omega (arith, nesting_fits e 0 h)

module _ (fold_eq : String → String → Bool) where
  -- The evaluator has an answer.
  abbrev Answers : RuleExpression → Evidence → Type 0
  Answers e ev = (v : Truth) × (eval_expression fold_eq e ev ≡ some v)

  not_answers :
      (v : Truth) (o : Option Truth)
      → o ≡ some v
      → elim o [ none ↦ none | some w ↦ some (negate fold_eq w) ] ≡ some (negate fold_eq v)
  not_answers v o h = cc

  -- A round of the loop ends with the condition's answer, or goes on.
  loop_answers :
      (b : Bool) (v : Truth) (o : Option Truth) (rest : Truth → Option Truth) (a : Truth)
      → o ≡ some v
      → rest v ≡ some a
      → (w : Truth) × (elim o [
        | none ↦ none
        | some u ↦ (if ends fold_eq b u then some u else rest u)
      ]
          ≡ some w)
  loop_answers b v o rest a h k = elim (Bool-cases (ends fold_eq b v)) [
    | inl t ↦ (v, ground (arith, t, h))
    | inr f ↦ (a, ground (arith, f, h, k))
  ]

  mutual
    unfolding validate_expression eval_expression

    answers :
        (e : RuleExpression) (depth : ℕ) (ev : Evidence)
        → validate_expression e depth ≡ none
        → Answers e ev
    answers (expression op_eq fact value args condition) depth ev h = (_, refl)
    answers (expression op_in fact value args condition) depth ev h = (_, refl)
    answers (expression op_semantic fact value args condition) depth ev h = (_, refl)
    answers (expression op_always fact value args condition) depth ev h = (_, refl)
    answers (expression (unsupported op) fact value args condition) depth ev h = (_, refl)
    answers (expression op_all fact value args condition) depth ev h =
        args_answer true false args (suc depth) ev
          (logical_checks _ _
            (guard (not (arity args == 0 || ltb 20 (arity args))) wants_conditions) _ h).2
    answers (expression op_any fact value args condition) depth ev h =
        args_answer false false args (suc depth) ev
          (logical_checks _ _
            (guard (not (arity args == 0 || ltb 20 (arity args))) wants_conditions) _ h).2
    answers (expression op_not fact value no_args condition) depth ev h =
        absurd (
          ground (arith, one_arg 0 (logical_checks _ _ (guard (0 == 1) wants_one_condition) _ h).1))
    answers (expression op_not fact value (arg a rest) condition) depth ev h =
        let c = logical_checks _ _ (guard (arity (arg a rest) == 1) wants_one_condition) _ h in
        let r =
          answers a (suc depth) ev (or_else-none (validate_expression a (suc depth)) _ c.2).0 in
        (negate fold_eq r.0, not_answers r.0 (eval_expression fold_eq a ev) r.1)

    args_answer :
        (is_all seen : Bool) (args : RuleArgs) (depth : ℕ) (ev : Evidence)
        → validate_args args depth ≡ none
        → (v : Truth) × (eval_args fold_eq is_all seen args ev ≡ some v)
    args_answer is_all seen no_args depth ev h = (exhausted fold_eq is_all seen, refl)
    args_answer is_all seen (arg a rest) depth ev h =
        let c = or_else-none (validate_expression a depth) (validate_args rest depth) h in
        let r = answers a depth ev c.0 in
        let s = args_answer is_all (seen || is_unknown fold_eq r.0) rest depth ev c.1 in
        loop_answers is_all r.0 (eval_expression fold_eq a ev)
          (λ v. eval_args fold_eq is_all (seen || is_unknown fold_eq v) rest ev) s.0 r.1 s.1

  -- Evaluating an expression that validation accepts gives an answer, whatever the facts and the
  -- semantic evidence: `Args[0]` of `not` never panics.
  pub validated_evaluates :
      (e : RuleExpression) (ev : Evidence)
      → validate_expression e 0 ≡ none
      → (v : Truth) × (eval_expression fold_eq e ev ≡ some v)
  validated_evaluates e ev h = answers e 0 ev h
