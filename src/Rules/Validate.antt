-- ===== src/Rules/Validate.antt =====
-- `validateExpression` of internal/notifications/rules.go, and that what it accepts evaluates.
use kamacu.Common.{
  ℕ, suc, ◌≡◌, refl, Bool, true, false, not, ◌||◌, Option, none, some, List, [], ◌∷◌, String,
  str_eq, if◌then◌else◌, all, byte_len, length, ltb, ◌==◌, lookup, string_eq, is_nil, codes,
  trim_space, arith, max,
}
use kamacu.Rules.{
  Scalar, null, text, number, flag, RuleValue, scalar, many, Op, op_eq, op_in, op_semantic, op_all,
  op_any, op_not, op_always, unsupported, RuleExpression, expression, RuleArgs, no_args, arg,
}

pub data RuleError : Type 0 where
  too_deep unused_in_comparison unused_in_semantic unused_in_logical unused_in_always : RuleError
  wants_conditions wants_one_condition wants_description unsupported_fact wants_values : RuleError
  wants_type unsupported_operator : RuleError

pub data FactType : Type 0 where
  string_fact bool_fact number_fact : FactType

abbrev pub rule_facts : List (String × FactType)
rule_facts =
    ("activity.work_kind", string_fact)
    ∷ ("activity.audience", string_fact)
    ∷ ("activity.uncertain", bool_fact)
    ∷ ("workflow.needs_session", bool_fact)
    ∷ ("repository", string_fact)
    ∷ ("project_id", number_fact)
    ∷ ("actor", string_fact)
    ∷ ("subject.type", string_fact)
    ∷ ("subject.url", string_fact)
    ∷ ("subject.title", string_fact)
    ∷ ("activity.kind", string_fact)
    ∷ ("activity.own", bool_fact)
    ∷ ("pr.state", string_fact)
    ∷ ("pr.draft", bool_fact)
    ∷ ("pr.author", string_fact)
    ∷ ("review.state", string_fact)
    ∷ ("viewer.mentioned", bool_fact)
    ∷ ("viewer.review_requested", bool_fact)
    ∷ ("viewer.approved", bool_fact)
    ∷ []

abbrev pub has_type : FactType → Scalar → Bool
has_type string_fact (text s) = true
has_type bool_fact (flag b) = true
has_type number_fact (number n) = true
has_type _ _ = false

-- `len(e.Args)`.
abbrev pub arity : RuleArgs → ℕ
arity no_args = 0
arity (arg a rest) = suc (arity rest)

abbrev pub is_nil_value : RuleValue → Bool
is_nil_value (scalar null) = true
is_nil_value _ = false

-- The fields that an operator leaves unused must be empty.
abbrev pub unused_fields : Op → String → RuleValue → RuleArgs → String → Option RuleError
unused_fields op_eq fact value args condition =
    if ltb 0 (arity args) || not (str_eq condition "") then some unused_in_comparison else none
unused_fields op_in fact value args condition =
    if ltb 0 (arity args) || not (str_eq condition "") then some unused_in_comparison else none
unused_fields op_semantic fact value args condition =
    if not (str_eq fact "") || (not (is_nil_value value) || ltb 0 (arity args))
    then some unused_in_semantic
    else none
unused_fields op_always fact value args condition =
    if not (str_eq fact "") || (not (is_nil_value value) || not (str_eq condition ""))
    then some unused_in_logical
    else if ltb 0 (arity args)
    then some unused_in_always
    else none
unused_fields _ fact value args condition =
    if not (str_eq fact "") || (not (is_nil_value value) || not (str_eq condition ""))
    then some unused_in_logical
    else none

-- `eq` compares with one value, `in` with one to a hundred; each is of the fact's type.
abbrev pub check_types : FactType → List Scalar → Option RuleError
check_types t vs = if all (has_type t) vs then none else some wants_type

abbrev pub check_values : Op → FactType → RuleValue → Option RuleError
check_values op_in t (scalar v) = some wants_values
check_values op_in t (many vs) =
    if length vs == 0 || ltb 100 (length vs) then some wants_values else check_types t vs
check_values _ t (scalar v) = check_types t (v ∷ [])
check_values _ t (many vs) = some wants_type

unfoldable pub check_comparison : Op → String → RuleValue → Option RuleError
check_comparison op fact value = elim (lookup fact rule_facts) [
  | none ↦ some unsupported_fact
  | some t ↦ check_values op t value
]

unfoldable pub check_semantic : String → Option RuleError
check_semantic condition =
    if is_nil (trim_space (codes condition)) || ltb 2000 (byte_len (codes condition))
    then some wants_description
    else none

-- The first of two errors.
abbrev pub or_else : Option RuleError → Option RuleError → Option RuleError
or_else none b = b
or_else (some e) b = some e

abbrev pub guard : Bool → RuleError → Option RuleError
guard true e = none
guard false e = some e

unfoldable mutual
  pub validate_expression : RuleExpression → ℕ → Option RuleError
  validate_expression (expression op_eq fact value args condition) depth =
      or_else (guard (not (ltb 8 depth)) too_deep) (
        or_else (unused_fields op_eq fact value args condition) (check_comparison op_eq fact value))
  validate_expression (expression op_in fact value args condition) depth =
      or_else (guard (not (ltb 8 depth)) too_deep) (
        or_else (unused_fields op_in fact value args condition) (check_comparison op_in fact value))
  validate_expression (expression op_semantic fact value args condition) depth =
      or_else (guard (not (ltb 8 depth)) too_deep)
        (or_else (unused_fields op_semantic fact value args condition) (check_semantic condition))
  validate_expression (expression op_all fact value args condition) depth =
      or_else (guard (not (ltb 8 depth)) too_deep) (
        or_else (unused_fields op_all fact value args condition) (
          or_else (guard (not (arity args == 0 || ltb 20 (arity args))) wants_conditions)
            (validate_args args (suc depth))))
  validate_expression (expression op_any fact value args condition) depth =
      or_else (guard (not (ltb 8 depth)) too_deep) (
        or_else (unused_fields op_any fact value args condition) (
          or_else (guard (not (arity args == 0 || ltb 20 (arity args))) wants_conditions)
            (validate_args args (suc depth))))
  validate_expression (expression op_not fact value args condition) depth =
      or_else (guard (not (ltb 8 depth)) too_deep) (
        or_else (unused_fields op_not fact value args condition)
          (or_else (guard (arity args == 1) wants_one_condition) (validate_args args (suc depth))))
  validate_expression (expression op_always fact value args condition) depth =
      or_else (guard (not (ltb 8 depth)) too_deep)
        (unused_fields op_always fact value args condition)
  validate_expression (expression (unsupported op) fact value args condition) depth =
      or_else (guard (not (ltb 8 depth)) too_deep) (
        or_else (unused_fields (unsupported op) fact value args condition)
          (some unsupported_operator))

  pub validate_args : RuleArgs → ℕ → Option RuleError
  validate_args no_args depth = none
  validate_args (arg a rest) depth =
      or_else (validate_expression a depth) (validate_args rest depth)

pub or_else-none : (a b : Option RuleError) → or_else a b ≡ none → (a ≡ none) × (b ≡ none)
or_else-none none b h = (refl, h)
or_else-none (some e) b h = absurd (ground arith)

-- The nesting of an expression.
abbrev pub is_nested : Op → Bool
is_nested op_all = true
is_nested op_any = true
is_nested op_not = true
is_nested _ = false

unfoldable mutual
  pub nesting : RuleExpression → ℕ
  nesting (expression op_all fact value args condition) = suc (args_nesting args)
  nesting (expression op_any fact value args condition) = suc (args_nesting args)
  nesting (expression op_not fact value args condition) = suc (args_nesting args)
  nesting _ = 0

  pub args_nesting : RuleArgs → ℕ
  args_nesting no_args = 0
  args_nesting (arg a rest) = max (nesting a) (args_nesting rest)
