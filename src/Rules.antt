-- ===== src/Rules.antt =====
-- internal/notifications/rules.go: the rules that filter, group and route notifications. A
-- number of the JSON is its canonical text; `fold_eq` stands for `strings.EqualFold`.
pub mod Eval
pub mod Validate
pub mod Total
pub mod Outcome
use kamacu.Common.{
  ℕ, Bool, true, false, not, ◌&&◌, ◌||◌, Option, none, some, List, [], ◌∷◌, String, str_eq,
  if◌then◌else◌, any,
}

pub data Scalar : Type 0 where
  null : Scalar
  text : String → Scalar
  number : String → Scalar
  flag : Bool → Scalar
  other_json : String → Scalar

-- `Value any`: a scalar, or the list that `in` wants.
pub data RuleValue : Type 0 where
  scalar : Scalar → RuleValue
  many : List Scalar → RuleValue

-- `Op`; `unsupported` is any other text.
pub data Op : Type 0 where
  op_eq op_in op_semantic op_all op_any op_not op_always : Op
  unsupported : String → Op

mutual
  pub data RuleExpression : Type 0 where
    expression : Op → String → RuleValue → RuleArgs → String → RuleExpression

  pub data RuleArgs : Type 0 where
    no_args : RuleArgs
    arg : RuleExpression → RuleArgs → RuleArgs

-- "true", "false" and "unknown".
pub data Truth : Type 0 where
  holds fails unknown : Truth

pub record RuleFact : Type 0 where
  pub known : Bool
  pub value : Scalar

-- `json.Marshal` of two scalars gives the same bytes.
abbrev pub scalar_eq : Scalar → Scalar → Bool
scalar_eq null null = true
scalar_eq (text a) (text b) = str_eq a b
scalar_eq (number a) (number b) = str_eq a b
scalar_eq (flag true) (flag b) = b
scalar_eq (flag false) (flag b) = not b
scalar_eq (other_json a) (other_json b) = str_eq a b
scalar_eq _ _ = false

abbrev pub is_text_fact : String → Bool
is_text_fact f = str_eq f "repository" || (str_eq f "actor" || str_eq f "pr.author")

-- What an evaluation reads: `facts` and `semantic`, as look-ups. A missing fact is an unknown one.
pub record Evidence : Type 0 where
  pub facts : String → RuleFact
  pub semantic : String → Option Truth
