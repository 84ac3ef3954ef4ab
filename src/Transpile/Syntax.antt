-- ===== src/Transpile/Syntax.antt =====
-- The syntax trees that pmstrat/pmstrat/transpile.py reads: Python's `ast`, with a constructor for
-- each kind of node that the transpiler tells apart, and `other` for the kinds that it treats
-- alike, with the class's name and the parts in the order of the class's fields. A node has its
-- line where a message shows it. The text of a number is that of Python's `str`.
use pmt.Prelude.{ℕ, String, Bool, Option, List}

pub data Constant : Type 0 where
  str : String → Constant
  bool : Bool → Constant
  float : String → Constant
  int : String → Constant
  null : Constant
  literal : String → Constant

pub data CmpOperator : Type 0 where
  eq_op not_eq lt_op lt_e gt_op gt_e is is_not in_op not_in : CmpOperator

pub data BoolOperator : Type 0 where
  and_op or_op : BoolOperator

pub data BinOperator : Type 0 where
  add sub mult div mod_op pow floor_div mat_mult l_shift r_shift bit_or bit_xor bit_and :
      BinOperator

pub data UnaryOperator : Type 0 where
  not_op u_sub u_add invert : UnaryOperator

-- The expressions that the validator refuses, whatever they hold.
pub data Comprehension : Type 0 where
  list_comp set_comp dict_comp generator_exp : Comprehension

mutual
  pub data Expr : Type 0 where
    name : String → Expr
    constant : Constant → Expr
    -- The line, the function, the arguments and the keywords.
    call : ℕ → Expr → Exprs → Keywords → Expr
    attribute : Expr → String → Expr
    compare : Expr → Comparisons → Expr
    bool_op : BoolOperator → Exprs → Expr
    bin_op : Expr → BinOperator → Expr → Expr
    unary_op : UnaryOperator → Expr → Expr
    list : Exprs → Expr
    tuple : Exprs → Expr
    subscript : Expr → Expr → Expr
    -- The test, the body and the alternative.
    if_exp : Expr → Expr → Expr → Expr
    comprehension : Comprehension → ℕ → Exprs → Expr
    lambda : ℕ → Exprs → Expr
    yield : ℕ → Exprs → Expr
    yield_from : ℕ → Exprs → Expr
    other : String → Exprs → Expr

  pub data Exprs : Type 0 where
    none_left : Exprs
    item : Expr → Exprs → Exprs

  -- A keyword with no name is `**e`.
  pub data Keywords : Type 0 where
    no_keywords : Keywords
    keyword : Option String → Expr → Keywords → Keywords

  pub data Comparisons : Type 0 where
    end : Comparisons
    against : CmpOperator → Expr → Comparisons → Comparisons

-- The statements that the validator refuses without reading on.
pub data Refused : Type 0 where
  with_stmt try raise_stmt match : Refused

mutual
  pub data Stmt : Type 0 where
    return : Option Expr → Stmt
    -- The targets and the value.
    assign : Exprs → Expr → Stmt
    -- The target, the annotation and the value.
    ann_assign : Expr → Expr → Option Expr → Stmt
    aug_assign : Expr → BinOperator → Expr → Stmt
    if_stmt : Expr → Stmts → Stmts → Stmt
    -- The target, the collection, the body and the `else` part.
    for_stmt : Expr → Expr → Stmts → Stmts → Stmt
    expr_stmt : Expr → Stmt
    continue : Stmt
    break : Stmt
    -- The line, the name, the arguments' parts, the body, the decorators and the result's type.
    function_def : ℕ → String → Exprs → Stmts → Exprs → Stmt
    async_function_def : ℕ → String → Stmts → Stmt
    class_def : ℕ → String → Stmts → Stmt
    import : ℕ → List String → Stmt
    import_from : ℕ → Option String → Stmt
    global : ℕ → List String → Stmt
    nonlocal : ℕ → List String → Stmt
    assert : ℕ → Exprs → Stmt
    refused : Refused → ℕ → Exprs → Stmts → Stmt
    other_stmt : String → Exprs → Stmts → Stmts → Stmt

  pub data Stmts : Type 0 where
    done : Stmts
    then_stmt : Stmt → Stmts → Stmts
