-- ===== src/Tests/Generating.antt =====
-- Generated texts.
use pmt.Prelude.{◌≡◌, refl, true, some, [], ◌∷◌}
use pmt.Transpile.Syntax.{
  eq_op, sub, u_sub, not_op, add, pow, name, compare, bin_op, unary_op, none_left, item, end,
  against, assign, if_stmt, Stmts, done, then_stmt,
}
use pmt.Transpile.Texts.{has, join, unlines}
use pmt.Transpile.Terms.{gen_name}
use pmt.Transpile.Operators.{
  gen_binop, gen_cmpop, is_bin_op, unary_text, compare_texts, chain, is_null,
}
use pmt.Transpile.Expressions.{gen_expr}
use pmt.Transpile.Module.{generate, function_body, body_of}
use pmt.Transpile.Chars.{pascal}
use pmt.Transpile.Options.{returns, none_check, attr_check, name_assign, attr_value, preprocess}
use pmt.Transpile.Scan.{scan_mutability}
use pmt.Transpile.Params.{sequence, bool_value, param_to_rust, sequence_to_rust}
use pmt.Transpile.Module.{gen_function_body}
use pmt.Tests.Transpiling.{body, set_to}

-- Only the first target of `a = b = c` is generated, and `a = d` assigns to a variable that is not
-- declared as mutable.
abbrev chained : Stmts
chained =
    then_stmt (assign (item (name "a") (item (name "b") none_left)) (name "c"))
      (then_stmt (set_to "a" (name "d")) done)

-- Of two branches that assign a variable only the first declares it.
abbrev branches : Stmts
branches =
    then_stmt
      (if_stmt (name "c") (then_stmt (set_to "x" (name "a")) done)
        (then_stmt (set_to "x" (name "b")) done))
      done

generated_texts :
    (gen_function_body [] body
      ≡ some (
          unlines (
            "        let mut signals = vec![];"
            ∷ "        let book = match ctx.order_books.get(\"tok\".to_string()) {"
            ∷ "            Some(v) => v," ∷ "            None => return signals," ∷ "        };"
            ∷ "        let bid = match book.best_bid() {" ∷ "            Some(v) => v.price,"
            ∷ "            None => return signals," ∷ "        };"
            ∷ "        signals.push(Signal::Buy { token_id: \"tok\".to_string(), price: bid, size: dec!(10), urgency: Urgency::Low });"
            ∷ "        return signals;" ∷ [])))
    × (gen_function_body [] chained ≡ some "        let a = c;\n        a = d;")
    × (gen_function_body [] branches
        ≡ some
            "        if c {\n            let mut x = a;\n        } else {\n            x = b;\n        }")
unfolding gen_function_body pmt.Transpile.Statements.else_lines pmt.Transpile.Statements.elif_lines
    pmt.Transpile.Statements.sequence pmt.Transpile.Statements.no_lines
    pmt.Transpile.Statements.is_if pmt.Transpile.Texts.followed_by
    pmt.Transpile.Statements.gen_items pmt.Transpile.Module.skip_docstrings
    pmt.Transpile.Options.process pmt.Transpile.Statements.generators
    pmt.Transpile.Options.find_pattern pmt.Transpile.Options.find_next
    pmt.Transpile.Options.next_stmt pmt.Transpile.Options.name_check pmt.Transpile.Options.find_kept
    pmt.Transpile.Options.find_taken pmt.Transpile.Module.is_docstring
    pmt.Transpile.Bindings.gen_assign pmt.Transpile.Bindings.gen_match_unwrap
    pmt.Transpile.Bindings.gen_return pmt.Transpile.Bindings.is_level_attr
    pmt.Transpile.Bindings.is_string_type pmt.Transpile.Bindings.none_arm
    pmt.Transpile.Bindings.set_variable pmt.Transpile.Calls.all_of pmt.Transpile.Calls.borrowed
    pmt.Transpile.Calls.decimal_call pmt.Transpile.Calls.function_call
    pmt.Transpile.Calls.gen_urgency pmt.Transpile.Calls.method_call pmt.Transpile.Calls.named
    pmt.Transpile.Calls.owned pmt.Transpile.Calls.signal_call pmt.Transpile.Chars.replace_after
    pmt.Transpile.Module.scan pmt.Transpile.Scan.mutated pmt.Transpile.Scan.name_of
    pmt.Transpile.Scan.note_assigned pmt.Transpile.Scan.one_target pmt.Transpile.Scan.scan_int_vars
    pmt.Transpile.Scan.check_compare_for_int_vars pmt.Transpile.Terms.attribute_of
    pmt.Transpile.Terms.gen_constant pmt.Transpile.Terms.get pmt.Transpile.Terms.shown
    pmt.Transpile.Texts.indent pmt.Transpile.Statements.some_test pmt.Transpile.Statements.gen_if
    preprocess name_assign none_check attr_check attr_value gen_expr scan_mutability join has
    gen_name pmt.Dict.lookup pmt.Transpile.Scan.compared_on_left
    pmt.Transpile.Scan.compared_on_right
generated_texts = (refl, refl, refl)

-- The generated text is the same for `a ** b` and for `a + b`.
power :
    gen_expr [] (bin_op (name "a") pow (name "b")) ≡ gen_expr [] (bin_op (name "a") add (name "b"))
unfolding gen_expr gen_binop
power = refl

-- The generated text is the same for `-(a - b)` and for `-a - b`.
negated :
    gen_expr [] (unary_op u_sub (bin_op (name "a") sub (name "b")))
    ≡ gen_expr [] (bin_op (unary_op u_sub (name "a")) sub (name "b"))
unfolding gen_expr unary_text gen_name gen_binop is_bin_op pmt.Dict.lookup
negated = refl

-- The generated text is the same for `not (a == b)` and for `(not a) == b`.
not_equal :
    gen_expr [] (unary_op not_op (compare (name "a") (against eq_op (name "b") end)))
    ≡ gen_expr [] (compare (unary_op not_op (name "a")) (against eq_op (name "b") end))
unfolding gen_expr unary_text gen_name compare_texts chain join gen_cmpop is_null pmt.Dict.lookup
not_equal = refl

-- A list of Booleans has the type and the literal of a list of integers.
booleans : param_to_rust "FLAGS" (sequence (bool_value true ∷ [])) ≡ ("&[i64]", "&[True]")
unfolding param_to_rust sequence_to_rust join pmt.Transpile.Params.shown_value
booleans = refl
