-- ===== src/Transpile/Statements/Total.antt =====
-- The bodies of functions for which a text is generated.
use mathlib.Core.Bool.{true≢false}
use pmt.Prelude.{sym, ℕ, suc, ◌≡◌, refl, Bool, true, false, none, some, List, [], ◌∷◌, ◌&&◌, All}
use pmt.Transpile.Syntax.{
  none_left, item, Stmt, return, assign, ann_assign, aug_assign, if_stmt, for_stmt, expr_stmt,
  continue, break, function_def, async_function_def, class_def, import, import_from, global,
  nonlocal, assert, refused, other_stmt, Stmts, done, then_stmt,
}
use pmt.Transpile.Expressions.Gives.{gives, Gives-bind}
use pmt.Transpile.Expressions.Total.{decimals, gen_expr-Gives}
use pmt.Transpile.Options.{
  Item, Pending, no_pending, Found, with_next, kept, taken, stays, find_pattern, next_stmt, out,
  pending_after, skips, process, preprocess,
}
use pmt.Transpile.Bindings.{Config, Gen, Block}
use pmt.Transpile.Statements.{
  gen_items, sequence, is_if, orelse_of, no_lines, stmt_of, some_test, markets_iteration, gen_stmt,
  gen_block, gen_orelse, generators,
}
use pmt.Transpile.Statements.Sound.{
  takes_name, is_sound, are_sound, IsSoundPending, IsSoundFound, find_pattern_sound,
  find_last_sound, set_pending_sound,
}
use pmt.Transpile.Statements.Parts.{
  Runs, first_holds, second_holds, gen_assign-Runs, gen_ann_assign-Runs, gen_return-Runs,
  sequence-Runs, OrelseRuns, gen_if-Runs, gen_for-Runs, Ready, ItemRuns, gen_items-Runs,
}

out-Runs :
    (found : Found) (a : Stmt × Gen) (rest : List (Item (Stmt × Gen)))
    → IsSoundFound found
    → Runs a.1
    → All ItemRuns rest
    → All ItemRuns (out stmt_of found a rest)
out-Runs (with_next m) a rest f r h = (f, h)
out-Runs (kept obj attr action) a rest f r h = h
out-Runs (taken obj attr m) a rest f r h = (f, h)
out-Runs stays a rest f r h = (r, h)

pending_after_sound :
    (found : Found) (p : Pending)
    → IsSoundFound found
    → IsSoundPending p
    → IsSoundPending (pending_after stmt_of found p)
pending_after_sound (with_next m) p f ps = ps
pending_after_sound (kept obj attr action) p f ps = set_pending_sound p ps obj attr (some action) f
pending_after_sound (taken obj attr m) p f ps = set_pending_sound p ps obj attr none refl
pending_after_sound stays p f ps = ps

find_sound :
    (p : Pending) (a : Stmt × Gen) (rest : List (Stmt × Gen))
    → IsSoundPending p
    → is_sound a.0 ≡ true
    → All Ready rest
    → IsSoundFound (find_pattern p (stmt_of a) (next_stmt stmt_of rest))
unfolding next_stmt
find_sound p a [] ps h k = find_last_sound p ps a.0 h
find_sound p a (b ∷ rest) ps h k = find_pattern_sound p ps a.0 b.0 h k.0.0

process-Runs :
    (skip : Bool) (p : Pending) (stmts : List (Stmt × Gen))
    → IsSoundPending p
    → All Ready stmts
    → All ItemRuns (process stmt_of skip p stmts)
unfolding process
process-Runs skip p [] ps h = tt
process-Runs true p (a ∷ rest) ps h = process-Runs false p rest ps h.1
process-Runs false p (a ∷ rest) ps h =
    let found = find_pattern p (stmt_of a) (next_stmt stmt_of rest) in
    let sound = find_sound p a rest ps h.0.0 h.1 in
    out-Runs found a (process stmt_of (skips stmt_of found) (pending_after stmt_of found p) rest)
      sound h.0.1
      (process-Runs (skips stmt_of found) (pending_after stmt_of found p) rest
        (pending_after_sound found p sound ps) h.1)

pub preprocess-Runs :
    (stmts : List (Stmt × Gen)) → All Ready stmts → All ItemRuns (preprocess stmt_of stmts)
unfolding preprocess
preprocess-Runs stmts h = process-Runs false no_pending stmts (λ obj attr. refl) h

orelse_of-Runs :
    (conditional : Bool) (gen : Gen) (block : Block)
    → Runs gen
    → Runs block
    → OrelseRuns (orelse_of conditional gen block)
orelse_of-Runs true gen block g b = (g, b)
orelse_of-Runs false gen block g b = b

no_lines-Runs : Runs no_lines
unfolding no_lines
no_lines-Runs env = gives

mutual
  unfolding gen_stmt gen_block gen_orelse generators is_sound are_sound

  gen_stmt-Runs :
      (config : Config) (level : ℕ) (stmt : Stmt)
      → is_sound stmt ≡ true
      → Runs (gen_stmt config level stmt)
  gen_stmt-Runs config level (return value) h = gen_return-Runs level value h
  gen_stmt-Runs config level (assign none_left value) h = absurd (true≢false (sym h))
  gen_stmt-Runs config level (assign (item target targets) value) h =
      let named = takes_name target value in
      gen_assign-Runs config level target targets value
        (first_holds (decimals target) (decimals value && named) h)
        (first_holds (decimals value) named
          (second_holds (decimals target) (decimals value && named) h))
  gen_stmt-Runs config level (ann_assign target annotation none) h = λ env. gives
  gen_stmt-Runs config level (ann_assign target annotation (some value)) h =
      gen_ann_assign-Runs config level target value
        (first_holds (decimals target) (decimals value) h)
        (second_holds (decimals target) (decimals value) h)
  gen_stmt-Runs config level (aug_assign target op value) h = λ env.
      Gives-bind _
        (gen_expr-Gives env.strings target (first_holds (decimals target) (decimals value) h))
        (λ t.
          Gives-bind _
            (gen_expr-Gives env.strings value (second_holds (decimals target) (decimals value) h))
            (λ v. gives))
  gen_stmt-Runs config level (if_stmt test body orelse) h =
      let parts = second_holds (decimals test) (are_sound body && are_sound orelse) h in
      gen_if-Runs level test (some_test test) (gen_block config (suc level) body)
        (gen_orelse config level orelse)
        (first_holds (decimals test) (are_sound body && are_sound orelse) h)
        (gen_block-Runs config (suc level) body
          (first_holds (are_sound body) (are_sound orelse) parts))
        (gen_orelse-Runs config level orelse
          (second_holds (are_sound body) (are_sound orelse) parts))
  gen_stmt-Runs config level (for_stmt target iter body orelse) h =
      let parts = second_holds (decimals target) (decimals iter && are_sound body) h in
      let sound = second_holds (decimals iter) (are_sound body) parts in
      gen_for-Runs level target iter (markets_iteration target iter)
        (gen_block config (suc level) body)
        (gen_items (suc level) (preprocess stmt_of (generators config (suc level) body)))
        (first_holds (decimals target) (decimals iter && are_sound body) h)
        (first_holds (decimals iter) (are_sound body) parts)
        (gen_block-Runs config (suc level) body sound)
        (gen_items-Runs (suc level) (preprocess stmt_of (generators config (suc level) body)) (
          preprocess-Runs (generators config (suc level) body)
            (generators-Ready config (suc level) body sound)))
  gen_stmt-Runs config level (expr_stmt e) h =
      λ env. Gives-bind _ (gen_expr-Gives env.strings e h) (λ t. gives)
  gen_stmt-Runs config level continue h = λ env. gives
  gen_stmt-Runs config level break h = λ env. gives
  gen_stmt-Runs config level (function_def _ _ _ _ _) h = λ env. gives
  gen_stmt-Runs config level (async_function_def _ _ _) h = λ env. gives
  gen_stmt-Runs config level (class_def _ _ _) h = λ env. gives
  gen_stmt-Runs config level (import _ _) h = λ env. gives
  gen_stmt-Runs config level (import_from _ _) h = λ env. gives
  gen_stmt-Runs config level (global _ _) h = λ env. gives
  gen_stmt-Runs config level (nonlocal _ _) h = λ env. gives
  gen_stmt-Runs config level (assert _ _) h = λ env. gives
  gen_stmt-Runs config level (refused kind _ _ _) h = λ env. gives
  gen_stmt-Runs config level (other_stmt class_name _ _ _) h = λ env. gives

  gen_block-Runs :
      (config : Config) (level : ℕ) (stmts : Stmts)
      → are_sound stmts ≡ true
      → Runs (gen_block config level stmts)
  gen_block-Runs config level done h = no_lines-Runs
  gen_block-Runs config level (then_stmt stmt stmts) h =
      sequence-Runs (gen_stmt config level stmt) (gen_block config level stmts)
        (gen_stmt-Runs config level stmt (first_holds (is_sound stmt) (are_sound stmts) h))
        (gen_block-Runs config level stmts (second_holds (is_sound stmt) (are_sound stmts) h))

  gen_orelse-Runs :
      (config : Config) (level : ℕ) (stmts : Stmts)
      → are_sound stmts ≡ true
      → OrelseRuns (gen_orelse config level stmts)
  gen_orelse-Runs config level done h = tt
  gen_orelse-Runs config level (then_stmt stmt done) h =
      let sound = first_holds (is_sound stmt) true h in
      orelse_of-Runs (is_if stmt) (gen_stmt config level stmt)
        (sequence (gen_stmt config (suc level) stmt) no_lines)
        (gen_stmt-Runs config level stmt sound)
        (sequence-Runs (gen_stmt config (suc level) stmt) no_lines
          (gen_stmt-Runs config (suc level) stmt sound) no_lines-Runs)
  gen_orelse-Runs config level (then_stmt stmt (then_stmt next stmts)) h =
      let parts = second_holds (is_sound stmt) (is_sound next && are_sound stmts) h in
      sequence-Runs (gen_stmt config (suc level) stmt)
        (sequence (gen_stmt config (suc level) next) (gen_block config (suc level) stmts))
        (gen_stmt-Runs config (suc level) stmt
          (first_holds (is_sound stmt) (is_sound next && are_sound stmts) h))
        (sequence-Runs (gen_stmt config (suc level) next) (gen_block config (suc level) stmts)
          (gen_stmt-Runs config (suc level) next
            (first_holds (is_sound next) (are_sound stmts) parts))
          (gen_block-Runs config (suc level) stmts
            (second_holds (is_sound next) (are_sound stmts) parts)))

  pub generators-Ready :
      (config : Config) (level : ℕ) (stmts : Stmts)
      → are_sound stmts ≡ true
      → All Ready (generators config level stmts)
  generators-Ready config level done h = tt
  generators-Ready config level (then_stmt stmt stmts) h =
      let sound = first_holds (is_sound stmt) (are_sound stmts) h in
      (
        (sound, gen_stmt-Runs config level stmt sound),
        generators-Ready config level stmts (second_holds (is_sound stmt) (are_sound stmts) h),
      )
