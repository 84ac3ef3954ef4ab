-- ===== src/Transpile/Registry/Entries.antt =====
-- Which strategies the registry lists.
use mathlib.Core.List.Perm
use mathlib.Core.List.{Perm, filter_map}
use mathlib.Core.Path.{subst}
use text.Mathlib.Text.{◌==◌}
use Prim.Native.String.{◌++◌}
use pmt.Prelude.{
  ◌≡◌, refl, ap, sym, Option, none, List, [], ◌∷◌, if◌then◌else◌, Bool-cases, inl, inr,
  Option-cases,
}
use pmt.Sort.{Sorted, sort, sort-Sorted, sort-perm}
use pmt.Transpile.Registry.{
  RustFile, StrategyFileInfo, earlier_name, earlier_module, strategy_files, scan_strategy_file,
  scan_files, strategies_of,
}
use pmt.Transpile.Registry.Order.{text_less_asymm, text_less_trans}

-- What a file adds to the registry: nothing if it is `mod.rs` or has no struct.
abbrev pub entry_of : RustFile → Option StrategyFileInfo
entry_of file = if file.module_name ++ ".rs" == "mod.rs" then none else scan_strategy_file file

scan_files-filter_map :
    (files : List RustFile) → scan_files (strategy_files files) ≡ filter_map entry_of files
unfolding scan_files strategy_files filter_map
scan_files-filter_map [] = refl
scan_files-filter_map (file ∷ files) = elim (Bool-cases (file.module_name ++ ".rs" == "mod.rs")) [
  | inl e ↦ rw e (scan_files-filter_map files)
  | inr e ↦ rw e (elim (Option-cases (scan_strategy_file file)) [
    | inl f ↦ rw f (scan_files-filter_map files)
    | inr (info, f) ↦ rw f (ap (λ infos. info ∷ infos) (scan_files-filter_map files))
  ])
]

-- The registry lists the strategies in the order of their module names: each file of the directory that is not
-- `mod.rs` and has a struct is listed once, and nothing else.
pub strategies_of_registered :
    (files : List RustFile)
    → Sorted earlier_module (strategies_of files)
      × Perm (strategies_of files) (filter_map entry_of files)
unfolding strategies_of
strategies_of_registered files =
    let infos = scan_files (strategy_files (sort earlier_name files)) in
    (
      sort-Sorted earlier_module (λ a b h. text_less_asymm a.module_name b.module_name h)
          (λ a b c h k. text_less_trans a.module_name b.module_name c.module_name h k) infos,
      Perm.trans (sort-perm earlier_module infos) (
          subst (λ l. Perm l (filter_map entry_of files))
            (sym (scan_files-filter_map (sort earlier_name files)))
            (Perm.filter_map entry_of (sort-perm earlier_name files))),
    )
