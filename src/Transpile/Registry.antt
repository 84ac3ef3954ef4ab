-- ===== src/Transpile/Registry.antt =====
-- The registry of strategies: `scan_strategy_file` and `generate_mod_rs` of
-- pmstrat/pmstrat/transpile.py. The files of the directory are an argument; word characters and white
-- space are those of ASCII.
pub mod Order
pub mod Entries
use Prim.Native.Char.{Char, code}
use Prim.Native.String.{String, ◌++◌}
use text.Mathlib.Text.{◌==◌}
use pmt.Prelude.{
  Bool, true, false, not, Option, none, some, List, [], ◌∷◌, map, if◌then◌else◌, ◌&&◌, ◌||◌, ltb,
  leb, ◌>>=◌, ◌>>◌, skip_if,
}
use pmt.Sort.{sort}
use pmt.Transpile.Texts.{join, unlines}

-- A file `<module_name>.rs` with its content.
pub record RustFile : Type 0 where
  pub module_name : String
  pub content : String

pub record StrategyFileInfo : Type 0 where
  pub module_name : String
  pub struct_name : String
  pub requires_market_discovery : Bool

-- The order of texts by their code points.
unfoldable pub text_less : String → String → Bool
text_less String.[] String.[] = false
text_less String.[] (String.◌∷◌ d t) = true
text_less (String.◌∷◌ c s) String.[] = false
text_less (String.◌∷◌ c s) (String.◌∷◌ d t) =
    let rest = text_less s t in
    if ltb (code c) (code d) then true else if ltb (code d) (code c) then false else rest

abbrev pub between : Char → Char → Char → Bool
between low high c = leb (code low) (code c) && leb (code c) (code high)

-- `\w` and `\s` of a regular expression.
unfoldable pub is_word : Char → Bool
is_word c = between "a" "z" c || between "A" "Z" c || between "0" "9" c || between "_" "_" c

unfoldable pub is_space : Char → Bool
is_space c = (leb 9 (code c) && leb (code c) 13) || (leb 28 (code c) && leb (code c) 32)

-- The rest of a text after a prefix.
unfoldable pub after_prefix : String → String → Option String
after_prefix String.[] s = some s
after_prefix (String.◌∷◌ c p) String.[] = none
after_prefix (String.◌∷◌ c p) (String.◌∷◌ d s) =
    let rest = after_prefix p s in
    if leb (code c) (code d) && leb (code d) (code c) then rest else none

unfoldable pub skip_space : String → String
skip_space String.[] = ""
skip_space (String.◌∷◌ c s) = let rest = skip_space s in if is_space c then rest else String.◌∷◌ c s

-- The word characters at the beginning of a text, and the rest.
unfoldable pub split_word : String → String × String
split_word String.[] = ("", "")
split_word (String.◌∷◌ c s) =
    let rest = split_word s in
    if is_word c then (String.◌∷◌ c rest.0, rest.1) else ("", String.◌∷◌ c s)

-- `pub struct (\w+)\s*\{` at the beginning of a text: the word.
unfoldable pub struct_here : String → Option String
struct_here s = do
  rest ← after_prefix "pub struct " s
  let word = split_word rest
  skip_if (word.0 == "")
  after_prefix "{" (skip_space word.1)
  some word.0

-- The first position where there is one.
unfoldable pub find_struct : String → Option String
find_struct String.[] = none
find_struct (String.◌∷◌ c s) = elim (struct_here (String.◌∷◌ c s)) [
  | none ↦ find_struct s
  | some word ↦ some word
]

-- `tokens:\s*vec!\[\s*\]` at the beginning of a text.
unfoldable pub empty_tokens_here : String → Option String
empty_tokens_here s = do
  rest ← after_prefix "tokens:" s
  items ← after_prefix "vec![" (skip_space rest)
  after_prefix "]" (skip_space items)

unfoldable pub has_empty_tokens : String → Bool
has_empty_tokens String.[] = false
has_empty_tokens (String.◌∷◌ c s) = elim (empty_tokens_here (String.◌∷◌ c s)) [
  | none ↦ has_empty_tokens s
  | some rest ↦ true
]

unfoldable pub scan_strategy_file : RustFile → Option StrategyFileInfo
scan_strategy_file file = do
  struct_name ← find_struct file.content
  some (record {
    module_name = file.module_name;
    struct_name = struct_name;
    requires_market_discovery = has_empty_tokens file.content;
  })

abbrev pub earlier_name : RustFile → RustFile → Bool
earlier_name a b = text_less (a.module_name ++ ".rs") (b.module_name ++ ".rs")

abbrev pub earlier_module : StrategyFileInfo → StrategyFileInfo → Bool
earlier_module a b = text_less a.module_name b.module_name

-- The files but `mod.rs`.
unfoldable pub strategy_files : List RustFile → List RustFile
strategy_files [] = []
strategy_files (file ∷ files) =
    let rest = strategy_files files in
    if file.module_name ++ ".rs" == "mod.rs" then rest else file ∷ rest

abbrev pub with_info : Option StrategyFileInfo → List StrategyFileInfo → List StrategyFileInfo
with_info none infos = infos
with_info (some info) infos = info ∷ infos

unfoldable pub scan_files : List RustFile → List StrategyFileInfo
scan_files [] = []
scan_files (file ∷ files) = with_info (scan_strategy_file file) (scan_files files)

-- The strategies of a directory, in the order of the registry.
unfoldable pub strategies_of : List RustFile → List StrategyFileInfo
strategies_of files = sort earlier_module (scan_files (strategy_files (sort earlier_name files)))

unfoldable pub mod_decl : StrategyFileInfo → String
mod_decl s = "mod " ++ s.module_name ++ ";"

unfoldable pub pub_use : StrategyFileInfo → String
pub_use s = "pub use " ++ s.module_name ++ "::" ++ s.struct_name ++ ";"

abbrev pub rust_bool : Bool → String
rust_bool b = if b then "true" else "false"

unfoldable pub registry_entry : StrategyFileInfo → String
registry_entry s = unlines (
    ("    m.insert(\"" ++ s.module_name ++ "\", StrategyInfo {")
    ∷ ("        factory: || Box::new(" ++ s.module_name ++ "::" ++ s.struct_name ++ "::new()),")
    ∷ ("        requires_market_discovery: " ++ rust_bool s.requires_market_discovery ++ ",")
    ∷ "    });"
    ∷ [])

unfoldable pub mod_rs_text : String → String → String → String
mod_rs_text mod_decls pub_uses registry_body = unlines (
    "//! Auto-generated strategy registry - DO NOT EDIT MANUALLY"
    ∷ "//! Regenerate with: pmstrat transpile --all" ∷ "" ∷ mod_decls ∷ ""
    ∷ "use std::collections::HashMap;" ∷ "use crate::strategy::Strategy;" ∷ "" ∷ pub_uses ∷ ""
    ∷ "/// Information about a strategy in the registry." ∷ "pub struct StrategyInfo {"
    ∷ "    /// Factory function to create a new instance of the strategy."
    ∷ "    pub factory: fn() -> Box<dyn Strategy>,"
    ∷ "    /// Whether this strategy requires market discovery (empty tokens list)."
    ∷ "    pub requires_market_discovery: bool," ∷ "}" ∷ ""
    ∷ "/// Returns the strategy registry - a map of strategy names to their info." ∷ "///"
    ∷ "/// This function is called by the engine to look up strategies by name."
    ∷ "/// The registry is auto-generated by `pmstrat transpile --all`."
    ∷ "pub fn registry() -> HashMap<&'static str, StrategyInfo> {"
    ∷ "    let mut m = HashMap::new();" ∷ "" ∷ registry_body ∷ "" ∷ "    m" ∷ "}" ∷ "" ∷ [])

unfoldable pub generate_mod_rs : List RustFile → String
generate_mod_rs files =
    let strategies = strategies_of files in
    mod_rs_text (unlines (map mod_decl strategies)) (unlines (map pub_use strategies))
      (join "\n\n" (map registry_entry strategies))
