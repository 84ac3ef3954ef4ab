-- ===== src/Transpile/Validator/Judges.antt =====
-- When a report and a list of nodes agree, and how two that agree are put together.
use pmt.Prelude.{◌≡◌, refl, ◌∙◌, Bool, true, false, List, [], ◌∷◌, ◌++◌, ◌&&◌, arith, if◌then◌else◌}
use pmt.Transpile.Reports.{ValidationError, Report, clean, ◌then◌}
use pmt.Transpile.Validator.Nodes.{Node, permitted, all_permitted}

abbrev pub is_empty : List ValidationError → Bool
is_empty [] = true
is_empty (e ∷ es) = false

pub is_empty-append : (a b : List ValidationError) → is_empty (a ++ b) ≡ (is_empty a && is_empty b)
is_empty-append [] b = refl
is_empty-append (e ∷ es) b = refl

pub all_permitted-append :
    (a b : List Node) → all_permitted (a ++ b) ≡ (all_permitted a && all_permitted b)
all_permitted-append [] b = refl
all_permitted-append (n ∷ a) b = ground (arith, all_permitted-append a b)

-- A report has no error exactly if all nodes are permitted.
pub record Judges (r : Report) (ns : List Node) : Type 0 where
  pub judged : is_empty r.errors ≡ all_permitted ns

pub both :
    {r s : Report} {ms ns : List Node} → Judges r ms → Judges s ns → Judges (r then s) (ms ++ ns)
both {r} {s} {ms} {ns} h k = record {
  judged =
      is_empty-append r.errors s.errors
      ∙ ground (arith, h.judged, k.judged, all_permitted-append ms ns);
}

pub silent : Judges clean []
silent = record { judged = refl }

pub below :
    {n : Node} {r : Report} {ns : List Node} → permitted n ≡ true → Judges r ns → Judges r (n ∷ ns)
below e h = record { judged = ground (arith, h.judged) }

pub refusal :
    {n : Node} {r : Report} (ns : List Node)
    → permitted n ≡ false
    → is_empty r.errors ≡ false
    → Judges r (n ∷ ns)
refusal ns e h = record { judged = ground arith }
