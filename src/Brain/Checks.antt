-- ===== src/Brain/Checks.antt =====
-- What the brain loop compares: the failed checks as a sorted set, and `decide_event`.
pub mod Sets
pub mod Silence
pub mod Recovery
use ai_ops_runner.Base.{
  ltb, nat_beq, if◌then◌else◌, Bool, true, false, ◌&&◌, Option, none, some, List, [], ◌∷◌,
}
use ai_ops_runner.Base.Text.{Text, strip, text_eq}

-- the order of Python's texts, by code points
text_ltb : Text → Text → Bool
text_ltb s [] = false
text_ltb [] (d ∷ t) = true
text_ltb (c ∷ s) (d ∷ t) = let later = text_ltb s t in if nat_beq c d then later else ltb c d

-- a sorted list without repeats, with one text more
insert_check : Text → List Text → List Text
unfolding text_ltb
insert_check t [] = t ∷ []
insert_check t (u ∷ us) =
    let rest = insert_check t us in
    if text_eq t u then u ∷ us else if text_ltb t u then t ∷ u ∷ us else u ∷ rest

add_check : Text → List Text → List Text
unfolding insert_check
add_check [] set = set
add_check (c ∷ s) set = insert_check (c ∷ s) set

-- `normalize_failed_checks`, on what `str` makes of the items
unfoldable pub normalize_failed_checks : List Text → List Text
unfolding add_check
normalize_failed_checks [] = []
normalize_failed_checks (t ∷ ts) = add_check (strip t) (normalize_failed_checks ts)

abbrev pub checks_eq : List Text → List Text → Bool
checks_eq [] [] = true
checks_eq [] (u ∷ us) = false
checks_eq (t ∷ ts) [] = false
checks_eq (t ∷ ts) (u ∷ us) = text_eq t u && checks_eq ts us

pub data MatrixStatus : Type 0 where
  pass fail : MatrixStatus

pub data Event : Type 0 where
  first_fail pass_to_fail fail_to_pass fail_checks_changed : Event

-- what a run has seen: the status, where all but PASS counts as FAIL, and the failed checks
pub record Seen : Type 0 where
  pub status : MatrixStatus
  pub failed_checks : List Text

alert : Event → Option Event × Bool
alert e = (some e, true)

quiet : Option Event × Bool
quiet = (none, false)

on_first : MatrixStatus → Bool → Option Event × Bool
unfolding alert quiet
on_first pass alert_on_first_fail = quiet
on_first fail alert_on_first_fail = if alert_on_first_fail then alert first_fail else quiet

on_change : MatrixStatus → MatrixStatus → List Text → List Text → Option Event × Bool
unfolding alert quiet
on_change pass fail was now = alert pass_to_fail
on_change fail pass was now = alert fail_to_pass
on_change fail fail was now = if checks_eq was now then quiet else alert fail_checks_changed
on_change pass pass was now = quiet

-- `decide_event`: the event, and whether an alert is needed
unfoldable pub decide_event : Option Seen → Seen → Bool → Option Event × Bool
unfolding on_first on_change
decide_event none now alert_on_first_fail = on_first now.status alert_on_first_fail
decide_event (some prev) now alert_on_first_fail =
    on_change prev.status now.status (normalize_failed_checks prev.failed_checks)
      (normalize_failed_checks now.failed_checks)
