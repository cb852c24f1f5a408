-- ===== src/Runner/Executor/Environment.antt =====
-- The variables that a job's command sees.
use ai_ops_runner.Base.{
  if◌then◌else◌, Bool-cases, string_eq, contains, String, ◌≡◌, refl, sym, ap, ◌∙◌, inl, inr, Bool,
  true, false, ◌&&◌, Option, none, some, List, [], ◌∷◌, arith,
}
use ai_ops_runner.Base.Dict.{Dict}
use ai_ops_runner.Base.Text.{Text, codes, text_eq, text_eq_iff}
use ai_ops_runner.Runner.Allowlist.{AllowedJob}
use ai_ops_runner.Runner.Executor.Setting.{Environ, upper, set_variable, add_params, Machine}
use ai_ops_runner.Runner.Executor.{launch_of}

-- the value of a variable
unfoldable pub lookup : Environ → Text → Option String
lookup [] k = none
lookup ((j, v) ∷ env) k = let rest = lookup env k in if text_eq j k then some v else rest

unfoldable pub or_value : Option String → Option String → Option String
or_value none other = other
or_value (some v) other = some v

-- the last allowed parameter whose name in capitals is the variable's
unfoldable pub param_for : List String → Dict String → Text → Option String
unfolding or_value
param_for names [] k = none
param_for names ((j, v) ∷ ps) k =
    or_value (param_for names ps k)
      (if contains names j && text_eq (upper (codes j)) k then some v else none)

lookup-set_variable :
    (env : Environ) (k j : Text) (v : String)
    → lookup (set_variable env k v) j ≡ (if text_eq k j then some v else lookup env j)
unfolding lookup set_variable
lookup-set_variable [] k j v = refl
lookup-set_variable ((i, x) ∷ env) k j v = elim (Bool-cases (text_eq i k)) [
  | inl e ↦ ground (arith, e, text_eq_iff i k, text_eq_iff i j, text_eq_iff k j)
  | inr e ↦
      ground
        (arith, e, text_eq_iff i k, text_eq_iff i j, text_eq_iff k j, lookup-set_variable env k j v)
]

or_value_assoc : (a b c : Option String) → or_value (or_value a b) c ≡ or_value a (or_value b c)
unfolding or_value
or_value_assoc none b c = refl
or_value_assoc (some v) b c = refl

or_value_if :
    (b : Bool) (v : String) (c : Option String)
    → (if b then some v else c) ≡ or_value (if b then some v else none) c
unfolding or_value
or_value_if true v c = refl
or_value_if false v c = refl

lookup-add_params :
    (names : List String) (ps : Dict String) (env : Environ) (k : Text)
    → lookup (add_params names ps env) k ≡ or_value (param_for names ps k) (lookup env k)
unfolding add_params param_for or_value
lookup-add_params names [] env k = refl
lookup-add_params names ((j, v) ∷ ps) env k = elim (Bool-cases (contains names j)) [
  | inr e ↦ rw e (
      lookup-add_params names ps env k
      ∙ sym (or_value_assoc (param_for names ps k) none (lookup env k)))
  | inl e ↦
      let own = text_eq (upper (codes j)) k in
      rw e (
        lookup-add_params names ps (set_variable env (upper (codes j)) v) k
        ∙ ap (or_value (param_for names ps k))
            (lookup-set_variable env (upper (codes j)) k v ∙ or_value_if own v (lookup env k))
        ∙ sym (or_value_assoc (param_for names ps k) (if own then some v else none) (lookup env k)))
]

-- The command of a job sees under each name the value of the last parameter that the allowlist allows
-- and whose name in capitals it is; else, under ARTIFACT_DIR, the directory of the job; and else
-- what the worker's own environment has.
pub lookup-launch_of :
    (m : Machine) (path : String) (a : AllowedJob) (ps : Dict String) (id : String) (k : Text)
    → lookup (launch_of m path a ps id).env k
      ≡ or_value (param_for a.allowed_params ps k) (
          if text_eq (codes "ARTIFACT_DIR") k then some (m.artifact_dir id) else lookup m.environ k)
unfolding launch_of
lookup-launch_of m path a ps id k =
    lookup-add_params a.allowed_params ps _ k
    ∙ ap (or_value (param_for a.allowed_params ps k))
        (lookup-set_variable m.environ (codes "ARTIFACT_DIR") k (m.artifact_dir id))
