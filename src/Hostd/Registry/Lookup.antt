-- ===== src/Hostd/Registry/Lookup.antt =====
-- What the allowlist of the host executor holds under a name.
use ai_ops_runner.Base.{
  if◌then◌else◌, Option-cases, eq_iff, string_eq, contains, beq_refl, String, ◌≡◌, refl, ◌∙◌, inl,
  inr, Bool, Option, none, some, List, [], ◌∷◌, arith,
}
use ai_ops_runner.Base.Dict
use ai_ops_runner.Base.Dict.{Dict, get-put}
use ai_ops_runner.Base.Json.{Json}
use ai_ops_runner.Base.Text.{Text}
use ai_ops_runner.Hostd.Registry.{
  Spec, Entry, Loading, table, add_aliases, add_entry, build, entries_of,
  load_allowlist_from_registry, on_entries, or_unavailable, fallback_allowlist, allowlist_of,
}

-- the entry's id or one of its aliases
abbrev pub claims : Entry → String → Bool
claims e name = contains (e.id ∷ e.aliases) name

-- the command of the last entry that claims the name
unfoldable pub last_claim : List Entry → String → Option Spec
last_claim [] name = none
last_claim (e ∷ es) name = elim (last_claim es name) [
  | some s ↦ some s
  | none ↦ if claims e name then some e.spec else none
]

abbrev pub or_else : Option Spec → Option Spec → Option Spec
or_else none o = o
or_else (some s) o = some s

get-add_aliases :
    (s : Spec) (ns : List String) (out : Dict Spec) (name : String)
    → Dict.get (add_aliases s ns out) name
      ≡ (if contains ns name then some s else Dict.get out name)
unfolding add_aliases
get-add_aliases s [] out name = refl
get-add_aliases s (n ∷ ns) out name = ground (
  arith,
  get-add_aliases s ns (Dict.put out n s) name,
  get-put out n name s,
  eq_iff n name,
  eq_iff name n,
)

get-add_entry :
    (e : Entry) (out : Dict Spec) (name : String)
    → Dict.get (add_entry e out) name ≡ (if claims e name then some e.spec else Dict.get out name)
unfolding add_entry
get-add_entry e out name = ground (
  arith,
  get-add_aliases e.spec e.aliases (Dict.put out e.id e.spec) name,
  get-put out e.id name e.spec,
  eq_iff e.id name,
  eq_iff name e.id,
)

pub get-build :
    (es : List Entry) (out : Dict Spec) (name : String)
    → Dict.get (build es out) name ≡ or_else (last_claim es name) (Dict.get out name)
unfolding build last_claim
get-build [] out name = refl
get-build (e ∷ es) out name = elim (Option-cases (last_claim es name)) [
  | inl none_later ↦
      ground (arith, get-build es (add_entry e out) name, get-add_entry e out name, none_later)
  | inr (s, later) ↦ ground (arith, get-build es (add_entry e out) name, later)
]

last_claim-head : (e : Entry) (es : List Entry) → (s : Spec) × (last_claim (e ∷ es) e.id ≡ some s)
unfolding last_claim
last_claim-head e es = elim (Option-cases (last_claim es e.id)) [
  | inl none_later ↦ (e.spec, ground (arith, none_later, beq_refl e.id))
  | inr (s, later) ↦ (s, ground (arith, later))
]

or_unavailable-found :
    (d : Dict Spec) (name : String) (s : Spec)
    → Dict.get d name ≡ some s
    → or_unavailable d ≡ table d
unfolding or_unavailable Dict.get
or_unavailable-found [] name s h = ground (arith, h)
or_unavailable-found (e ∷ d) name s h = refl

-- what the name means by the registry's entries
abbrev pub expected : Text → List Entry → String → Option Spec
expected root [] name = Dict.get (fallback_allowlist root) name
expected root (e ∷ es) name = last_claim (e ∷ es) name

get-build_new : (es : List Entry) (name : String) → Dict.get (build es []) name ≡ last_claim es name
unfolding Dict.get
get-build_new es name = elim (Option-cases (last_claim es name)) [
  | inl e ↦ ground (arith, e, get-build es [] name)
  | inr (s, e) ↦ ground (arith, e, get-build es [] name)
]

-- When the registry's entries can be read, there is an allowlist, and under every name it holds the
-- command of the last entry whose id or alias is the name, or that of the fallback when the
-- registry has no usable entry.
pub get-allowlist_of :
    (l : Loading) (v : Json) (es : List Entry)
    → entries_of l v ≡ some es
    → (t : Dict Spec) × (allowlist_of l (load_allowlist_from_registry l (some v)) ≡ some t)
      × ((name : String) → Dict.get t name ≡ expected l.root es name)
unfolding load_allowlist_from_registry on_entries allowlist_of build or_unavailable
get-allowlist_of l v [] h = (fallback_allowlist l.root, rw h refl, λ name. refl)
get-allowlist_of l v (e ∷ es) h =
    let (s, head) = last_claim-head e es in
    let found = get-build_new (e ∷ es) e.id ∙ head in
    (
      build (e ∷ es) [],
      rw (h, or_unavailable-found (build (e ∷ es) []) e.id s found) refl,
      λ name. get-build_new (e ∷ es) name,
    )
