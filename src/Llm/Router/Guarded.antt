-- ===== src/Llm/Router/Guarded.antt =====
-- What stops a request before any provider is called.
use ai_ops_runner.Base.{
  if◌then◌else◌, Bool-cases, Option-cases, ◌==◌, string_eq, contains, String, ◌≡◌, refl, ap, subst,
  ◌≢◌, ◌↔◌, inl, inr, Bool, true, false, not, ◌&&◌, Option, none, some, [], ◌∷◌, ◌++◌, arith,
}
use mathlib.Core.Option.{some-injective}
use ai_ops_runner.Base.Dict
use ai_ops_runner.Base.Text.{Text}
use ai_ops_runner.Llm.Transient.{classify_transient, is_non_transient}
use ai_ops_runner.Llm.Types.{LlmRequest, LlmResponse, PurposeRoute, Transient}
use ai_ops_runner.Llm.Guard.{GuardArtifact, check_guard}
use ai_ops_runner.Llm.Router.{
  Session, Provider, Router, err, Error, cost_guard_tripped, openai_key_missing, openai_missing, ok,
  Result, Answer, answer, raises, resolve_openai, resolve_route, finish, ask, routed,
  fallback_answer, try_fallback, after_primary, within_budget, resolve, resolve_review,
  generate_review, dispatch, guarded, review_with, generate,
}

-- the error is not that of the spending guard
IsOther : Error → Type 0
IsOther (cost_guard_tripped a) = ⊥
IsOther _ = Unit

IsUntripped : {A : Type 0} → Result A → Type 0
IsUntripped (ok a) = Unit
IsUntripped (err e) = IsOther e

resolve_review-IsUntripped : (r : Router) → IsUntripped (resolve_review r)
unfolding resolve_review IsUntripped IsOther
resolve_review-IsUntripped r = elim (Option-cases (Dict.get r.providers "openai")) [
  | inl e ↦ rw (resolve_review, e) tt
  | inr (p, e) ↦ elim (Bool-cases p.is_configured) [
    | inr n ↦ rw (resolve_review, e, n) tt
    | inl y ↦ elim (Bool-cases (r.codex_review_model == "gpt-4o" && not r.allow_expensive)) [
      | inl d ↦ rw (resolve_review, e, y, d) tt
      | inr d ↦ rw (resolve_review, e, y, d) tt
    ]
  ]
]

resolve_openai-IsUntripped :
    (r : Router) (purpose : String) (o : Option PurposeRoute)
    → IsUntripped (resolve_openai r purpose o)
unfolding resolve_openai IsUntripped IsOther
resolve_openai-IsUntripped r purpose o = elim (Option-cases (Dict.get r.providers "openai")) [
  | inl e ↦ rw (resolve_openai, e) tt
  | inr (p, e) ↦ rw (resolve_openai, e) tt
]

resolve_route-IsUntripped :
    (r : Router) (purpose : String) (o : Option PurposeRoute)
    → IsUntripped (resolve_route r purpose o)
unfolding resolve_route IsUntripped
resolve_route-IsUntripped r purpose none = resolve_openai-IsUntripped r purpose none
resolve_route-IsUntripped r purpose (some route) =
    elim (Option-cases (Dict.get r.providers route.provider)) [
      | inl e ↦ rw (resolve_route, e) (resolve_openai-IsUntripped r purpose (some route))
      | inr (p, e) ↦ elim (Bool-cases (contains r.config.enabled_providers route.provider)) [
        | inl y ↦ rw (resolve_route, e, y) tt
        | inr n ↦ rw (resolve_route, e, n) (resolve_openai-IsUntripped r purpose (some route))
      ]
    ]

resolve-IsUntripped : (r : Router) (purpose : String) → IsUntripped (resolve r purpose)
unfolding resolve
resolve-IsUntripped r purpose = elim (Bool-cases (purpose == "review")) [
  | inl e ↦ rw e (resolve_review-IsUntripped r)
  | inr e ↦ rw e (resolve_route-IsUntripped r purpose (Dict.get r.config.defaults purpose))
]

finish-IsUntripped :
    (r : Router) (action : String) (x : Answer) (s : Session) → IsUntripped (finish r action x s).1
unfolding finish IsUntripped IsOther
finish-IsUntripped r action (answer response) s = tt
finish-IsUntripped r action (raises e) s = tt

routed-IsUntripped :
    (r : Router) (q : LlmRequest) (o : Result (Provider × String)) (s : Session)
    → IsUntripped o
    → IsUntripped (routed r q o s).1
unfolding routed ask IsUntripped
routed-IsUntripped r q (err e) s h = h
routed-IsUntripped r q (ok (p, model)) s h = finish-IsUntripped r _ _ _

fallback_answer-IsUntripped :
    (r : Router) (primary : Text) (cls : Transient) (x : Answer) (s : Session)
    → IsUntripped (fallback_answer r primary cls x s).1
unfolding fallback_answer IsUntripped IsOther
fallback_answer-IsUntripped r primary cls (answer response) s = tt
fallback_answer-IsUntripped r primary cls (raises e) s = tt

try_fallback-IsUntripped :
    (r : Router) (q : LlmRequest) (primary : Text) (cls : Transient)
    (o : Option (Provider × String)) (s : Session)
    → IsUntripped (try_fallback r q primary cls o s).1
unfolding try_fallback IsUntripped IsOther
try_fallback-IsUntripped r q primary cls none s = tt
try_fallback-IsUntripped r q primary cls (some (p, model)) s =
    elim (Bool-cases (within_budget r model q p)) [
      | inr e ↦ rw e tt
      | inl e ↦ rw e (fallback_answer-IsUntripped r primary cls _ _)
    ]

after_primary-IsUntripped :
    (r : Router) (q : LlmRequest) (x : Answer) (s : Session) → IsUntripped (after_primary r q x s).1
unfolding after_primary IsUntripped IsOther
after_primary-IsUntripped r q (answer response) s = tt
after_primary-IsUntripped r q (raises e) s =
    elim (Bool-cases (is_non_transient (classify_transient e))) [
      | inl y ↦ rw y tt
      | inr n ↦ rw n (try_fallback-IsUntripped r q e _ _ s)
    ]

review_with-IsUntripped :
    (r : Router) (q : LlmRequest) (o : Result (Provider × String)) (s : Session)
    → IsUntripped o
    → IsUntripped (review_with r q o s).1
unfolding review_with IsUntripped IsOther
review_with-IsUntripped r q (err e) s h = h
review_with-IsUntripped r q (ok (p, model)) s h = elim (Bool-cases (within_budget r model q p)) [
  | inr e ↦ rw e tt
  | inl e ↦ rw e (after_primary-IsUntripped r q _ _)
]

dispatch-IsUntripped : (r : Router) (q : LlmRequest) (s : Session) → IsUntripped (dispatch r q s).1
unfolding dispatch generate_review
dispatch-IsUntripped r q s = elim (Bool-cases (q.purpose == "review")) [
  | inl e ↦ rw e (review_with-IsUntripped r q _ s (resolve-IsUntripped r "review"))
  | inr e ↦ rw e (routed-IsUntripped r q _ s (resolve-IsUntripped r q.purpose))
]

untripped_error :
    (o : Result LlmResponse) (a : GuardArtifact) → IsUntripped o → o ≢ err (cost_guard_tripped a)
unfolding IsUntripped IsOther
untripped_error (ok x) a h e = cc
untripped_error (err x) a h e = subst IsUntripped e h

-- the guard was asked, since the request is not essential, and it has tripped
pub IsTripped : Router → LlmRequest → Session → GuardArtifact → Type 0
IsTripped r q s a =
    (q.essential ≡ false) × (check_guard r.limits r.hour q.trace_id s.ledger ≡ some a)

generate_by :
    (r : Router) (q : LlmRequest) (s : Session) (a : GuardArtifact) (b : Bool)
    (o : Option GuardArtifact)
    → (((if b then dispatch r q s else guarded r q o s).1 ≡ err (cost_guard_tripped a))
        ↔ ((b ≡ false) × (o ≡ some a)))
      × ((b ≡ false) × (o ≡ some a)
          → (if b then dispatch r q s else guarded r q o s).0
            ≡ record s { artifacts = s.artifacts ++ a ∷ [] })
unfolding guarded
generate_by r q s a true o = (
  (λ e. absurd (untripped_error (dispatch r q s).1 a (dispatch-IsUntripped r q s) e), λ h. cc h.0),
  λ h. cc h.0,
)
generate_by r q s a false none = (
  (λ e. absurd (untripped_error (dispatch r q s).1 a (dispatch-IsUntripped r q s) e), λ h. cc h.1),
  λ h. cc h.1,
)
generate_by r q s a false (some x) = (
  (λ e. (refl, cc e), λ h. cc h.1),
  λ h. ap (λ y. record s { artifacts = s.artifacts ++ y ∷ [] }) (some-injective x a h.1),
)

-- A request fails as one that the spending guard refuses exactly when it is not essential and the guard
-- trips; then no provider has been called, nothing is booked, and the trip alone is written down.
pub generate-IsTripped :
    (r : Router) (q : LlmRequest) (s : Session) (a : GuardArtifact)
    → (((generate r q s).1 ≡ err (cost_guard_tripped a)) ↔ IsTripped r q s a)
      × (IsTripped r q s a → (generate r q s).0 ≡ record s { artifacts = s.artifacts ++ a ∷ [] })
unfolding generate IsTripped
generate-IsTripped r q s a =
    generate_by r q s a q.essential (check_guard r.limits r.hour q.trace_id s.ledger)

-- Without a configured OpenAI provider a review fails and calls nobody, whatever fallback is
-- configured.
review_needs_openai :
    (r : Router) (q : LlmRequest) (s : Session)
    → ((p : Provider) → Dict.get r.providers "openai" ≡ some p → p.is_configured ≡ false)
    → (e : Error) × (generate_review r q s ≡ (s, err e))
unfolding generate_review review_with resolve resolve_review
review_needs_openai r q s h = elim (Option-cases (Dict.get r.providers "openai")) [
  | inl e ↦ (openai_missing, ground (arith, e))
  | inr (p, e) ↦ (openai_key_missing, ground (arith, e, h p e))
]
