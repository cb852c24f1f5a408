-- ===== src/Llm/Router/Routes.antt =====
-- `ModelRouter.resolve` for purposes other than review.
use ai_ops_runner.Base.{
  Bool-cases, Option-cases, eq_iff, string_eq, contains, String, ◌≡◌, refl, ap, ◌∙◌, ◌≢◌, inl, inr,
  true, false, Option, none, some, arith,
}
use ai_ops_runner.Base.Dict
use ai_ops_runner.Llm.Types.{PurposeRoute}
use ai_ops_runner.Llm.Router.{
  Provider, Router, ok, resolve_openai, resolve_route, fallback_model, resolve,
}

-- Where a resolved request goes: along the route of its purpose, to an enabled provider, or to
-- OpenAI.
pub data IsRouted (r : Router) (purpose : String) (p : Provider) (model : String) : Type 0 where
  along :
      (route : PurposeRoute)
      → Dict.get r.config.defaults purpose ≡ some route
      → Dict.get r.providers route.provider ≡ some p
      → contains r.config.enabled_providers route.provider ≡ true
      → model ≡ route.model
      → IsRouted r purpose p model
  openai : Dict.get r.providers "openai" ≡ some p → IsRouted r purpose p model

resolve_openai-IsRouted :
    (r : Router) (purpose : String) (route : Option PurposeRoute) (p : Provider) (model : String)
    → resolve_openai r purpose route ≡ ok (p, model)
    → IsRouted r purpose p model
unfolding resolve_openai
resolve_openai-IsRouted r purpose route p model h =
    elim (Option-cases (Dict.get r.providers "openai")) [
      | inl e ↦ absurd (ground (arith, e))
      | inr (o, e) ↦ let same : o ≡ p = ground (arith, e) in openai (e ∙ ap some same)
    ]

resolve_route-IsRouted :
    (r : Router) (purpose : String) (o : Option PurposeRoute) (p : Provider) (model : String)
    → Dict.get r.config.defaults purpose ≡ o
    → resolve_route r purpose o ≡ ok (p, model)
    → IsRouted r purpose p model
unfolding resolve_route
resolve_route-IsRouted r purpose none p model at h =
    resolve_openai-IsRouted r purpose none p model h
resolve_route-IsRouted r purpose (some route) p model at h =
    elim (Option-cases (Dict.get r.providers route.provider)) [
      | inl e ↦ resolve_openai-IsRouted r purpose (some route) p model (ground (arith, e))
      | inr (o, e) ↦ elim (Bool-cases (contains r.config.enabled_providers route.provider)) [
        | inr off ↦ resolve_openai-IsRouted r purpose (some route) p model (ground (arith, e, off))
        | inl on ↦
            let same : o ≡ p = ground (arith, e, on) in
            along route at (e ∙ ap some same) on (ground (arith, e, on))
      ]
    ]

-- A request that is no review goes along the route of its purpose only if that provider is
-- enabled, and to OpenAI otherwise.
resolve-IsRouted :
    (r : Router) (purpose : String) (p : Provider) (model : String)
    → purpose ≢ "review"
    → resolve r purpose ≡ ok (p, model)
    → IsRouted r purpose p model
unfolding resolve
resolve-IsRouted r purpose p model other h =
    resolve_route-IsRouted r purpose (Dict.get r.config.defaults purpose) p model refl
      (ground (arith, eq_iff purpose "review"))

-- When the provider of a route is not enabled, the request goes to OpenAI with the model that the
-- route names for the other provider.
disabled_route_model :
    (r : Router) (purpose : String) (route : PurposeRoute) (o : Provider)
    → purpose ≢ "review"
    → Dict.get r.config.defaults purpose ≡ some route
    → contains r.config.enabled_providers route.provider ≡ false
    → Dict.get r.providers "openai" ≡ some o
    → resolve r purpose ≡ ok (o, route.model)
unfolding resolve resolve_route resolve_openai fallback_model
disabled_route_model r purpose route o other at off found =
    ground (arith, eq_iff purpose "review", Option-cases (Dict.get r.providers route.provider))
