-- ===== src/Llm/Types.antt =====
-- src/llm/types.py: requests, responses, the configuration.
use ai_ops_runner.Base.{ℕ, String, Bool, Option, none, List, [], ◌∷◌}
use ai_ops_runner.Base.Dict.{Dict}
use ai_ops_runner.Base.Text.{Text}

-- the classes of an error, named by the constants TRANSIENT_QUOTA and so on of router.py
pub data Transient : Type 0 where
  transient_quota transient_server transient_network non_transient : Transient

pub record ProviderConfig : Type 0 where
  pub name : String
  pub enabled : Bool
  pub api_base : String

pub record PurposeRoute : Type 0 where
  pub provider : String
  pub model : String

pub record ReviewFallbackConfig : Type 0 where
  pub provider : String
  pub model : String

-- a temperature in hundredths
pub record ReviewCapsConfig : Type 0 where
  pub max_output_tokens : ℕ
  pub temperature : ℕ

pub record LlmConfig : Type 0 where
  pub enabled_providers : List String
  pub defaults : Dict PurposeRoute
  pub providers : Dict ProviderConfig
  pub review_fallback : Option ReviewFallbackConfig
  pub review_caps : ReviewCapsConfig

-- `LlmConfig()`
abbrev pub default_config : LlmConfig
default_config = record {
  enabled_providers = "openai" ∷ [];
  defaults = [];
  providers = [];
  review_fallback = none;
  review_caps = record { max_output_tokens = 600; temperature = 0 };
}

pub record LlmRequest : Type 0 where
  pub model : String
  pub messages : List (Dict Text)
  pub temperature : ℕ
  pub max_tokens : Option ℕ
  pub purpose : String
  pub trace_id : String
  pub response_format : Option (Dict String)
  pub essential : Bool
  pub project_id : String
  pub action : String

pub record Usage : Type 0 where
  pub prompt_tokens : Option ℕ
  pub completion_tokens : Option ℕ
  pub total_tokens : Option ℕ

-- an empty usage dictionary is `none`
pub record LlmResponse : Type 0 where
  pub content : Text
  pub model : String
  pub provider : String
  pub usage : Option Usage
  pub primary_transient_class : Option Transient
