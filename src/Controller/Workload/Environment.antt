-- ===== src/Controller/Workload/Environment.antt =====
-- The environment of the application's container: the literal list of buildDeployment of
-- chatuiinstance_controller.go, section by section.
use showroom_msp_chat_ui.Prelude.{String, Bool, false, Option, none, some, List, [], ◌∷◌}
use mathlib.Core.List.{◌++◌}
use showroom_msp_chat_ui.Controller.Pods.{EnvVar}

-- a variable with a value
abbrev pub set : String → String → EnvVar
set name value = record { name = name; value = value; from_secret = none }

-- a feature that is turned off
abbrev pub off : String → EnvVar
off name = set name "false"

-- a variable from a key of a Secret
abbrev pub from_key : String → String → String → Option Bool → EnvVar
from_key name secret key optional = record {
  name = name;
  value = "";
  from_secret = some (record { secret = secret; key = key; optional = optional });
}

-- Core auth + connector settings; `session` is the session Secret.
unfoldable pub core_env : String → List EnvVar
core_env session =
    set "WEBUI_AUTH" "true"
    ∷ from_key "WEBUI_SECRET_KEY" session "webui-secret" none
    ∷ set "ENABLE_OPENAI_API" "true"
    ∷ off "ENABLE_OLLAMA_API"
    ∷ off "ENABLE_DIRECT_CONNECTIONS"
    ∷ set "BYPASS_MODEL_ACCESS_CONTROL" "true"
    ∷ []

-- Access & admin experience
unfoldable pub access_env : List EnvVar
access_env =
    off "ENABLE_LOGIN_FORM"
    ∷ off "ENABLE_SIGNUP"
    ∷ off "ENABLE_OAUTH_SIGNUP"
    ∷ off "ENABLE_SIGNUP_PASSWORD_CONFIRMATION"
    ∷ off "ENABLE_ADMIN_EXPORT"
    ∷ off "ENABLE_ADMIN_CHAT_ACCESS"
    ∷ off "SHOW_ADMIN_DETAILS"
    ∷ []

-- Section toggles for a minimal UI
unfoldable pub section_env : List EnvVar
section_env =
    off "ENABLE_CHANNELS"
    ∷ off "ENABLE_NOTES"
    ∷ off "ENABLE_COMMUNITY_SHARING"
    ∷ off "ENABLE_MESSAGE_RATING"
    ∷ off "ENABLE_USER_WEBHOOKS"
    ∷ off "ENABLE_EVALUATION_ARENA_MODELS"
    ∷ off "ENABLE_API_KEYS"
    ∷ off "ENABLE_API_KEYS_ENDPOINT_RESTRICTIONS"
    ∷ off "ENABLE_VERSION_UPDATE_CHECK"
    ∷ []

-- LLM-side bells & whistles
unfoldable pub model_env : List EnvVar
model_env =
    off "ENABLE_WEB_SEARCH"
    ∷ off "ENABLE_RAG_HYBRID_SEARCH"
    ∷ off "ENABLE_RAG_HYBRID_SEARCH_ENRICHED_TEXTS"
    ∷ off "ENABLE_RAG_LOCAL_WEB_FETCH"
    ∷ off "ENABLE_GOOGLE_DRIVE_INTEGRATION"
    ∷ off "ENABLE_ONEDRIVE_INTEGRATION"
    ∷ off "ENABLE_ONEDRIVE_PERSONAL"
    ∷ off "ENABLE_ONEDRIVE_BUSINESS"
    ∷ off "ENABLE_CODE_EXECUTION"
    ∷ off "ENABLE_CODE_INTERPRETER"
    ∷ off "ENABLE_IMAGE_GENERATION"
    ∷ off "ENABLE_IMAGE_PROMPT_GENERATION"
    ∷ off "ENABLE_IMAGE_EDIT"
    ∷ []

-- Workspace navigation / sharing permissions
unfoldable pub workspace_env : List EnvVar
workspace_env =
    off "USER_PERMISSIONS_WORKSPACE_MODELS_ACCESS"
    ∷ off "USER_PERMISSIONS_WORKSPACE_KNOWLEDGE_ACCESS"
    ∷ off "USER_PERMISSIONS_WORKSPACE_PROMPTS_ACCESS"
    ∷ off "USER_PERMISSIONS_WORKSPACE_TOOLS_ACCESS"
    ∷ off "USER_PERMISSIONS_WORKSPACE_MODELS_IMPORT"
    ∷ off "USER_PERMISSIONS_WORKSPACE_MODELS_EXPORT"
    ∷ off "USER_PERMISSIONS_WORKSPACE_PROMPTS_IMPORT"
    ∷ off "USER_PERMISSIONS_WORKSPACE_PROMPTS_EXPORT"
    ∷ off "USER_PERMISSIONS_WORKSPACE_TOOLS_IMPORT"
    ∷ off "USER_PERMISSIONS_WORKSPACE_TOOLS_EXPORT"
    ∷ off "USER_PERMISSIONS_WORKSPACE_MODELS_ALLOW_SHARING"
    ∷ off "USER_PERMISSIONS_WORKSPACE_MODELS_ALLOW_PUBLIC_SHARING"
    ∷ off "USER_PERMISSIONS_WORKSPACE_KNOWLEDGE_ALLOW_SHARING"
    ∷ off "USER_PERMISSIONS_WORKSPACE_KNOWLEDGE_ALLOW_PUBLIC_SHARING"
    ∷ off "USER_PERMISSIONS_WORKSPACE_PROMPTS_ALLOW_SHARING"
    ∷ off "USER_PERMISSIONS_WORKSPACE_PROMPTS_ALLOW_PUBLIC_SHARING"
    ∷ off "USER_PERMISSIONS_WORKSPACE_TOOLS_ALLOW_SHARING"
    ∷ off "USER_PERMISSIONS_WORKSPACE_TOOLS_ALLOW_PUBLIC_SHARING"
    ∷ off "USER_PERMISSIONS_NOTES_ALLOW_SHARING"
    ∷ off "USER_PERMISSIONS_NOTES_ALLOW_PUBLIC_SHARING"
    ∷ []

-- Chat level feature flags
unfoldable pub chat_env : List EnvVar
chat_env =
    off "USER_PERMISSIONS_CHAT_CONTROLS"
    ∷ off "USER_PERMISSIONS_CHAT_VALVES"
    ∷ off "USER_PERMISSIONS_CHAT_SYSTEM_PROMPT"
    ∷ off "USER_PERMISSIONS_CHAT_PARAMS"
    ∷ off "USER_PERMISSIONS_CHAT_FILE_UPLOAD"
    ∷ off "USER_PERMISSIONS_CHAT_SHARE"
    ∷ off "USER_PERMISSIONS_CHAT_EXPORT"
    ∷ off "USER_PERMISSIONS_CHAT_STT"
    ∷ off "USER_PERMISSIONS_CHAT_TTS"
    ∷ off "USER_PERMISSIONS_CHAT_CALL"
    ∷ off "USER_PERMISSIONS_CHAT_MULTIPLE_MODELS"
    ∷ off "USER_PERMISSIONS_CHAT_TEMPORARY"
    ∷ off "USER_PERMISSIONS_CHAT_RATE_RESPONSE"
    ∷ []

-- Feature toggles surfaced in permissions
unfoldable pub feature_env : List EnvVar
feature_env =
    off "USER_PERMISSIONS_FEATURES_DIRECT_TOOL_SERVERS"
    ∷ off "USER_PERMISSIONS_FEATURES_WEB_SEARCH"
    ∷ off "USER_PERMISSIONS_FEATURES_IMAGE_GENERATION"
    ∷ off "USER_PERMISSIONS_FEATURES_CODE_INTERPRETER"
    ∷ off "USER_PERMISSIONS_FEATURES_NOTES"
    ∷ off "USER_PERMISSIONS_FEATURES_API_KEYS"
    ∷ []

-- The key and the URL of the backend, from the instance's credentials.
unfoldable pub backend_env : String → List EnvVar
backend_env secret =
    from_key "OPENAI_API_KEY" secret "OPENAI_API_KEY" (some false)
    ∷ from_key "OPENAI_API_BASE_URL" secret "OPENAI_API_URL" (some false)
    ∷ []

unfoldable pub app_env : String → String → List EnvVar
app_env session secret =
    core_env session
    ++ (access_env
        ++ (section_env
            ++ (model_env ++ (workspace_env ++ (chat_env ++ (feature_env ++ backend_env secret))))))
