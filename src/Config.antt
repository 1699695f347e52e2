-- ===== src/Config.antt =====
-- pkg/config/loader.go: the environment, the path of a file, and the addresses of the Redis sentinels.
-- The variables of the process are a function, `os.Getenv`, and the list of `os.Environ`, as they are
-- once the file ".env" is loaded.
pub mod Paths
use Prim.Native.Char.{code}
use Prim.Native.String.{[] as empty_text, ◌∷◌ as text_cons}
use streaming_video_service.Prelude.{
  ℕ, zero, suc, String, Bool, true, false, not, ◌&&◌, ◌||◌, ◌==◌, nat_beq, Option, none, some, List,
  [], ◌∷◌, join, append_text, if◌then◌else◌,
}
use streaming_video_service.Golang.{Error, Result, ok, err}

pub record EnvInfo : Type 0 where
  pub api_gateway : String
  pub member_service : String
  pub chat_service : String
  pub streaming : String
  pub api_gateway_port : String
  pub member_service_port : String
  pub chat_service_port : String
  pub streaming_port : String
  pub api_gateway_yaml_path : String
  pub member_service_yaml_path : String
  pub chat_service_yaml_path : String
  pub streaming_yaml_path : String
  pub api_gateway_log_path : String
  pub member_service_log_path : String
  pub chat_service_log_path : String
  pub streaming_log_path : String

-- `initEnv`: the variable `env`, and `EnvConfig`.
unfoldable pub init_env : (String → String) → String × EnvInfo
init_env getenv = (
  getenv "ENV",
  record {
    api_gateway = getenv "API_GATEWAY";
    member_service = getenv "MEMBER_SERVICE";
    chat_service = getenv "CHAT_SERVICE";
    streaming = getenv "STREAMING_SERVICE";
    api_gateway_port = getenv "API_GATEWAY_PORT";
    member_service_port = getenv "MEMBER_SERVICE_PORT";
    chat_service_port = getenv "CHAT_SERVICE_PORT";
    streaming_port = getenv "STREAMING_SERVICE_PORT";
    api_gateway_yaml_path = getenv "API_GATEWAY_YAML";
    member_service_yaml_path = getenv "MEMBER_SERVICE_YAML";
    chat_service_yaml_path = getenv "CHAT_SERVICE_YAML";
    streaming_yaml_path = getenv "STREAMING_SERVICE_YAML";
    api_gateway_log_path = getenv "API_GATEWAY_LOG";
    member_service_log_path = getenv "MEMBER_SERVICE_LOG";
    chat_service_log_path = getenv "CHAT_SERVICE_LOG";
    streaming_log_path = getenv "STREAMING_SERVICE_LOG";
  },
)

-- `IsProduction` and `IsLocal`, of the variable `env`.
unfoldable pub is_production : String → Bool
is_production env = env == "production"

unfoldable pub is_local : String → Bool
is_local env = env == "local"

-- The loop of `GetPath` over the parent directories, with `n` of them left; `stat` tells whether
-- `os.Stat` gives no error.
unfoldable pub climb : (String → Bool) → String → String → ℕ → Result String
climb stat file_name path zero = err (append_text file_name " can't find path")
climb stat file_name path (suc n) =
    let parent = append_text "../" path in
    let rest = climb stat file_name parent n in if stat parent then ok parent else rest

-- `GetPath`
unfoldable pub get_path : (String → Bool) → String → ℕ → Result String
unfolding climb
get_path stat file_name max_count =
    if stat file_name then ok file_name else climb stat file_name file_name max_count

-- What follows a prefix of a text.
unfoldable pub after_prefix : String → String → Option String
after_prefix s empty_text = some s
after_prefix empty_text (text_cons p ps) = none
after_prefix (text_cons c cs) (text_cons p ps) =
    if nat_beq (code c) (code p) then after_prefix cs ps else none

abbrev pub is_some : Option String → Bool
is_some none = false
is_some (some s) = true

-- `strings.HasSuffix`
unfoldable pub has_suffix : String → String → Bool
has_suffix empty_text suffix = suffix == ""
has_suffix (text_cons c cs) suffix = text_cons c cs == suffix || has_suffix cs suffix

abbrev or_next : Option String → String → String → String
or_next none new next = next
or_next (some rest) new next = append_text new rest

-- `strings.Replace` of the first occurrence.
unfoldable pub replace_first : String → String → String → String
unfolding after_prefix
replace_first empty_text old new = or_next (after_prefix "" old) new ""
replace_first (text_cons c cs) old new =
    or_next (after_prefix (text_cons c cs) old) new (text_cons c (replace_first cs old new))

abbrev pub with_head : Option (String × String) → (String → String) → Option (String × String)
with_head none f = none
with_head (some (key, value)) f = some (f key, value)

-- `strings.SplitN` at "=" into two parts, where it gives two.
unfoldable pub split_variable : String → Option (String × String)
split_variable empty_text = none
split_variable (text_cons c cs) =
    let rest = with_head (split_variable cs) (text_cons c) in
    if nat_beq (code c) b'=' then some ("", cs) else rest

-- The loop of `GetRedisSetting` over `os.Environ`.
abbrev pub is_sentinel_ip : String → Bool
is_sentinel_ip key = is_some (after_prefix key "REDIS_SENTINEL") && has_suffix key "_IP"

abbrev pub with_port : String → String → List String → List String
with_port value port addrs =
    if not (port == "") then join (value ∷ ":" ∷ port ∷ []) ∷ addrs else addrs

abbrev pub sentinel_addr : (String → String) → Option (String × String) → List String → List String
sentinel_addr getenv none addrs = addrs
sentinel_addr getenv (some (key, value)) addrs =
    if is_sentinel_ip key
    then with_port value (getenv (replace_first key "_IP" "_PORT")) addrs
    else addrs

unfoldable pub sentinel_addrs : (String → String) → List String → List String
unfolding split_variable replace_first has_suffix after_prefix
sentinel_addrs getenv [] = []
sentinel_addrs getenv (env ∷ envs) =
    sentinel_addr getenv (split_variable env) (sentinel_addrs getenv envs)

-- `GetRedisSetting`
unfoldable pub get_redis_setting : (String → String) → List String → String × List String
unfolding sentinel_addrs
get_redis_setting getenv environ =
    let name = getenv "REDIS_MASTER_NAME" in
    (if name == "" then "mymaster" else name, sentinel_addrs getenv environ)
