-- ===== src/Sdk/Config/Laws.antt =====
-- What a configuration that passes validation satisfies.
use x402guard.Base.{
  Option, Bool, Option, Bool, ℕ, ◌≤◌, ◌≡◌, refl, ◌∙◌, sym, ap, subst, ◌==◌, or_else, some, none,
  true, arith,
}
use x402guard.Js.Text.{Text, drop_end}
use x402guard.Js.Text.Laws.{drop_end-drop_end}
use x402guard.Sdk.Errors.{Result, ok, throw, map_result}
use x402guard.Sdk.Types.{PartialConfig, Numeric, int}
use x402guard.Sdk.Config.{
  ◌>>=◌, when, pos, Host, Config, merge, validate, parse_config, or_zod_error, is_log_level,
  url_from, integer_from,
}
use mathlib.Core.Option.{some-injective}
use x402guard.Sdk.Client.{Client, new_client}

pub record IsValid (host : Host) (c : Config) : Type 0 where
  pub url : host.is_url c.proxy_url ≡ true
  pub base : 100 ≤ c.retry_base_ms
  pub level : is_log_level c.log_level ≡ true

url_from-some :
    (p : Text → Bool) (o : Option Text) (s : Text)
    → url_from p o ≡ some s
    → (p s ≡ true) × (o ≡ some s)
unfolding url_from
url_from-some p none s h = cc
url_from-some p (some t) s h = ground arith

integer_from-some :
    (least d : ℕ) (o : Option Numeric) (n : ℕ)
    → least ≤ d
    → integer_from least d o ≡ some n
    → least ≤ n
unfolding integer_from
integer_from-some least d none n h e = ground arith
integer_from-some least d (some (int (pos k))) n h e = ground arith
integer_from-some least d (some _) n h e = cc

bind-some {ℓ κ} :
    {A : Type ℓ} {B : Type κ} (m : Option A) (f : A → Option B) {b : B}
    → (m >>= f) ≡ some b
    → (a : A) × (m ≡ some a) × (f a ≡ some b)
bind-some none f h = cc
bind-some (some a) f h = (a, refl, h)

when-some {ℓ} : {A : Type ℓ} (b : Bool) (a a' : A) → when b a ≡ some a' → (b ≡ true) × (a ≡ a')
when-some b a a' h = ground arith

-- The configuration that `validate` puts together.
abbrev checked : PartialConfig → Text → Option Text → ℕ → ℕ → Config
checked c url level retries base = record {
  proxy_url = url;
  agent_id = c.agent_id;
  api_key = c.api_key;
  log_level = level;
  max_retries = retries;
  retry_base_ms = base;
}

checked-IsValid :
    (host : Host) (c : PartialConfig) (url : Text) (level : Option Text) (retries base : ℕ)
    → url_from host.is_url c.proxy_url ≡ some url
    → when (is_log_level c.log_level) c.log_level ≡ some level
    → integer_from 100 1000 c.retry_base_ms ≡ some base
    → IsValid host (checked c url level retries base) × (c.proxy_url ≡ some url)
checked-IsValid host c url level retries base e f k =
    let (good, given) = url_from-some host.is_url c.proxy_url url e in
    let (known, same) = when-some (is_log_level c.log_level) c.log_level level f in
    (
      record {
        url = good;
        base = integer_from-some 100 1000 c.retry_base_ms base (omega arith) k;
        level = ap is_log_level (sym same) ∙ known;
      },
      given,
    )

-- The schema accepts a configuration only with a URL, a base delay of at least 100 ms and a known
-- log level, and changes none of the texts.
validate-IsValid :
    (host : Host) (c : PartialConfig) (config : Config)
    → validate host c ≡ some config
    → IsValid host config × (c.proxy_url ≡ some config.proxy_url) × (c.agent_id ≡ config.agent_id)
unfolding validate
validate-IsValid host c config h =
    let (url, e, h') = bind-some (url_from host.is_url c.proxy_url) _ h in
    let (level, f, h'') = bind-some (when (is_log_level c.log_level) c.log_level) _ h' in
    let (retries, g, h3) = bind-some (integer_from 0 3 c.max_retries) _ h'' in
    let (base, k, end) = bind-some (integer_from 100 1000 c.retry_base_ms) _ h3 in
    subst (λ x. IsValid host x × (c.proxy_url ≡ some x.proxy_url) × (c.agent_id ≡ x.agent_id))
      (some-injective (checked c url level retries base) config end)
      (let (valid, given) = checked-IsValid host c url level retries base e f k in
        (valid, given, refl))

parse_config-ok :
    (host : Host) (c : PartialConfig) (o : Option Config) (config : Config)
    → or_zod_error host c o ≡ ok config
    → o ≡ some config
parse_config-ok host c none config h = cc
parse_config-ok host c (some x) config h = cc

client_of : Config → Client
client_of config = record { config = config; base_url = drop_end (λ c. c == b'/') config.proxy_url }

map-ok :
    (r : Result Config) (client : Client)
    → map_result client_of r ≡ ok client
    → (config : Config) × (r ≡ ok config) × (client_of config ≡ client)
map-ok (ok config) client h = (config, refl, cc)
map-ok (throw e) client h = cc

-- A client that the constructor returns has a configuration that passes the schema, with the proxy
-- URL and the agent of the argument or else of the environment; its base URL is that URL without its trailing
-- slashes, and has none.
pub new_client-IsValid :
    (host : Host) (partial : PartialConfig) (client : Client)
    → new_client host partial ≡ ok client
    → IsValid host client.config
      × (or_else partial.proxy_url host.env_proxy_url ≡ some client.config.proxy_url)
      × (or_else partial.agent_id host.env_agent_id ≡ client.config.agent_id)
      × (client.base_url ≡ drop_end (λ c. c == b'/') client.config.proxy_url)
      × (drop_end (λ c. c == b'/') client.base_url ≡ client.base_url)
unfolding new_client merge client_of
new_client-IsValid host partial client h =
    let (config, got, whole) = map-ok (parse_config host partial) client h in
    let (valid, given, agent) =
      validate-IsValid host (merge host partial) config
        (parse_config-ok host (merge host partial) _ config got) in
    subst
      (λ k.
        IsValid host k.config
        × (or_else partial.proxy_url host.env_proxy_url ≡ some k.config.proxy_url)
        × (or_else partial.agent_id host.env_agent_id ≡ k.config.agent_id)
        × (k.base_url ≡ drop_end (λ c. c == b'/') k.config.proxy_url)
        × (drop_end (λ c. c == b'/') k.base_url ≡ k.base_url))
      whole (valid, given, agent, refl, drop_end-drop_end (λ c. c == b'/') config.proxy_url)
