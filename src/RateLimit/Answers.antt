-- ===== src/RateLimit/Answers.antt =====
-- What the limiter answers with, and where `apply_auth_rate_limit` puts one.
use rustpress_plugin_authpro.Base.{
  ℕ, String, str_append, Bool, Option, none, some, List, [], ◌∷◌, if◌then◌else◌,
}
use rustpress_plugin_authpro.Text.Decimal.{decimal}
use rustpress_plugin_authpro.RateLimit.{RateLimitConfig, replenish_interval}

-- `GovernorError` of tower_governor.
pub data GovernorError : Type 0 where
  too_many_requests : ℕ → GovernorError
  unable_to_extract_key : GovernorError
  other : ℕ → Option String → GovernorError

pub record PlainResponse : Type 0 where
  pub status : ℕ
  pub headers : List (String × String)
  pub body : String

abbrev text_or : Option String → String → String
text_or none s = s
text_or (some t) s = t

-- The digits of a number are a header value.
unfoldable pub rate_limit_error_handler : GovernorError → PlainResponse
rate_limit_error_handler (too_many_requests wait_time) = record {
  status = 429;
  headers =
      ("retry-after", decimal wait_time)
      ∷ (("x-ratelimit-after", decimal wait_time)
          ∷ (("content-type", "text/plain; charset=utf-8") ∷ []));
  body = str_append "Too Many Requests. Retry after " (str_append (decimal wait_time) "s.");
}
rate_limit_error_handler unable_to_extract_key = record {
  status = 500;
  headers = [];
  body = "Unable to extract client identifier";
}
rate_limit_error_handler (other code msg) = record {
  status = code;
  headers = [];
  body = text_or msg "Rate limit error";
}

unfoldable pub too_many_requests_response : ℕ → PlainResponse
too_many_requests_response retry_after_secs = record {
  status = 429;
  headers =
      ("retry-after", decimal retry_after_secs)
      ∷ (("content-type", "text/plain; charset=utf-8") ∷ []);
  body = "Too Many Requests";
}

-- A layer with a period in milliseconds and a size of bursts, or the router as it is.
pub data Limiter : Type 0 where
  unlimited : Limiter
  governed : ℕ → ℕ → Limiter

-- `finish period burst` tells whether `GovernorConfigBuilder::finish` gives a configuration.
unfoldable pub apply_auth_rate_limit : (ℕ → ℕ → Bool) → RateLimitConfig → Limiter
apply_auth_rate_limit finish cfg =
    if cfg.disabled
    then unlimited
    else if finish (replenish_interval cfg) cfg.burst
    then governed (replenish_interval cfg) cfg.burst
    else unlimited
