-- ===== src/Output/Http.antt =====
-- lib/outputs/abstract_http.js: the options of a request, and what its end tells the error buffer. The
-- encoding in base 64 is a parameter.
use node_logstash.Js.Value.{str, Fields, truthy}
use node_logstash.Js.Object.{get, set}
use node_logstash.Js.Convert.{Engine, to_text}
use node_logstash.Prelude.{
  Bool, false, not, ◌&&◌, ◌||◌, Option, none, some, ◌++◌, ℕ, ltb, if◌then◌else◌, Text, codes,
}

-- What `startAbstract` sets: whether there is an agent for the proxy, and the header.
pub record HttpSettings : Type 0 where
  pub custom_agent : Bool
  pub basic_auth : Option Text

unfoldable pub start_abstract : Engine → (Text → Text) → Fields → HttpSettings
unfolding get to_text
start_abstract js base64 this = record {
  custom_agent = truthy (get (codes "proxy") this);
  basic_auth =
      if truthy (get (codes "basic_auth_user") this)
        && truthy (get (codes "basic_auth_password") this)
      then some (
          codes "Basic "
          ++ base64 (
              to_text js (get (codes "basic_auth_user") this)
              ++ (codes ":" ++ to_text js (get (codes "basic_auth_password") this))))
      else none;
}

-- `http_options`, with no headers as an empty object.
pub record HttpOptions : Type 0 where
  pub path : Text
  pub headers : Fields
  pub agent : Bool

abbrev authorised : Option Text → Fields → Fields
authorised none headers = headers
authorised (some auth) headers = set (codes "Authorization") (str auth) headers

-- `sendHttpRequest`, up to the request; an empty prefix counts as missing and adds nothing.
unfoldable pub request_options : HttpSettings → Text → HttpOptions → HttpOptions
unfolding set
request_options s path_prefix options = record {
  path = path_prefix ++ options.path;
  headers = authorised s.basic_auth options.headers;
  agent = s.custom_agent || options.agent;
}

pub data Ended : Type 0 where
  -- A response with its status, or an error of the request.
  responded : ℕ → Ended
  failed : Ended

-- Whether the error buffer is told that all is well.
unfoldable pub is_fine : Ended → Bool
is_fine (responded status) = not (ltb status 200 || ltb 299 status)
is_fine failed = false
