-- ===== src/Url.antt =====
-- lib/lib/url_parser.js. `querystring.parse` is a parameter.
pub mod Laws
use node_logstash.Js.Number.{Number, is_nan}
use node_logstash.Js.Value.{Value, Fields, end}
use node_logstash.Js.Object.{get}
use node_logstash.Js.Convert.{Engine}
use node_logstash.Prelude.{
  Option, none, some, [], ◌∷◌, ◌++◌, ◌+◌, ◌==◌, if◌then◌else◌, take, drop, Text, codes, index_of,
}

pub record Protocol : Type 0 where
  pub protocol : Text
  pub next : Text

abbrev pub separator : Text
separator = codes "://"

unfoldable pub extract_protocol : Text → Option Protocol
extract_protocol url = elim (index_of separator url) [
  | none ↦ none
  | some index ↦ some (record { protocol = take index url; next = drop (index + 3) url })
]

-- `replace(/\+/g, '%2B')`
unfoldable pub escape_plus : Text → Text
escape_plus [] = []
escape_plus (c ∷ s) = if c == b'+' then codes "%2B" ++ escape_plus s else c ∷ escape_plus s

pub record UrlContent : Type 0 where
  pub host : Value
  pub params : Fields

module _ (parse_query : Text → Fields) where
  abbrev host_of : Text → Value
  host_of host = get (codes "a") (parse_query (codes "a=" ++ host))

  unfoldable pub process_url_content : Text → Option UrlContent
  unfolding escape_plus
  process_url_content [] = none
  process_url_content (c ∷ url) = elim (index_of (codes "?") (c ∷ url)) [
    | none ↦ some (record { host = host_of (c ∷ url); params = end })
    | some index ↦ some (record {
      host = host_of (take index (c ∷ url));
      params = parse_query (escape_plus (drop (index + 1) (c ∷ url)));
    })
  ]

pub record Port : Type 0 where
  pub host : Text
  pub port : Number

module _ (js : Engine) where
  abbrev numbered : Text → Number → Option Port
  numbered host port = if is_nan port then none else some (record { host = host; port = port })

  unfoldable pub extract_port_number : Text → Option Port
  extract_port_number host = elim (index_of (codes ":") host) [
    | none ↦ none
    | some index ↦ numbered (take index host) (js.parse_int (drop (index + 1) host))
  ]
