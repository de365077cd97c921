-- ===== src/Filter/Geoip.antt =====
-- `process` of lib/filters/filter_geoip.js, and the names of its fields. What a lookup finds, by the cache
-- or without it, is a parameter.
use node_logstash.Js.Value.{
  Value, str, arr, nil, cons, Fields, truthy, Result, Result-cases, ok, throw, type_error,
}
use node_logstash.Js.Object.{get, set, get-set}
use node_logstash.Prelude.{
  ◌≡◌, refl, ◌∙◌, inl, inr, Bool, true, false, not, ◌&&◌, Option, none, some, List, [], ◌∷◌, ◌++◌,
  arith, if◌then◌else◌, any, Text, codes, ◌===◌, starts_with,
}

-- The prefixes of the addresses that are not looked up.
unfoldable pub local_prefixes : List Text
local_prefixes =
    codes "10."
    ∷ codes "192.168."
    ∷ codes "172.16"
    ∷ codes "172.17"
    ∷ codes "172.18"
    ∷ codes "172.19"
    ∷ codes "172.20"
    ∷ codes "172.21"
    ∷ codes "172.22"
    ∷ codes "172.23"
    ∷ codes "172.24"
    ∷ codes "172.25"
    ∷ codes "172.26"
    ∷ codes "172.27"
    ∷ codes "172.28"
    ∷ codes "172.29"
    ∷ codes "172.30"
    ∷ codes "172.31"
    ∷ codes "127.0.0.1"
    ∷ []

-- Whether `ip` is looked up. `indexOf` is 0 on a string with that prefix, and on an array whose
-- first item is the prefix; other values have no `indexOf`.
unfoldable pub is_looked_up : Value → Result Bool
unfolding local_prefixes
is_looked_up (str s) =
    ok (truthy (str s) && not (s === codes "-") && not (any (λ p. starts_with p s) local_prefixes))
is_looked_up (arr (cons (str s) vs)) = ok (not (any (λ p. p === s) local_prefixes))
is_looked_up (arr vs) = ok true
is_looked_up v = if truthy v then throw type_error else ok false

-- What is known of an address; `ll` is the latitude and the longitude.
pub record Geo : Type 0 where
  pub country : Value
  pub region : Value
  pub city : Value
  pub asn : Value
  pub ll : Option (Value × Value)

pub record Geoip : Type 0 where
  pub field : Text
  pub country_field : Text
  pub region_field : Text
  pub city_field : Text
  pub asn_field : Text
  pub lonlat_field : Text

abbrev default_name : Text → Text → Text → Text
default_name field suffix name = if name === codes "__default__" then field ++ suffix else name

-- The names that `start` fills in.
unfoldable pub start_fields : Geoip → Geoip
start_fields g = record g {
  country_field = default_name g.field (codes "_geo_country") g.country_field;
  region_field = default_name g.field (codes "_geo_region") g.region_field;
  city_field = default_name g.field (codes "_geo_city") g.city_field;
  lonlat_field = default_name g.field (codes "_geo_lonlat") g.lonlat_field;
  asn_field = default_name g.field (codes "_geo_asn") g.asn_field;
}

abbrev pub put : Text → Value → Fields → Fields
put name v data' = if not (name === codes "none") && truthy v then set name v data' else data'

abbrev pub put_pair : Text → Option (Value × Value) → Fields → Fields
put_pair name none data' = data'
put_pair name (some (lat, lon)) data' =
    if not (name === codes "none") then set name (arr (cons lon (cons lat nil))) data' else data'

-- The fields of what was found, in the order of the code.
unfoldable pub put_geo : Geoip → Geo → Fields → Fields
put_geo g geo data' = put_pair g.lonlat_field geo.ll (
    put g.asn_field geo.asn (
      put g.city_field geo.city
        (put g.region_field geo.region (put g.country_field geo.country data'))))

abbrev on_lookup : Geoip → Result (Option Geo) → Fields → Fields
on_lookup g (throw e) data' = data'
on_lookup g (ok none) data' = data'
on_lookup g (ok (some geo)) data' = put_geo g geo data'

unfoldable pub process : (Value → Result (Option Geo)) → Geoip → Fields → Result Fields
unfolding is_looked_up put_geo
process lookup g data' = elim (is_looked_up (get g.field data')) [
  | throw e ↦ throw e
  | ok false ↦ ok data'
  | ok true ↦ ok (on_lookup g (lookup (get g.field data')) data')
]

-- The fields that a geoip filter may write.
abbrev pub written_fields : Geoip → List Text
written_fields g =
    g.country_field ∷ g.region_field ∷ g.city_field ∷ g.asn_field ∷ g.lonlat_field ∷ []

get-put :
    (f name : Text) (v : Value) (d : Fields) → (name === f) ≡ false → get f (put name v d) ≡ get f d
get-put f name v d h = ground (arith, get-set f name v d)

get-put_pair :
    (f name : Text) (v : Option (Value × Value)) (d : Fields)
    → (name === f) ≡ false
    → get f (put_pair name v d) ≡ get f d
get-put_pair f name none d h = refl
get-put_pair f name (some (lat, lon)) d h =
    ground (arith, get-set f name (arr (cons lon (cons lat nil))) d)

get-put_geo :
    (f : Text) (g : Geoip) (geo : Geo) (d : Fields)
    → any (λ n. n === f) (written_fields g) ≡ false
    → get f (put_geo g geo d) ≡ get f d
unfolding put_geo
get-put_geo f g geo d h =
    let d1 = put g.country_field geo.country d in
    let d2 = put g.region_field geo.region d1 in
    let d3 = put g.city_field geo.city d2 in
    let d4 = put g.asn_field geo.asn d3 in
    get-put_pair f g.lonlat_field geo.ll d4 (ground arith)
    ∙ get-put f g.asn_field geo.asn d3 (ground arith)
    ∙ get-put f g.city_field geo.city d2 (ground arith)
    ∙ get-put f g.region_field geo.region d1 (ground arith)
    ∙ get-put f g.country_field geo.country d (ground arith)

get-on_lookup :
    (f : Text) (g : Geoip) (r : Result (Option Geo)) (d : Fields)
    → any (λ n. n === f) (written_fields g) ≡ false
    → get f (on_lookup g r d) ≡ get f d
get-on_lookup f g (throw e) d h = refl
get-on_lookup f g (ok none) d h = refl
get-on_lookup f g (ok (some geo)) d h = get-put_geo f g geo d h

-- Whatever is found for an address, and also where the lookup fails, a geoip filter that returns
-- leaves every field as it was but the five that it is configured to write.
get-process :
    (lookup : Value → Result (Option Geo)) (g : Geoip) (d : Fields) (f : Text) {d' : Fields}
    → process lookup g d ≡ ok d'
    → any (λ n. n === f) (written_fields g) ≡ false
    → get f d' ≡ get f d
unfolding process
get-process lookup g d f e h = elim (Result-cases (is_looked_up (get g.field d))) [
  | inr (x, i) ↦ ground arith
  | inl (false, i) ↦ ground arith
  | inl (true, i) ↦ ground (arith, get-on_lookup f g (lookup (get g.field d)) d h)
]
