-- ===== src/Output/ElasticSearch.antt =====
-- lib/outputs/output_elasticsearch.js and lib/lib/elastic_search_helper.js: the bulk buffer, and the
-- path of the index of a day. JSON.stringify and the date are parameters.
pub mod Laws
use node_logstash.Js.Number.{Number, nat, dyadic, num_lt, num_ge, num_truthy}
use node_logstash.Js.Value.{Value, str, obj, Fields, end, field}
use node_logstash.Component.Config.{split}
use node_logstash.Prelude.{
  Bool, true, false, ◌&&◌, Option, none, some, List, [], ◌∷◌, ◌++◌, ℕ, zero, suc, ◌+◌, ◌-◌, ltb,
  leb, ◌==◌, if◌then◌else◌, length, Text, codes,
}

-- `fill0`: `none` where the recursion does not end.
unfoldable pub fill0 : Text → ℕ → Option Text
fill0 s zero = if length s == 0 then some s else none
fill0 s (suc k) =
    let rest = fill0 s k in
    if length s == suc k then some s else elim rest [ none ↦ none | some t ↦ some (b'0' ∷ t) ]

-- What `getUTCFullYear`, `getUTCMonth() + 1` and `getUTCDate` print.
pub record Today : Type 0 where
  pub year : Text
  pub month : Text
  pub day : Text

abbrev joined : Text → Option Text → Option Text → Option Text
joined year (some month) (some day) = some (year ++ (codes "." ++ (month ++ (codes "." ++ day))))
joined year month day = none

unfoldable pub format_date : Today → Option Text
unfolding fill0
format_date t = joined t.year (fill0 t.month 2) (fill0 t.day 2)

abbrev index_path : Text → Text → Option Text → Option Text
index_path prefix type none = none
index_path prefix type (some date) =
    some (codes "/" ++ (prefix ++ (codes "-" ++ (date ++ (codes "/" ++ type)))))

unfoldable pub compute_path : Text → Text → Today → Option Text
unfolding format_date
compute_path prefix type today = index_path prefix type (format_date today)

pub record Config : Type 0 where
  -- NaN where it is missing or no number
  pub bulk_limit : Number
  pub bulk_timeout : Number
  -- empty where it is missing
  pub index_name : Text
  pub index_prefix : Text
  pub data_type : Text

-- `getPath`
unfoldable pub get_path : Config → Today → Option Text
unfolding compute_path
get_path c today =
    if ltb 0 (length c.index_name)
    then some (codes "/" ++ (c.index_name ++ (codes "/" ++ (c.data_type ++ codes "/"))))
    else compute_path c.index_prefix c.data_type today

pub record Bulk : Type 0 where
  pub bulk_data : Text
  pub bulk_counter : ℕ
  pub last_bulk_insert : Option ℕ

unfoldable pub empty_bulk : Bulk
empty_bulk = record { bulk_data = []; bulk_counter = 0; last_bulk_insert = none }

-- `postData`
pub record Post : Type 0 where
  pub path : Text
  pub payload : Text

unfoldable pub send_bulk : Bulk → Bulk × List Post
send_bulk b = (
  record b { bulk_data = []; bulk_counter = 0 },
  record { path = codes "/_bulk"; payload = b.bulk_data } ∷ [],
)

-- `now - last > timeout`; NaN where there was no insert.
abbrev is_late : ℕ → Option ℕ → Number → Bool
is_late now none timeout = false
is_late now (some last) timeout =
    num_lt timeout (if leb last now then nat (now - last) else dyadic true (last - now) 0)

-- The function of the interval.
unfoldable pub on_interval : Config → ℕ → Bulk → Bulk × List Post
unfolding send_bulk
on_interval c now b =
    if ltb 0 (length b.bulk_data) && is_late now b.last_bulk_insert c.bulk_timeout
    then send_bulk b
    else (b, [])

-- `path[1]` and `path[2]`
abbrev second : List Text → Value
second (a ∷ b ∷ l) = str b
second l = Value.undefined

abbrev third : List Text → Value
third (a ∷ b ∷ c ∷ l) = str c
third l = Value.undefined

module _ (stringify : Fields → Text) where
  unfoldable pub header : Text → Text
  unfolding split
  header path = stringify (
      field (codes "index")
        (obj (
          field (codes "_index") (second (split b'/' path))
            (field (codes "_type") (third (split b'/' path)) end)))
        end)

  -- The two lines of a message in a bulk request.
  unfoldable pub entry : Text → Fields → Text
  unfolding header
  entry path data' = header path ++ (10 ∷ (stringify data' ++ 10 ∷ []))

  unfoldable pub process : Config → ℕ → Text → Fields → Bulk → Bulk × List Post
  unfolding entry send_bulk
  process c now path data' b =
      if num_truthy c.bulk_limit
      then (let added : Bulk = record {
        bulk_data = b.bulk_data ++ entry path data';
        bulk_counter = b.bulk_counter + 1;
        last_bulk_insert = some now;
      } in
          if num_ge (nat added.bulk_counter) c.bulk_limit then send_bulk added else (added, []))
      else (b, record { path = path; payload = stringify data' } ∷ [])

  pub data Event : Type 0 where
    message : ℕ → Text → Fields → Event
    interval : ℕ → Event

  unfoldable pub on_event : Config → Event → Bulk → Bulk × List Post
  unfolding process on_interval
  on_event c (message now path data') b = process c now path data' b
  on_event c (interval now) b = on_interval c now b

  unfoldable pub run : Config → List Event → Bulk → Bulk × List Post
  unfolding on_event
  run c [] b = (b, [])
  run c (e ∷ es) b =
      let (b', posts) = on_event c e b in let (b'', later) = run c es b' in (b'', posts ++ later)
