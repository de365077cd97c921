-- ===== src/Input/Redis.antt =====
-- lib/inputs/input_redis.js: how a message becomes a message of the agent, the check of the parameters,
-- and the loop of `blpop` on a queue, with the calls in flight.
pub mod Laws
use node_logstash.Js.Value.{Value, obj, Fields, truthy, str, message, Result, ok, throw}
use node_logstash.Js.Object.{get, set}
use node_logstash.Js.Object.{strict_eq}
use node_logstash.Input.Serial.{Parsed}
use node_logstash.Prelude.{
  Bool, true, not, ◌&&◌, Option, none, some, List, [], ◌∷◌, ◌++◌, if◌then◌else◌, Text, codes,
}

pub data Receive : Type 0 where
  receive_queue : Value → Receive
  -- The channel, and whether it is a pattern.
  receive_pub_sub : Value → Bool → Receive

abbrev is_queue : Fields → Bool
is_queue this = strict_eq (get (codes "method") this) (str (codes "queue"))

abbrev is_pub_sub : Fields → Bool
is_pub_sub this = strict_eq (get (codes "method") this) (str (codes "pubsub"))

unfoldable pub start : Fields → Result Receive
unfolding get strict_eq
start this =
    if not (is_queue this) && not (is_pub_sub this)
    then throw (message (codes "Wrong method, please use pubsub or queue"))
    else if is_pub_sub this
    then (if truthy (get (codes "channel") this)
        then ok (
            receive_pub_sub (get (codes "channel") this)
              (truthy (get (codes "pattern_channel") this)))
        else throw (message (codes "You have to specify the channel parameter in pubsub mode")))
    else if truthy (get (codes "key") this)
    then ok (receive_queue (get (codes "key") this))
    else throw (message (codes "You have to specify the key parameter in queue mode"))

-- A property of a value that is no object is not kept.
abbrev pub with_property : Text → Value → Value → Value
with_property k v (obj d) = obj (set k v d)
with_property k v w = w

abbrev pub labelled : Value → Option Text → Value → Value
labelled type channel parsed =
    let typed = if truthy type then with_property (codes "type") type parsed else parsed in
    elim channel [
      | none ↦ typed
      | some [] ↦ typed
      | some (c ∷ s) ↦ with_property (codes "redis_channel") (str (c ∷ s)) typed
    ]

-- What the input emits: a message, or an error with the data.
pub data Emitted : Type 0 where
  data_of : Value → Emitted
  error_of : Text → Emitted

abbrev emit_all : Value → Option Text → List Value → List Emitted
emit_all type channel [] = []
emit_all type channel (v ∷ vs) = data_of (labelled type channel v) ∷ emit_all type channel vs

pub data Event : Type 0 where
  -- The first connection.
  connected : Event
  -- A call of `blpop` calls back.
  popped : Option Text → Event
  closed : Event

pub data Effect : Type 0 where
  blpop : Effect
  emit : Emitted → Effect

abbrev emits : List Emitted → List Effect
emits [] = []
emits (m ∷ ms) = emit m ∷ emits ms

module _ (unserialize : Text → Parsed) (type : Value) where
  -- `processRedisMessage`
  unfoldable pub process_redis_message : Option Text → Text → List Emitted
  process_redis_message channel s =
      emit_all type channel (unserialize s).0
      ++ (if (unserialize s).1 then error_of (codes "Unable to parse data " ++ s) ∷ [] else [])

  -- What the callback makes of its data.
  abbrev pub taken : Option Text → List Emitted
  unfolding process_redis_message
  taken none = []
  taken (some s) = process_redis_message none s

  -- `receiveQueue` and its callback; the state is `quitting`.
  unfoldable pub step : Bool → Event → Bool × List Effect
  unfolding taken
  step quitting connected = (quitting, blpop ∷ [])
  step quitting (popped data') =
      (quitting, emits (taken data') ++ (if quitting then [] else blpop ∷ []))
  step quitting closed = (true, [])

  unfoldable pub run : Bool → List Event → Bool × List Effect
  unfolding step
  run quitting [] = (quitting, [])
  run quitting (e ∷ es) =
      let (quitting', effects) = step quitting e in
      let (quitting'', later) = run quitting' es in (quitting'', effects ++ later)
