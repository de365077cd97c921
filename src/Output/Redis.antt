-- ===== src/Output/Redis.antt =====
-- lib/outputs/output_redis.js: the check of the parameters, the callbacks of the connection, and
-- `process`. What the package redis answers is in the events; the payload comes formatted. The cache
-- of `replaceByFields` is taken to hold no other template with the text of a key that is no string.
pub mod Laws
use node_logstash.Js.Value.{
  Value, Values, nil, cons, Fields, truthy, str, arr, Error, type_error, message, Result, ok, throw,
  ◌>>=◌,
}
use node_logstash.Js.Object.{get}
use node_logstash.Js.Object.{strict_eq}
use node_logstash.Js.Convert.{Engine, to_text}
use node_logstash.Component.Template.{replace_by_fields}
use node_logstash.Prelude.{
  Bool, true, false, not, ◌&&◌, ◌||◌, Option, some, List, [], ◌∷◌, ◌++◌, if◌then◌else◌, Text, codes,
}

-- `this.send` and the key or the channel that it uses.
pub data Mode : Type 0 where
  send_queue : Value → Mode
  send_pub_sub : Value → Mode

abbrev is_queue : Fields → Bool
is_queue this = strict_eq (get (codes "method") this) (str (codes "queue"))

abbrev is_pub_sub : Fields → Bool
is_pub_sub this = strict_eq (get (codes "method") this) (str (codes "pubsub"))

unfoldable pub start : Fields → Result Mode
unfolding get strict_eq
start this =
    if not (is_queue this) && not (is_pub_sub this)
    then throw (message (codes "Wrong method, please use pubsub or queue"))
    else if is_pub_sub this
    then (if truthy (get (codes "channel") this)
        then ok (send_pub_sub (get (codes "channel") this))
        else throw (message (codes "You have to specify the channel parameter in pubsub mode")))
    else if truthy (get (codes "key") this)
    then ok (send_queue (get (codes "key") this))
    else throw (message (codes "You have to specify the key parameter in queue mode"))

pub data Event : Type 0 where
  connected : Event
  failed : Event
  -- `process`, and what the call of the client returns.
  arrived : Fields → Bool → Event

pub data Effect : Type 0 where
  rpush : Option Text → Option Text → Effect
  publish : Option Text → Option Text → Effect
  -- `emit` of the error buffer
  buffer_ok : Effect
  buffer_error : Effect
  -- An exception leaves `process`.
  thrown : Error → Effect

-- `indexOf` of an array finds the text.
abbrev holds : Text → Values → Bool
holds s nil = false
holds s (cons v vs) = strict_eq v (str s) || holds s vs

module _ (js : Engine) (now_text : Text → Text) (serialize : Fields → Option Text) where
  -- `replaceByFields`: an array has an `indexOf`, but no `substring`, and is joined where it is added to
  -- a text; what is neither a text nor an array has no `indexOf`.
  abbrev pub replaced : Value → Fields → Result (Option Text)
  unfolding replace_by_fields to_text strict_eq
  replaced (str s) d = ok (replace_by_fields js now_text [] d s).1
  replaced (arr vs) d =
      if holds (codes "#{") vs then throw type_error else ok (some (to_text js (arr vs)))
  replaced v d = throw type_error

  unfoldable pub command : Mode → Fields → Result Effect
  unfolding replaced
  command (send_queue key) d = replaced key d >>= λ k. ok (rpush k (serialize d))
  command (send_pub_sub channel) d = replaced channel d >>= λ c. ok (publish c (serialize d))

  abbrev pub answered : Bool → Result Effect → List Effect
  answered accepted (ok c) = c ∷ (if accepted then [] else buffer_error ∷ [])
  answered accepted (throw e) = thrown e ∷ []

  -- `client` is there from the first connection on.
  unfoldable pub step : Mode → Bool → Event → Bool × List Effect
  unfolding command
  step mode client connected = (true, buffer_ok ∷ [])
  step mode client failed = (client, buffer_error ∷ [])
  step mode true (arrived d accepted) = (true, answered accepted (command mode d))
  step mode false (arrived d accepted) = (false, buffer_ok ∷ [])

  unfoldable pub run : Mode → Bool → List Event → Bool × List Effect
  unfolding step
  run mode client [] = (client, [])
  run mode client (e ∷ es) =
      let (client', effects) = step mode client e in
      let (client'', later) = run mode client' es in (client'', effects ++ later)
