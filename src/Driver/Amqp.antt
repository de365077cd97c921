-- ===== src/Driver/Amqp.antt =====
-- `createAmqpClient` and `buildUrl` of lib/lib/amqp_driver.js. Connections and channels are known by
-- numbers.
pub mod Laws
use node_logstash.Prelude.{
  Bool, true, false, ◌&&◌, Option, none, some, List, [], ◌∷◌, ◌++◌, ℕ, ◌+◌, ◌-◌, ltb, if◌then◌else◌,
  length, Text, codes,
}

-- The variables of `createAmqpClient`.
pub record Client : Type 0 where
  pub current_connection : Option ℕ
  pub connect_timeout : Bool
  pub channel : Option ℕ
  pub closing : Bool

pub data Effect : Type 0 where
  -- `amqp.connect`
  connect : Effect
  -- `setTimeout(connect, ...)`, kept in `connect_timeout` or not, and `clearTimeout`
  set_timeout set_lost_timeout clear_timeout : Effect
  create_channel : ℕ → Effect
  close_connection : ℕ → Effect
  connected_callback : ℕ → Effect
  disconnected_callback : Option ℕ → Effect
  -- The callback of `close`, at once
  closed_callback : Effect

unfoldable pub try_connect : Client → Client × List Effect
try_connect c = (record c { connect_timeout = false }, connect ∷ [])

unfoldable pub new_client : Client × List Effect
unfolding try_connect
new_client =
    try_connect
      record { current_connection = none; connect_timeout = false; channel = none; closing = false }

-- The callback of `amqp.connect`; the channel is known once `createChannel` has returned it.
unfoldable pub on_connect : Option (ℕ × ℕ) → Client → Client × List Effect
on_connect none c = (record c { connect_timeout = true }, set_timeout ∷ [])
on_connect (some (conn, ch)) c =
    if c.closing
    then (c, [])
    else (record c { current_connection = some conn; channel = some ch }, create_channel conn ∷ [])

-- The handler of `close` of a connection.
unfoldable pub on_close : Client → Client × List Effect
on_close c = (
  record c { current_connection = none; channel = none },
  disconnected_callback c.channel ∷ (if c.closing then [] else set_lost_timeout ∷ []),
)

-- The callback of `createChannel`.
unfoldable pub on_channel : Option ℕ → Client → Client × List Effect
on_channel none c = (c, [])
on_channel (some ch) c = (record c { channel = some ch }, connected_callback ch ∷ [])

abbrev close_effects : Option ℕ → List Effect
close_effects none = closed_callback ∷ []
close_effects (some conn) = close_connection conn ∷ []

-- `close` of the client. The number of a timer that has fired or was cleared is kept.
unfoldable pub close : Client → Client × List Effect
close c = (
  record c { closing = true },
  (if c.connect_timeout then clear_timeout ∷ [] else []) ++ close_effects c.current_connection,
)

-- What is under way outside: calls of `amqp.connect`, timers that are kept or not, and connections
-- that are open. Only the latter are closed by the peer.
pub record World : Type 0 where
  pub client : Client
  pub connecting : ℕ
  pub timers : ℕ
  pub lost_timers : ℕ
  pub live : ℕ

pub data Event : Type 0 where
  answered : Option (ℕ × ℕ) → Event
  fired lost_fired disconnected : Event
  channel_made : Option ℕ → Event
  closing_asked : Event

unfoldable pub perform : List Effect → World → World
perform [] w = w
perform (connect ∷ es) w = perform es (record w { connecting = w.connecting + 1 })
perform (set_timeout ∷ es) w = perform es (record w { timers = w.timers + 1 })
perform (set_lost_timeout ∷ es) w = perform es (record w { lost_timers = w.lost_timers + 1 })
perform (clear_timeout ∷ es) w = perform es (record w { timers = 0 })
perform (_ ∷ es) w = perform es w

abbrev resume : Client × List Effect → World → World × List Effect
resume (c, es) w = (perform es (record w { client = c }), es)

abbrev opened : Option (ℕ × ℕ) → ℕ
opened none = 0
opened (some p) = 1

-- The connection of the client has a handler; one that opened after `close` has none.
abbrev on_disconnected : Option ℕ → World → World × List Effect
on_disconnected none w = (w, [])
on_disconnected (some conn) w = resume (on_close w.client) w

-- An answer, a timer or a disconnection that cannot happen leaves the world as it is.
unfoldable pub step : World → Event → World × List Effect
unfolding try_connect on_connect on_close on_channel close perform
step w (answered r) =
    if ltb 0 w.connecting
    then resume (on_connect r w.client)
        (record w { connecting = w.connecting - 1; live = w.live + opened r })
    else (w, [])
step w fired =
    if ltb 0 w.timers
    then resume (try_connect w.client) (record w { timers = w.timers - 1 })
    else (w, [])
step w lost_fired =
    if ltb 0 w.lost_timers
    then resume (try_connect w.client) (record w { lost_timers = w.lost_timers - 1 })
    else (w, [])
step w disconnected =
    if ltb 0 w.live
    then on_disconnected w.client.current_connection (record w { live = w.live - 1 })
    else (w, [])
step w (channel_made r) = resume (on_channel r w.client) w
step w closing_asked = resume (close w.client) w

unfoldable pub run : World → List Event → World × List Effect
unfolding step
run w [] = (w, [])
run w (e ∷ es) =
    let (w', effects) = step w e in let (w'', later) = run w' es in (w'', effects ++ later)

-- The world once the client is created.
unfoldable pub started : World
unfolding new_client
started = record { client = new_client.0; connecting = 1; timers = 0; lost_timers = 0; live = 0 }

pub record Options : Type 0 where
  pub ssl : Bool
  -- empty where they are missing
  pub username : Text
  pub password : Text
  pub host : Text
  pub port : Text
  pub vhost : Text

unfoldable pub build_url : Options → Text
build_url o =
    (if o.ssl then codes "amqps" else codes "amqp")
    ++ (codes "://"
        ++ ((if ltb 0 (length o.username) && ltb 0 (length o.password)
              then o.username ++ (codes ":" ++ (o.password ++ codes "@"))
              else [])
            ++ (o.host ++ (codes ":" ++ (o.port ++ o.vhost)))))
