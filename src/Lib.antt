-- ===== src/Lib.antt =====
-- A model of node-logstash: an agent that reads log lines with input plugins, passes each as a
-- message, a JavaScript object, through a chain of filter plugins, and hands it to output
-- plugins.
--
-- How the parts of the program interact, and which file models which:
--
-- - lib/lib/config_mapper.js turns a parsed configuration into urls, one for each plugin, in
--   which an `if` is spelled as the conditions that were false before and the one that is true.
--   Mapper models it, and Mapper.Spec says what an `if` means.
-- - lib/lib/url_parser.js takes the urls apart again: Url.
-- - lib/lib/file_loader.js reads the urls from files and directories, and
--   lib/lib/patterns_loader.js finds pattern files: Loader, with the order of a directory in
--   Loader.Order, and in Loader.Urls how a file of urls is told from one of the syntax of
--   logstash.
-- - lib/agent.js sorts the urls, starts the plugins, wires the filters and closes the inputs
--   while an output has an alarm: Agent.Start, Agent.Pipeline (`start_filters`, and the
--   emitting of a message through the listeners), Agent.Delivery (what inputs give to the first
--   filter and how outputs listen to the last), Agent.Configure (the finding and initialising
--   of a plugin), Agent.Alarm (the handlers of `alarm` and SIGUSR1) and Agent.Close.
-- - lib/lib/base_component.js is the base of every plugin: Component.Filtering is
--   `processMessage`, Component.Template is `replaceByFields` with its cache, Component.Tags
--   the four functions on tags and fields, Component.Config is `loadConfig`, where hooks are
--   functions on the component, Component.Config.Merge `mergeConfig`, and Component.Reading the
--   part of `loadConfig` that reads `message_filtering`. Condition is
--   lib/lib/condition_evaluator.js, which `processMessage` calls.
-- - lib/lib/base_filter.js and the filters in lib/filters: Filter.Base is the handler of
--   `input`; Filter.Split, Filter.HttpStatus, Filter.SyslogPri and Filter.Multiline (with
--   lib/lib/base_filter_buffer.js) are one filter each; Filter.Simple has eight short ones;
--   Filter.RegexHelper is lib/lib/regex_helper.js, which the filters with patterns share, and
--   Filter.Regex is lib/filters/filter_regex.js, which reads pattern files by Loader.
-- - lib/filters/filter_grok.js: Filter.Grok reads the pattern files and shares them between the
--   filters, Filter.Grok.Expand expands a pattern and processes a message, and
--   Filter.Grok.Start is its start. Filter.Geoip is `process` of lib/filters/filter_geoip.js,
--   and Filter.Cache the cache of lib/lib/cache_helper.js that it looks up in.
--   Filter.JsonFields is `process` of lib/filters/filter_json_fields.js and
--   lib/filters/filter_bunyan.js.
-- - lib/lib/monitor_file.js and lib/lib/tail_file.js read files as they grow: Tailer is
--   `FdTailer` and `split_buffer`; Tailer.Requests adds the reads in flight as a step relation.
--   Tailer.Monitor is `MonitoredFile`, which opens a file again when it is renamed or replaced:
--   one function for each callback of `restart` and each event, which Tailer.Monitor.Watch
--   takes from the directory; Tailer.Monitor.Opens adds the calls of `fs` in flight.
-- - lib/lib/directory_watcher.js: Watcher is `register` and `unregister`, with the
--   registrations that last as its specification in Watcher.Listeners, and Watcher.Events what
--   the listeners make of an event on each platform.
-- - lib/lib/base_input.js and lib/lib/base_output.js: Input.Serial is how data are read into
--   messages and messages written. Input.Files is the registry of lib/inputs/input_file.js,
--   which starts and closes the monitors.
-- - lib/outputs/output_file.js writes files: Output.File is `FileWriter`, whose callbacks,
--   timers and methods are the events of one step function, and Output.Files the table of
--   writers.
-- - The plugins for redis: Input.Redis is lib/inputs/input_redis.js with its loop of `blpop`,
--   and Output.Redis lib/outputs/output_redis.js. Filter.ReverseDns is
--   lib/filters/filter_reverse_dns.js. Output.WebSocket is lib/outputs/output_ws.js,
--   Output.Statsd the packets of lib/outputs/output_statsd.js, Output.Http the requests of
--   lib/outputs/abstract_http.js, and Input.Gae the polling of lib/inputs/input_gae.js.
-- - The outputs on the network: Output.Tcp is the shared connection of
--   lib/outputs/abstract_tcp.js, Output.ZeroMq the alarm of lib/outputs/abstract_zeromq.js,
--   Output.ElasticSearch the bulk buffer of lib/outputs/output_elasticsearch.js with
--   lib/lib/elastic_search_helper.js. Driver.Amqp is the client of lib/lib/amqp_driver.js, with
--   the attempts, timers and connections that it has outside.
-- - lib/lib/error_buffer.js limits the reports of a failing plugin: ErrorBuffer.
-- - Js has what the program uses of JavaScript: values, objects as lists of fields, numbers as
--   exact dyadic fractions, strings as lists of UTF-16 code units (Prelude.Texts), and thrown
--   errors as a result type. The engine's printing and reading of numbers, its conversions to a
--   number and its regular expressions are the record Js.Convert.Engine, a parameter.
--
-- Other code that is not in the repository is a parameter where it is called: querystring, JSON,
-- msgpack, the clock and its format, the decoding of bytes, the deep copy of a message. The tests
-- in Tests give concrete ones.
--
-- Loops without a bound in the source recurse on fuel: `drain` of Tailer, `split_texts` of
-- Filter.Split and `parse` of Component.Template each remove at least one character in a round,
-- so that the length of the text plus one is enough; so does the loop of Filter.Grok.Expand. The
-- recursion of `expand` there is as deep as the stack allows, a parameter; beyond it an error is
-- thrown, as the engine does for patterns that refer to each other in a circle. `fill0` of
-- Output.ElasticSearch recurses on the width, where the source goes on below 0 for ever; `emit`
-- of Agent.Pipeline has one more than the number of filters. The theorems on them are stated for
-- that fuel or for any that is larger.
--
-- Assumptions: no field, key or template is named like a property of Object.prototype; the order
-- of fields is that of their creation, also for names that look like numbers; the values of
-- add_fields are given. Logging has no effect here. The alarm counter of the agent is kept as two
-- counters whose difference it is. A clock that runs backwards gives a negative age, which is
-- below every delay.
--
-- An order of callbacks is a list of events or a chain of steps; the functions that wait for
-- `setImmediate` are a queue in Filter.Grok. Regular expressions that users write, the package
-- lru-cache, and the databases of addresses are parameters. Trimming removes the white space of
-- the current standard.
--
-- Not modelled: the closing of a monitored file, the sockets and requests of the network inputs
-- and outputs, the other outputs and filters (gelf, http, eval), the detection of missing
-- directories, and the generated parser lib/logstash_config.js with its grammar.
pub mod Prelude
pub mod Js
pub mod Condition
pub mod Component
pub mod Url
pub mod ErrorBuffer
pub mod Agent
pub mod Mapper
pub mod Loader
pub mod Watcher
pub mod Filter
pub mod Output
pub mod Driver
pub mod Input
pub mod Tailer
pub mod Tests
