-- ===== src/Loader.antt =====
-- lib/lib/file_loader.js and lib/lib/patterns_loader.js: the lines of configuration files, of all files
-- of a directory, and of the pattern files. The files are a parameter, and so is the parser that is
-- generated from the grammar.
pub mod Order
pub mod Urls
pub mod Laws
use node_logstash.Js.Value.{Value, Error, message, Result, ok, throw, ◌>>=◌}
use node_logstash.Js.Convert.{Engine}
use node_logstash.Js.Trim.{trim}
use node_logstash.Component.Config.{split}
use node_logstash.Mapper.{Config, Writers, map_config}
use node_logstash.Loader.Order.{sort}
use node_logstash.Prelude.{
  Bool, true, false, not, ◌||◌, Option, none, some, List, [], ◌∷◌, ◌++◌, ◌==◌, if◌then◌else◌, any,
  Text, codes, ◌===◌, index_of,
}

-- What the program asks of the file system, and `path.join`.
pub record Disk : Type 0 where
  pub read_file : Text → Result Text
  pub read_dir : Text → Result (List Text)
  pub exists : Text → Bool
  pub path_join : Text → Text → Text

abbrev pub is_kept : Text → Bool
is_kept [] = false
is_kept (c ∷ s) = not (c == b'#')

-- `forEach` with the test of a line
unfoldable pub keep_lines : List Text → List Text
unfolding trim
keep_lines [] = []
keep_lines (k ∷ ks) = let rest = keep_lines ks in if is_kept (trim k) then trim k ∷ rest else rest

abbrev pub has : Text → Text → Bool
has p s = elim (index_of p s) [ none ↦ false | some i ↦ true ]

-- A line of urls, and not of the syntax of logstash.
abbrev pub has_urls : Text → Bool
has_urls s = has (codes "input://") s || has (codes "output://") s || has (codes "filter://") s

module _ (js : Engine) (w : Writers) (parse : Text → Result Config)
    (error_text : Error → Text) where
  unfoldable pub filter : Bool → Text → Result (List Text)
  unfolding keep_lines trim split map_config
  filter processing s =
      if trim s === []
      then ok []
      else if not processing || has_urls s
      then ok (keep_lines (split b'\n' s))
      else (parse s >>= λ c. ok (map_config js w c))

  abbrev explained : Text → Result (List Text) → Result (List Text)
  explained name (ok l) = ok l
  explained name (throw e) =
      throw
        (message (codes "Processing error for file " ++ (name ++ (codes " : " ++ error_text e))))

  unfoldable pub load_file : Disk → Bool → Text → Result (List Text)
  unfolding filter
  load_file d processing name =
      d.read_file name >>= λ content. explained name (filter processing content)

  -- `async.reduce` over the files
  unfoldable pub load_files : Disk → Bool → Text → List Text → List Text → Result (List Text)
  unfolding load_file
  load_files d processing dir [] result = ok result
  load_files d processing dir (f ∷ fs) result =
      load_file d processing (d.path_join dir f) >>= λ result2.
      load_files d processing dir fs (result ++ result2)

  unfoldable pub load_directory : Disk → Bool → Text → Result (List Text)
  unfolding load_files sort
  load_directory d processing dir =
      d.read_dir dir >>= λ files. load_files d processing dir (sort files) []

  -- `loadGrokPatterns`
  unfoldable pub load_grok_patterns : Disk → List Text → List Text → Result (List Text)
  unfolding load_directory
  load_grok_patterns d [] l = ok l
  load_grok_patterns d (dir ∷ dirs) l =
      let name = dir ++ codes "/grok" in
      if d.exists name
      then (load_directory d false name >>= λ ll. load_grok_patterns d dirs (l ++ ll))
      else load_grok_patterns d dirs l

-- `add` of patterns_loader
unfoldable pub add : Text → List Text → List Text
add dir dirs = if any (λ d. d === dir) dirs then dirs else dirs ++ dir ∷ []

module _ (parse_json : Text → Result Value) (error_text : Error → Text) where
  abbrev parsed : Text → Result Value → Result Value
  parsed name (ok v) = ok v
  parsed name (throw e) =
      throw (message (codes "Unable to parse file " ++ (name ++ (codes " : " ++ error_text e))))

  -- `async.reduce` over the directories
  unfoldable pub load_from : Disk → Text → List Text → Option Value → Result (Option Value)
  load_from d name [] value = ok value
  load_from d name (dir ∷ dirs) value =
      let f = d.path_join dir name in
      if d.exists f
      then (d.read_file f >>= λ content.
          parsed name (parse_json content) >>= λ json. load_from d name dirs (some json))
      else load_from d name dirs value

  abbrev pub found : Text → Option Value → Result Value
  found name none = throw (message (codes "Pattern file " ++ (name ++ codes " not found")))
  found name (some v) = ok v

  -- `load` of patterns_loader
  unfoldable pub load : Disk → List Text → Text → Result Value
  unfolding load_from
  load d directories name = load_from d name directories none >>= λ r. found name r
