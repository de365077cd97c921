-- ===== src/Output/Files.antt =====
-- `OutputFile` of lib/outputs/output_file.js: the table of writers, by the names of their files.
-- Only the numbers of the writers are kept here; what a writer does is in Output.File.
pub mod Laws
use node_logstash.Js.Value.{Fields}
use node_logstash.Js.Convert.{Engine}
use node_logstash.Component.Template.{Cache, replace_by_fields}
use node_logstash.Prelude.{
  Option, none, some, List, [], ◌∷◌, ◌++◌, ℕ, ◌+◌, if◌then◌else◌, Text, ◌===◌,
}

-- `this.writers`, and the number of the next new writer.
pub record OutputFile : Type 0 where
  pub writers : List (Text × ℕ)
  pub next : ℕ

pub data Action : Type 0 where
  -- `new FileWriter` for a file
  open_writer : Text → ℕ → Action
  write_line : ℕ → Text → Action
  end_writer : ℕ → Action
  -- the error buffer gets an error
  no_filename : Action

-- `this.writers[filename]`
unfoldable pub find : Text → List (Text × ℕ) → Option ℕ
find f [] = none
find f ((g, w) ∷ ws) = if g === f then some w else find f ws

-- `delete this.writers[filename]`
unfoldable pub forget : Text → List (Text × ℕ) → List (Text × ℕ)
forget f [] = []
forget f ((g, w) ∷ ws) = if g === f then forget f ws else (g, w) ∷ forget f ws

-- `getWriter`: the writer, and the actions that make it.
unfoldable pub get_writer : Text → OutputFile → OutputFile × ℕ × List Action
unfolding find
get_writer f o = elim (find f o.writers) [
  | some w ↦ (o, w, [])
  | none ↦ (
    record { writers = o.writers ++ (f, o.next) ∷ []; next = o.next + 1 },
    o.next,
    open_writer f o.next ∷ [],
  )
]

-- `closeAll` of all writers, which `reopen` and `close` call; one that ends without an error.
unfoldable pub end_all : List (Text × ℕ) → List Action
end_all [] = []
end_all ((f, w) ∷ ws) = end_writer w ∷ end_all ws

unfoldable pub reopen : OutputFile → OutputFile × List Action
unfolding end_all
reopen o = (record o { writers = [] }, end_all o.writers)

module _ (js : Engine) (now_text : Text → Text) (serialize_data : Fields → Option Text) where
  abbrev write_to : Option Text → Text → Text → OutputFile → OutputFile × List Action
  write_to none line delimiter o = (o, no_filename ∷ [])
  write_to (some []) line delimiter o = (o, no_filename ∷ [])
  write_to (some (c ∷ f)) line delimiter o =
      let (o', w, actions) = get_writer (c ∷ f) o in
      (o', actions ++ write_line w (line ++ delimiter) ∷ [])

  -- `process`: a line that is undefined or empty is not written. The cache of templates is handed on.
  unfoldable pub process :
      Text
      → Text
      → Cache js now_text
      → Fields
      → OutputFile
      → Cache js now_text × OutputFile × List Action
  unfolding get_writer
  process path delimiter cache data' o = elim (serialize_data data') [
    | none ↦ (cache, o, [])
    | some [] ↦ (cache, o, [])
    | some (c ∷ line) ↦
        let (cache', filename) = replace_by_fields js now_text cache data' path in
        let (o', actions) = write_to filename (c ∷ line) delimiter o in (cache', o', actions)
  ]
