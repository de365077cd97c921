-- ===== src/Url/Laws.antt =====
-- Urls are cut at the first separator.
use node_logstash.Js.Number.{is_nan}
use node_logstash.Js.Convert.{Engine}
use node_logstash.Url.{Protocol, separator, extract_protocol, extract_port_number}
use node_logstash.Prelude.{
  Lacks, take-append, drop-append, drop-add, index_of_sound, index_of-append, ◌≡◌, inl, inr, none,
  some, [], ◌∷◌, ◌++◌, arith, ◌+◌, if◌then◌else◌, Option-cases, length, drop, Text, codes, index_of,
}

-- A url that is written as a protocol with no colon, the separator and a rest is taken apart into
-- these two.
extract_protocol_written :
    (protocol next : Text)
    → Lacks b':' protocol
    → extract_protocol (protocol ++ (separator ++ next))
      ≡ some (record { protocol = protocol; next = next })
unfolding extract_protocol
extract_protocol_written protocol next h =
    let url = protocol ++ (separator ++ next) in
    let found : index_of separator url ≡ some (length protocol) =
      index_of-append b':' (codes "//") protocol next h in
    let behind : drop (length protocol + 3) url ≡ next =
      rw (← drop-add (length protocol) 3 url, drop-append protocol (separator ++ next)) in
    rw (found, extract_protocol) (rw (take-append protocol (separator ++ next), behind))

-- Whatever is extracted is the url, cut at a separator.
extract_protocol_sound :
    (url : Text) (p : Protocol)
    → extract_protocol url ≡ some p
    → url ≡ p.protocol ++ (separator ++ p.next)
unfolding extract_protocol
extract_protocol_sound url p h = elim (Option-cases (index_of separator url)) [
  | inl e ↦ ground arith
  | inr (i, e) ↦
      let whole = index_of_sound separator url i e in let later = drop-add i 3 url in ground arith
]

module _ (js : Engine) where
  -- A host with no colon, a colon and a port that reads as a number are taken apart into the host and
  -- the number; where the port reads as NaN there is no result.
  extract_port_number_written :
      (host port : Text)
      → Lacks b':' host
      → extract_port_number js (host ++ (b':' ∷ port)) ≡ (
          if is_nan (js.parse_int port)
          then none
          else some (record { host = host; port = js.parse_int port }))
  unfolding extract_port_number
  extract_port_number_written host port h =
      let whole = host ++ (b':' ∷ port) in
      let found : index_of (codes ":") whole ≡ some (length host) =
        index_of-append b':' [] host port h in
      let behind : drop (length host + 1) whole ≡ port =
        rw (← drop-add (length host) 1 whole, drop-append host (b':' ∷ port)) in
      rw (found, extract_port_number) (rw (take-append host (b':' ∷ port), behind))
