-- ===== src/Loader/Urls.antt =====
-- The lines by which a file of urls is told from one of the syntax of logstash.
use node_logstash.Loader.{has, has_urls}
use node_logstash.Prelude.{
  ◌≡◌, refl, sym, ap, ◌∙◌, inl, inr, Bool, true, false, ◌||◌, List, [], ◌∷◌, ◌++◌, append-nil,
  arith, ℕ, Bool-cases, any, Text, codes, starts_with, join,
}

-- A url, as a line is recognised to be one.
abbrev pub is_url : Text → Bool
is_url l =
    starts_with (codes "input://") l
    || starts_with (codes "output://") l
    || starts_with (codes "filter://") l

-- A text that begins with another, or has it later, has it.
has_here : (p s : Text) → starts_with p s ≡ true → has p s ≡ true
has_here p [] h = rw (has, h) refl
has_here p (d ∷ s) h = rw (has, h) refl

has_later : (p : Text) (d : ℕ) (s : Text) → has p s ≡ true → has p (d ∷ s) ≡ true
has_later p d s h = ground arith

has-append : (p a s : Text) → has p s ≡ true → has p (a ++ s) ≡ true
has-append p [] s h = h
has-append p (d ∷ a) s h = has_later p d (a ++ s) (has-append p a s h)

starts_with_more : (p s t : Text) → starts_with p s ≡ true → starts_with p (s ++ t) ≡ true
starts_with_more [] s t h = refl
starts_with_more (c ∷ p) [] t h = absurd (ground arith)
starts_with_more (c ∷ p) (d ∷ s) t h = ground (arith, starts_with_more p s t)

one_of_three :
    (a b c : Bool) {x y z : Bool}
    → (a ≡ true → x ≡ true)
    → (b ≡ true → y ≡ true)
    → (c ≡ true → z ≡ true)
    → (a || b || c) ≡ true
    → (x || y || z) ≡ true
one_of_three true b c f g h e = rw (f refl) refl
one_of_three false true c f g h e = ground (arith, g refl)
one_of_three false false c f g h e = ground (arith, h e)

has_urls_here : (l t : Text) → is_url l ≡ true → has_urls (l ++ t) ≡ true
has_urls_here l t =
    one_of_three _ _ _ (begins (codes "input://")) (begins (codes "output://"))
      (begins (codes "filter://"))
  where
    begins : (p : Text) → starts_with p l ≡ true → has p (l ++ t) ≡ true
    begins p e = has_here p (l ++ t) (starts_with_more p l t e)

has_urls-append : (a s : Text) → has_urls s ≡ true → has_urls (a ++ s) ≡ true
has_urls-append a s =
    one_of_three _ _ _ (has-append (codes "input://") a s) (has-append (codes "output://") a s)
      (has-append (codes "filter://") a s)

any_only : (p : Text → Bool) (l : Text) → any p (l ∷ []) ≡ true → p l ≡ true
any_only p l h = ground arith

any_rest :
    (p : Text → Bool) (l : Text) (ls : List Text)
    → p l ≡ false
    → any p (l ∷ ls) ≡ true
    → any p ls ≡ true
any_rest p l ls e h = ground (arith, e)

-- A text that is joined of lines has what decides, where a line is a url.
pub has_urls-join :
    (l : Text) (ls : List Text)
    → any is_url (l ∷ ls) ≡ true
    → has_urls (join (b'\n' ∷ []) (l ∷ ls)) ≡ true
has_urls-join l [] h = ap has_urls (sym (append-nil l)) ∙ has_urls_here l [] (any_only is_url l h)
has_urls-join l (k ∷ ls) h = elim (Bool-cases (is_url l)) [
  | inl e ↦ has_urls_here l (b'\n' ∷ join (b'\n' ∷ []) (k ∷ ls)) e
  | inr e ↦ has_urls-append l (b'\n' ∷ join (b'\n' ∷ []) (k ∷ ls)) (
      has_urls-append (b'\n' ∷ []) (join (b'\n' ∷ []) (k ∷ ls))
        (has_urls-join k ls (any_rest is_url l (k ∷ ls) e h)))
]
