-- ===== src/Js/Object.antt =====
-- Reading, writing and deleting the own fields of an object, and the laws of the three.
use node_logstash.Js.Number.{num_eq, num_ge, num_lt}
use node_logstash.Js.Value.{Value, undefined, null, bool, num, str, Fields, end, field}
use node_logstash.Prelude.{
  ◌≡◌, refl, ap, ◌∙◌, Bool, true, false, not, List, [], ◌∷◌, arith, if◌then◌else◌, Text, ◌===◌,
  ===_iff, ===_refl,
}

-- `o[k]`
unfoldable pub get : Text → Fields → Value
get k end = undefined
get k (field j v o) = if j === k then v else get k o

-- `o[k] = v`: a new field is the last one.
unfoldable pub set : Text → Value → Fields → Fields
set k v end = field k v end
set k v (field j w o) = if j === k then field j v o else field j w (set k v o)

-- `delete o[k]`
unfoldable pub delete : Text → Fields → Fields
delete k end = end
delete k (field j v o) = if j === k then delete k o else field j v (delete k o)

-- `for (k in p) o[k] = p[k]`
unfoldable pub set_all : Fields → Fields → Fields
unfolding set
set_all end o = o
set_all (field k v p) o = set_all p (set k v o)

-- `Object.keys(o)`
unfoldable pub keys : Fields → List Text
keys end = []
keys (field j v o) = j ∷ keys o

pub get-set :
    (j k : Text) (v : Value) (o : Fields) → get j (set k v o) ≡ (if k === j then v else get j o)
unfolding get set
get-set j k v end = refl
get-set j k v (field i w o) = ground (arith, ===_iff i k, ===_iff i j, ===_iff k j, get-set j k v o)

pub get-set_self : (k : Text) (v : Value) (o : Fields) → get k (set k v o) ≡ v
get-set_self k v o = simp (get-set, ===_refl)

pub get-set_ne :
    (j k : Text) (v : Value) (o : Fields) → (k === j) ≡ false → get j (set k v o) ≡ get j o
get-set_ne j k v o h = rw (get-set j k v o, h)

pub get-delete :
    (j k : Text) (o : Fields) → get j (delete k o) ≡ (if k === j then undefined else get j o)
unfolding get delete
get-delete j k end = ground arith
get-delete j k (field i w o) =
    ground (arith, ===_iff i k, ===_iff i j, ===_iff k j, get-delete j k o)

pub get-delete_self : (k : Text) (o : Fields) → get k (delete k o) ≡ undefined
get-delete_self k o = simp (get-delete, ===_refl)

pub get-delete_ne : (j k : Text) (o : Fields) → (k === j) ≡ false → get j (delete k o) ≡ get j o
get-delete_ne j k o h = rw (get-delete j k o, h)

pub ===_sym : (s t : Text) → (s === t) ≡ (t === s)
===_sym s t = ground (arith, ===_iff s t, ===_iff t s)

-- `a === b` where one comes from a configuration and the other from a message, so that no array or
-- object is both.
unfoldable pub strict_eq : Value → Value → Bool
unfolding num_eq num_ge num_lt
strict_eq undefined undefined = true
strict_eq null null = true
strict_eq (bool true) (bool b) = b
strict_eq (bool false) (bool b) = not b
strict_eq (num m) (num n) = num_eq m n
strict_eq (str s) (str t) = s === t
strict_eq _ _ = false

-- The last value that a name has in an object that is copied.
abbrev pub last_of {ℓ} : {A : Type ℓ} → (Value → A) → Text → Fields → A → A
last_of wrap k end old = old
last_of wrap k (field j v p) old = last_of wrap k p (if j === k then wrap v else old)

pub get-set_all : (k : Text) (p o : Fields) → get k (set_all p o) ≡ last_of (λ v. v) k p (get k o)
unfolding set_all
get-set_all k end o = refl
get-set_all k (field j v p) o =
    get-set_all k p (set j v o) ∙ ap (last_of (λ v. v) k p) (get-set k j v o)
