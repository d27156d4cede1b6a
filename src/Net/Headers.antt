-- ===== src/Net/Headers.antt =====
-- http.Header: a multimap from canonical keys to values. The keys of the model are canonical
-- already; `canonical_key` is what Go applies to a key that arrives as data.
use decision_gateway.Prelude.{
  ℕ, ◌+◌, ◌-◌, ◌≡◌, refl, ◌∙◌, ◌≢◌, Bool, true, false, not, ◌&&◌, ◌||◌, List, [], ◌∷◌, ◌++◌, map,
  arith, leb, ◌==◌, if◌then◌else◌, All, Text, text_eq, text_eq_refl, text_eq_iff,
}
use mathlib.Core.List.{reverse}

abbrev pub Headers : Type 0
Headers = List (Text × Text)

-- `h.Get(k)`: the first value, or "".
unfoldable pub get : Text → Headers → Text
get k [] = []
get k ((j, v) ∷ h) = if text_eq j k then v else get k h

-- `_, ok := h[k]`
unfoldable pub has : Text → Headers → Bool
has k [] = false
has k ((j, v) ∷ h) = text_eq j k || has k h

-- `h.Del(k)`
unfoldable pub del : Text → Headers → Headers
del k [] = []
del k ((j, v) ∷ h) = if text_eq j k then del k h else (j, v) ∷ del k h

-- `h.Add(k, v)`
abbrev pub add : Text → Text → Headers → Headers
add k v h = h ++ (k, v) ∷ []

-- `h.Set(k, v)`
unfoldable pub set : Text → Text → Headers → Headers
set k v h = (k, v) ∷ del k h

-- `h.Values(k)`
unfoldable pub values : Text → Headers → List Text
values k [] = []
values k ((j, v) ∷ h) = if text_eq j k then v ∷ values k h else values k h

-- `copyHeader` of httputil: every value is added.
abbrev pub copy_all : Headers → Headers → Headers
copy_all dst src = dst ++ src

-- Deletes each of the keys.
unfoldable pub del_all : List Text → Headers → Headers
del_all [] h = h
del_all (k ∷ ks) h = del_all ks (del k h)

is_lower : ℕ → Bool
is_lower c = leb b'a' c && leb c b'z'

is_upper : ℕ → Bool
is_upper c = leb b'A' c && leb c b'Z'

-- The first letter and those after a dash are capitals, the others are not.
canonical_from : Bool → Text → Text
canonical_from start [] = []
canonical_from start (c ∷ s) =
    (if start && is_lower c then c - 32 else if not start && is_upper c then c + 32 else c)
    ∷ canonical_from (c == b'-') s

unfoldable pub canonical_key : Text → Text
unfolding canonical_from is_lower is_upper
canonical_key s = canonical_from true s

-- `strings.Split(s, ",")`
unfoldable pub split_commas : Text → Text → List Text
split_commas cur [] = cur ∷ []
split_commas cur (c ∷ s) =
    let closed = cur ∷ split_commas [] s in
    let longer = split_commas (cur ++ c ∷ []) s in if c == b',' then closed else longer

is_space : ℕ → Bool
is_space c = c == 32 || c == 9 || c == 10 || c == 13

trim_left : Text → Text
trim_left [] = []
trim_left (c ∷ s) = if is_space c then trim_left s else c ∷ s

-- `textproto.TrimString`
unfoldable pub trim : Text → Text
unfolding trim_left is_space
trim s = reverse (trim_left (reverse (trim_left s)))

-- The keys that the values of a Connection header name.
unfoldable pub named_keys : List Text → List Text
unfolding canonical_key split_commas trim
named_keys [] = []
named_keys (v ∷ vs) = map (λ t. canonical_key (trim t)) (split_commas [] v) ++ named_keys vs

pub get-set_self : (k v : Text) (h : Headers) → get k (set k v h) ≡ v
unfolding get set
get-set_self k v h = rw (text_eq_refl k)

pub get-copy_all : (k : Text) (h src : Headers) → has k h ≡ true → get k (copy_all h src) ≡ get k h
unfolding get has
get-copy_all k [] src e = cc
get-copy_all k ((j, v) ∷ h) src e = ground (arith, get-copy_all k h src)

pub has-copy_all : (k : Text) (h src : Headers) → has k h ≡ true → has k (copy_all h src) ≡ true
unfolding has
has-copy_all k [] src e = cc
has-copy_all k ((j, v) ∷ h) src e = ground (arith, has-copy_all k h src)

pub has-set_self : (k v : Text) (h : Headers) → has k (set k v h) ≡ true
unfolding has set
has-set_self k v h = rw (text_eq_refl k)

pub has-del_ne : (k j : Text) (h : Headers) → j ≢ k → has k (del j h) ≡ has k h
unfolding has del
has-del_ne k j [] ne = refl
has-del_ne k j ((i, v) ∷ h) ne =
    ground (arith, text_eq_iff i k, text_eq_iff i j, has-del_ne k j h ne)

pub get-del_ne : (k j : Text) (h : Headers) → j ≢ k → get k (del j h) ≡ get k h
unfolding get del
get-del_ne k j [] ne = refl
get-del_ne k j ((i, v) ∷ h) ne =
    ground (arith, text_eq_iff i k, text_eq_iff i j, get-del_ne k j h ne)

pub get-set_ne : (k j v : Text) (h : Headers) → j ≢ k → get k (set j v h) ≡ get k h
unfolding get set
get-set_ne k j v h ne = ground (arith, text_eq_iff j k, get-del_ne k j h ne)

pub get-del_all :
    (k : Text) (ks : List Text) (h : Headers) → All (λ j. j ≢ k) ks → get k (del_all ks h) ≡ get k h
unfolding del_all
get-del_all k [] h ne = refl
get-del_all k (j ∷ ks) h ne = get-del_all k ks (del j h) ne.1 ∙ get-del_ne k j h ne.0

values-del_ne : (k j : Text) (h : Headers) → j ≢ k → values k (del j h) ≡ values k h
unfolding values del
values-del_ne k j [] ne = refl
values-del_ne k j ((i, v) ∷ h) ne =
    ground (arith, text_eq_iff i k, text_eq_iff i j, values-del_ne k j h ne)

pub values-set_ne : (k j v : Text) (h : Headers) → j ≢ k → values k (set j v h) ≡ values k h
unfolding values set
values-set_ne k j v h ne = ground (arith, text_eq_iff j k, values-del_ne k j h ne)
