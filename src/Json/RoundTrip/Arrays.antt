-- ===== src/Json/RoundTrip/Arrays.antt =====
-- Arrays of simple values of src/safeharbor/server/DBjson.go.
use safe_harbor_server.Base.{
  ℕ, zero, suc, ◌+◌, ◌<◌, true, false, Option, none, some, List, [], ◌∷◌, ◌++◌, ◌≡◌, refl, ap, ◌∙◌,
  arith, ◌==◌, Bool-cases, inl, inr, length,
}
use mathlib.Core.List.{append_assoc, map}
use safe_harbor_server.Auth.Sessions.{Bytes}
use safe_harbor_server.Json.Tokens.{
  is_special, is_space, word, skip_space, token_at, find_next_token, is_token,
}
use safe_harbor_server.Json.Values.{
  Value, Items, Kind, nil, cons, array, anything, kind_of, same_kind,
}
use safe_harbor_server.Json.Reader.{Read, done, next}
use safe_harbor_server.Json.Simple.{Codec, parse_simple_value}
use safe_harbor_server.Json.Parse.{
  expect, appended, or_nil, elements_after, item_then, value_from, parse_value, parse_array_value,
  parse_comma_value,
}
use safe_harbor_server.Json.Print.{separated, list_json}

-- Neither whitespace nor a bracket comes first.
abbrev pub Starts : Bytes → Type 0
Starts [] = ⊥
Starts (c ∷ cs) = (is_space c ≡ false) × (((c == b'[') ≡ false) × ((c == b']') ≡ false))

pub Starts-append : (s t : Bytes) → Starts s → Starts (s ++ t)
Starts-append [] t h = absurd h
Starts-append (c ∷ cs) t h = h

is_token-other : (k c : ℕ) (cs : Bytes) → (c == k) ≡ false → is_token k (c ∷ cs) ≡ false
is_token-other k c [] h = h
is_token-other k c (x ∷ xs) h = refl

word-append : (s : Bytes) → (word s).0 ++ (word s).1 ≡ s
unfolding word
word-append [] = refl
word-append (c ∷ cs) = elim (Bool-cases (is_space c)) [
  | inl e ↦ rw e refl
  | inr e ↦ rw e (elim (Bool-cases (is_special c)) [
    | inl e' ↦ rw e' refl
    | inr e' ↦ rw e' (ap (λ s. c ∷ s) (word-append cs))
  ])
]

-- The first token of a text that starts so: it is no bracket, and pushing it back gives the text.
abbrev Unread : Bytes × Bytes → Bytes → Type 0
Unread (token, rest) s =
    ((token ++ rest ≡ s) × (0 < length token))
    × ((is_token b'[' token ≡ false) × (is_token b']' token ≡ false))

first_token : (s : Bytes) → Starts s → Unread (find_next_token s) s
unfolding find_next_token skip_space token_at
first_token [] h = absurd h
first_token (c ∷ cs) h = rw h.0 (elim (Bool-cases (is_special c)) [
  | inl e ↦ rw e ((refl, omega arith), h.1)
  | inr e ↦ rw e (
    (ap (λ s. c ∷ s) (word-append cs), omega arith),
    (is_token-other b'[' c (word cs).0 h.1.0, is_token-other b']' c (word cs).0 h.1.1),
  )
])

abbrev pub All : {A : Type 0} → (A → Type 0) → List A → Type 0
All P [] = Unit
All P (x ∷ xs) = P x × All P xs

-- The elements as they are read.
abbrev pub items : {A : Type 0} → (A → Value) → List A → Items
items val [] = nil
items val (x ∷ xs) = cons (val x) (items val xs)

abbrev found : {A : Type 0} → (A → Value) → List A → Option Items
found val [] = none
found val (x ∷ xs) = some (items val (x ∷ xs))

-- The array as it is read: without elements it has lost their type.
abbrev pub array_of : {A : Type 0} → (A → Value) → Kind → List A → Value
array_of val k [] = array anything nil
array_of val k (x ∷ xs) = array k (items val (x ∷ xs))

module _ (codec : Codec) where
  value_from-simple :
      (p : Bytes → Read (Option Value)) (t r s : Bytes)
      → t ++ r ≡ s
      → 0 < length t
      → is_token b'[' t ≡ false
      → value_from codec p t r ≡ parse_simple_value codec s
  unfolding value_from
  value_from-simple p [] r s e lt h = absurd (omega arith)
  value_from-simple p (c ∷ cs) r s e lt h = rw h (ap (parse_simple_value codec) e)

  -- Such a text is left to parseJSON_simple_value.
  pub value-Starts :
      (f : ℕ) (s : Bytes) → Starts s → parse_value codec (suc f) s ≡ parse_simple_value codec s
  unfolding parse_value
  value-Starts f s h =
      let first = first_token s h in
      value_from-simple (parse_array_value codec f) (find_next_token s).0 (find_next_token s).1 s
        first.0.0 first.0.1 first.1.0

  pub parse_value-space :
      (f : ℕ) (s : Bytes) → parse_value codec (suc f) (b' ' ∷ s) ≡ parse_value codec (suc f) s
  unfolding parse_value find_next_token skip_space is_space
  parse_value-space f s = refl

  comma_step :
      (f : ℕ) (k : Kind) (s : Bytes)
      → parse_comma_value codec (suc f) k (b',' ∷ b' ' ∷ s)
        ≡ next (parse_value codec f (b' ' ∷ s)) (item_then k (parse_comma_value codec f k))
  unfolding parse_comma_value
  comma_step f k s = refl

  value_bracket :
      (f : ℕ) (s : Bytes)
      → parse_value codec (suc f) (b'[' ∷ s) ≡ parse_array_value codec f (b'[' ∷ s)
  unfolding parse_value value_from find_next_token
  value_bracket f s = refl

  array_step :
      (f : ℕ) (s : Bytes)
      → Starts s
      → parse_array_value codec (suc f) (b'[' ∷ s)
        ≡ next (parse_value codec f s) (elements_after (parse_comma_value codec f))
  unfolding parse_comma_value
  array_step f s h =
      let first = first_token s h in
      rw first.1.1 (
        ap (λ r. next (parse_value codec f r) (elements_after (parse_comma_value codec f)))
          first.0.0)

  -- The elements: how they are written, what they are read as, and which are fit for it.
  module _ {A : Type 0} (print : A → Bytes) (val : A → Value) (Fits : A → Type 0) (k : Kind)
      (same : same_kind k k ≡ true) (kinds : (a : A) → kind_of (val a) ≡ k)
      (starts : (a : A) → Starts (print a))
      (reads : (a : A) (d : ℕ) (rest : Bytes)
        → Fits a
        → is_special d ≡ true
        → parse_simple_value codec (print a ++ d ∷ rest) ≡ done (some (val a)) (d ∷ rest)) where
    -- Further elements, and what follows the array.
    abbrev ends : List A → Bytes → Bytes
    ends xs rest = separated (map print xs) ++ b']' ∷ rest

    ends-cons :
        (x : A) (xs : List A) (rest : Bytes)
        → ends (x ∷ xs) rest ≡ b',' ∷ b' ' ∷ (print x ++ ends xs rest)
    ends-cons x xs rest =
        ap (λ s. b',' ∷ b' ' ∷ s) (append_assoc (print x) (separated (map print xs)) (b']' ∷ rest))

    element :
        (f : ℕ) (x : A) (xs : List A) (rest : Bytes)
        → Fits x
        → parse_value codec (suc f) (print x ++ ends xs rest) ≡ done (some (val x)) (ends xs rest)
    unfolding is_special
    element f x [] rest h =
        value-Starts f _ (Starts-append (print x) (ends [] rest) (starts x))
        ∙ reads x b']' rest h refl
    element f x (y ∷ ys) rest h =
        value-Starts f _ (Starts-append (print x) (ends (y ∷ ys) rest) (starts x))
        ∙ reads x b',' _ h refl

    or_nil-found : (xs : List A) → or_nil (found val xs) ≡ items val xs
    or_nil-found [] = refl
    or_nil-found (x ∷ xs) = refl

    item_then-fits :
        (more : Bytes → Read (Option Items)) (x : A) (xs : List A) (s t : Bytes)
        → more s ≡ done (found val xs) t
        → item_then k more (some (val x)) s ≡ done (some (cons (val x) (items val xs))) t
    unfolding item_then appended
    item_then-fits more x xs s t e =
        rw (kinds x) (rw same (rw e (ap (λ is. done (some (cons (val x) is)) t) (or_nil-found xs))))

    comma_value-ends :
        (f : ℕ) (xs : List A) (rest : Bytes)
        → All Fits xs
        → length xs + 1 < f
        → parse_comma_value codec f k (ends xs rest) ≡ done (found val xs) (b']' ∷ rest)
    unfolding parse_comma_value
    comma_value-ends zero xs rest h lt = absurd (omega arith)
    comma_value-ends (suc zero) xs rest h lt = absurd (omega arith)
    comma_value-ends (suc (suc f)) [] rest h lt = refl
    comma_value-ends (suc (suc f)) (x ∷ xs) rest h lt =
        ap (parse_comma_value codec (suc (suc f)) k) (ends-cons x xs rest)
        ∙ comma_step (suc f) k (print x ++ ends xs rest)
        ∙ ap (λ r. next r (item_then k (parse_comma_value codec (suc f) k)))
            (parse_value-space f (print x ++ ends xs rest) ∙ element f x xs rest h.0)
        ∙ item_then-fits (parse_comma_value codec (suc f) k) x xs (ends xs rest) (b']' ∷ rest)
            (comma_value-ends (suc f) xs rest h.1 (omega arith))

    elements_after-fits :
        (more : Kind → Bytes → Read (Option Items)) (x : A) (xs : List A) (s rest : Bytes)
        → more k s ≡ done (found val xs) (b']' ∷ rest)
        → elements_after more (some (val x)) s
          ≡ done (some (array k (cons (val x) (items val xs)))) rest
    unfolding elements_after expect
    elements_after-fits more x xs s rest e =
        rw (kinds x)
          (rw e (ap (λ is. done (some (array k (cons (val x) is))) rest) (or_nil-found xs)))

    -- An array as it is written is read, with fuel for its elements.
    pub value-list_json :
        (f : ℕ) (xs : List A) (rest : Bytes)
        → All Fits xs
        → length xs + 2 < f
        → parse_value codec f (list_json (map print xs) ++ rest)
          ≡ done (some (array_of val k xs)) rest
    unfolding parse_value
    value-list_json zero xs rest h lt = absurd (omega arith)
    value-list_json (suc zero) xs rest h lt = absurd (omega arith)
    value-list_json (suc (suc f)) [] rest h lt = refl
    value-list_json (suc (suc zero)) (x ∷ xs) rest h lt = absurd (omega arith)
    value-list_json (suc (suc (suc f))) (x ∷ xs) rest h lt =
        let shape : list_json (map print (x ∷ xs)) ++ rest ≡ b'[' ∷ (print x ++ ends xs rest) =
          ap (λ s. b'[' ∷ s)
            (append_assoc (print x ++ separated (map print xs)) (b']' ∷ []) rest
              ∙ append_assoc (print x) (separated (map print xs)) (b']' ∷ rest)) in
        ap (parse_value codec (suc (suc (suc f)))) shape
        ∙ value_bracket (suc (suc f)) (print x ++ ends xs rest)
        ∙ array_step (suc f) (print x ++ ends xs rest)
            (Starts-append (print x) (ends xs rest) (starts x))
        ∙ ap (λ r. next r (elements_after (parse_comma_value codec (suc f))))
            (element f x xs rest h.0)
        ∙ elements_after-fits (parse_comma_value codec (suc f)) x xs (ends xs rest) rest
            (comma_value-ends (suc f) xs rest h.1 (omega arith))
