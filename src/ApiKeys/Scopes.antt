-- ===== src/ApiKeys/Scopes.antt =====
-- The arrays that marshalArr writes read back, in apikey.go as in auth.
use ykt_aisaas.Base.{
  ◌≡◌, ◌≢◌, refl, sym, ap, ◌∙◌, true, false, List, [], ◌∷◌, ◌++◌, Text, text_eq, ◌==◌, All,
  append_assoc, append_nil, arith,
}
use ykt_aisaas.Auth.Lists.{parse_json_arr}
use ykt_aisaas.Auth.Lists.Reading.{quoted, joined, json_array, IsWord, parse_json_arr-json_array}
use ykt_aisaas.ApiKeys.{marshal_rest, marshal_arr, flushed, parse_quotes, parse_scope}

quoted-append : (v s : Text) → quoted v ++ s ≡ 34 ∷ (v ++ 34 ∷ s)
quoted-append v s = ap (λ t. 34 ∷ t) (append_assoc v (34 ∷ []) s)

joined-marshal_rest :
    (v : Text) (vs : List Text) → 34 ∷ (v ++ 34 ∷ marshal_rest vs) ≡ joined v vs ++ 93 ∷ []
unfolding marshal_rest
joined-marshal_rest v [] = sym (quoted-append v (93 ∷ []))
joined-marshal_rest v (t ∷ ts) =
    sym (quoted-append v (44 ∷ 34 ∷ (t ++ 34 ∷ marshal_rest ts)))
    ∙ (ap (λ s. quoted v ++ 44 ∷ s) (joined-marshal_rest t ts)
        ∙ sym (append_assoc (quoted v) (44 ∷ joined t ts) (93 ∷ [])))

-- Where no string needs an escape, marshalArr writes what json.Marshal would.
marshal_arr-json_array : (ts : List Text) → marshal_arr ts ≡ json_array ts
unfolding marshal_arr
marshal_arr-json_array [] = refl
marshal_arr-json_array (v ∷ vs) = ap (λ s. 91 ∷ s) (joined-marshal_rest v vs)

pub parse_json_arr-marshal_arr :
    (ts : List Text) → All IsWord ts → parse_json_arr (marshal_arr ts) ≡ ts
parse_json_arr-marshal_arr ts h =
    ap parse_json_arr (marshal_arr-json_array ts) ∙ parse_json_arr-json_array ts h

-- Inside quotes, up to the closing one
parse_word :
    (w cur s : Text) (out : List Text)
    → All (λ c. (c ≢ 34) × (c ≢ 44)) w
    → parse_quotes true cur out (w ++ 34 ∷ s) ≡ parse_quotes false [] (flushed (cur ++ w) out) s
unfolding parse_quotes
parse_word [] cur s out h = rw (append_nil cur) refl
parse_word (c ∷ w) cur s out h =
    let other : (c == 34) ≡ false = ground (arith, h.0.0) in
    rw other (
      parse_word w (cur ++ c ∷ []) s out h.1
      ∙ ap (λ t. parse_quotes false [] (flushed t out) s) (append_assoc cur (c ∷ []) w))

flushed-word : (w : Text) (out : List Text) → IsWord w → flushed w out ≡ out ++ w ∷ []
unfolding flushed
flushed-word [] out h = absurd (h.0 refl)
flushed-word (c ∷ w) out h = refl

parse_rest :
    (vs : List Text) (out : List Text)
    → All IsWord vs
    → parse_quotes false [] out (marshal_rest vs) ≡ out ++ vs
unfolding marshal_rest parse_quotes
parse_rest [] out h = sym (append_nil out)
parse_rest (v ∷ vs) out h =
    parse_word v [] (marshal_rest vs) out h.0.1
    ∙ (ap (λ o. parse_quotes false [] o (marshal_rest vs)) (flushed-word v out h.0)
        ∙ (parse_rest vs (out ++ v ∷ []) h.1 ∙ append_assoc out (v ∷ []) vs))

-- The scopes and addresses that marshalArr stores, none of them empty or with a quote or a comma,
-- are read back as they were, by the rotation of a key (parseScope) and by its check (parseJSONArr).
pub scopes_read_back :
    (ts : List Text)
    → All IsWord ts
    → (parse_scope (marshal_arr ts) ≡ ts) × (parse_json_arr (marshal_arr ts) ≡ ts)
unfolding parse_scope text_eq marshal_arr
scopes_read_back ts h = (read ts h, parse_json_arr-marshal_arr ts h)
  where
    read : (ts : List Text) → All IsWord ts → parse_scope (marshal_arr ts) ≡ ts
    read [] h = refl
    read (v ∷ vs) h =
        parse_word v [] (marshal_rest vs) [] h.0.1
        ∙ (ap (λ o. parse_quotes false [] o (marshal_rest vs)) (flushed-word v [] h.0)
            ∙ parse_rest vs (v ∷ []) h.1)
