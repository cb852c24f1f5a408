-- ===== src/Kajabi/Payload/Pieces.antt =====
-- Where in the answer an extracted value stands.
use ai_ops_runner.Base.{
  ltb, Bool-cases, take, drop, ℕ, ◌+◌, ◌-◌, ◌≡◌, refl, sym, ap, ◌∙◌, inl, inr, Option, none, some,
  [], ◌∷◌, ◌++◌, append-nil, arith, take-append-drop,
}
use mathlib.Core.Option.{some-injective}
use ai_ops_runner.Base.Json.{Json}
use ai_ops_runner.Base.Text.{Text, strip}
use ai_ops_runner.Kajabi.Payload.{
  OrError, ActionSchemaError, find_char, rfind_char, span, loaded_or, brackets_in, braces_in,
  whole_or, on_text, extract_json,
}

-- the value is what the loader makes of one piece of the text, without a gap
abbrev pub IsPiece : (Text → Option Json) → Text → Json → Type 0
IsPiece loads s v =
    (a : Text) × ((t : Text) × ((b : Text) × (a ++ (t ++ b) ≡ s) × (loads t ≡ some v)))

value_of : Json → OrError Json → Json
value_of d (inl e) = d
value_of d (inr v) = v

loaded_or_sound :
    (e : ActionSchemaError) (o : Option Json) (v : Json) → loaded_or e o ≡ inr v → o ≡ some v
unfolding loaded_or value_of
loaded_or_sound e none v h = cc
loaded_or_sound e (some w) v h = ap {B = Option Json} some (ap (value_of w) h)

-- a text that is a piece of another
IsWithin : Text → Text → Type 0
IsWithin t s = (a : Text) × ((b : Text) × (a ++ (t ++ b) ≡ s))

IsWithin-span : (s t : Text) (p q : Option ℕ) → span s p q ≡ some t → IsWithin t s
unfolding span IsWithin
IsWithin-span s t none q h = cc
IsWithin-span s t (some p) none h = cc
IsWithin-span s t (some p) (some q) h = elim (Bool-cases (ltb p q)) [
  | inr e ↦ absurd (ground (arith, e, h))
  | inl e ↦
      let k = q + 1 - p in
      let same : take k (drop p s) ≡ t =
        some-injective (take k (drop p s)) t (ground (arith, e, h)) in
      (
        take p s,
        (
          drop k (drop p s),
          ap (λ (u : Text). take p s ++ (u ++ drop k (drop p s))) (sym same)
              ∙ ap (λ (u : Text). take p s ++ u) (take-append-drop k (drop p s))
              ∙ take-append-drop p s,
        ),
      )
]

module _ (loads : Text → Option Json) (v : Json) where
  piece :
      (s t : Text) (e : ActionSchemaError)
      → IsWithin t s
      → loaded_or e (loads t) ≡ inr v
      → IsPiece loads s v
  unfolding IsWithin
  piece s t e w h = (w.0, (t, (w.1.0, w.1.1, loaded_or_sound e (loads t) v h)))

  brackets_in_sound :
      (s : Text) (p q : Option ℕ) (o : Option Text)
      → span s p q ≡ o
      → brackets_in loads o ≡ inr v
      → IsPiece loads s v
  unfolding brackets_in
  brackets_in_sound s p q none e h = cc
  brackets_in_sound s p q (some t) e h = piece s t _ (IsWithin-span s t p q e) h

  braces_in_sound :
      (s : Text) (p q : Option ℕ) (o : Option Text)
      → span s p q ≡ o
      → braces_in loads s o ≡ inr v
      → IsPiece loads s v
  unfolding braces_in
  braces_in_sound s p q none e h =
      brackets_in_sound s (find_char b'[' s) (rfind_char b']' s) _ refl h
  braces_in_sound s p q (some t) e h = piece s t _ (IsWithin-span s t p q e) h

  whole_or_sound :
      (s : Text) (o : Option Json) → loads s ≡ o → whole_or loads s o ≡ inr v → IsPiece loads s v
  unfolding whole_or value_of
  whole_or_sound s (some w) e h =
      ([], (s, ([], append-nil s, e ∙ ap {B = Option Json} some (ap (value_of w) h))))
  whole_or_sound s none e h = braces_in_sound s (find_char b'{' s) (rfind_char b'}' s) _ refl h

  on_text_sound : (s : Text) → on_text loads s ≡ inr v → IsPiece loads s v
  unfolding on_text
  on_text_sound [] h = cc
  on_text_sound (c ∷ s) h = whole_or_sound (c ∷ s) (loads (c ∷ s)) refl h

  -- What `_extract_json` returns is what `json.loads` makes of one piece of the answer, taken without
  -- a gap from the text between its leading and trailing blanks.
  extract_json-IsPiece : (raw : Text) → extract_json loads raw ≡ inr v → IsPiece loads (strip raw) v
  unfolding extract_json
  extract_json-IsPiece raw h = on_text_sound (strip raw) h
