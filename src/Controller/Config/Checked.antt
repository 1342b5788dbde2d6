-- ===== src/Controller/Config/Checked.antt =====
-- What a configuration that passes the check is.
use nexguard_sentinel.Prelude.{
  String, Bool, true, false, List, [], ◌∷◌, ◌==◌, nats_eq, string_eq, if◌then◌else◌, ◌≡◌, refl, ap,
  sym, ◌∙◌, arith, Bool-cases, inl, inr, ◌↔◌,
}
use nexguard_sentinel.Python.Exec.{Result, ok, err}
use nexguard_sentinel.Python.Text.{Text, strip}
use nexguard_sentinel.Controller.Config.{
  Libraries, gateway_document, no_value, parse_yaml, loaded, verdict, validate_schema, check_parsed,
  check_config_text, is_yaml_error,
}

-- The text is not blank, it is YAML, and its value meets the schema.
pub record IsValid (L : Libraries) (t : Text) : Type 0 where
  pub not_blank : (strip t == []) ≡ false
  pub value : L.Value
  pub is_yaml : L.safe_load t ≡ ok value
  pub meets : L.model_validate gateway_document value ≡ []

module _ (L : Libraries) (t : Text) where
  IsValid-of_value :
      (v : L.Value) (errors : List String)
      → (strip t == []) ≡ false
      → L.safe_load t ≡ ok v
      → L.model_validate gateway_document v ≡ errors
      → ok (verdict L errors) ≡ ok (true, "ok")
      → IsValid L t
  IsValid-of_value v [] b l m h = record { not_blank = b; value = v; is_yaml = l; meets = m }
  IsValid-of_value v (e ∷ errors) b l m h = absurd (ground arith)

  IsValid-of_loaded :
      (r : Result L.Value)
      → (strip t == []) ≡ false
      → L.safe_load t ≡ r
      → check_parsed L (loaded L r) ≡ ok (true, "ok")
      → IsValid L t
  unfolding validate_schema
  IsValid-of_loaded (err e) b l h = absurd (go (is_yaml_error e) h)
    where
      go :
          (test : Bool)
          → check_parsed L (if test then ok (no_value "yaml_parse_error") else err e)
            ≡ ok (true, "ok")
          → ⊥
      go true h = ground arith
      go false h = ground arith
  IsValid-of_loaded (ok v) b l h =
      IsValid-of_value v (L.model_validate gateway_document v) b l refl h

  parse_yaml-loaded : (strip t == []) ≡ false → parse_yaml L t ≡ loaded L (L.safe_load t)
  unfolding parse_yaml
  parse_yaml-loaded b = rw b refl

  IsValid-of_accepted : check_config_text L t ≡ ok (true, "ok") → IsValid L t
  unfolding check_config_text parse_yaml
  IsValid-of_accepted h = elim (Bool-cases (strip t == [])) [
    | inl blank ↦ absurd (ground arith)
    | inr b ↦
        IsValid-of_loaded (L.safe_load t) b refl
          (ap (check_parsed L) (sym (parse_yaml-loaded b)) ∙ h)
  ]

  accepted-of_valid : IsValid L t → check_config_text L t ≡ ok (true, "ok")
  unfolding check_config_text parse_yaml validate_schema
  accepted-of_valid v = rw (v.not_blank, v.is_yaml, v.meets) refl

-- A text passes the check exactly if it is not blank, it is YAML, and pydantic finds no error in its
-- value; then the reason is "ok".
pub check_config_text-accepts :
    (L : Libraries) (t : Text) → (check_config_text L t ≡ ok (true, "ok")) ↔ IsValid L t
check_config_text-accepts L t = (IsValid-of_accepted L t, accepted-of_valid L t)
