-- ===== src/Gateway/Agreement.antt =====
-- The simulator and the controller judge the configuration alike.
use nexguard_sentinel.Prelude.{
  String, Bool, true, false, List, [], ◌∷◌, ◌==◌, nats_eq, string_eq, if◌then◌else◌, ◌≡◌, refl, sym,
  ◌∙◌, arith, Bool-cases, inl, inr, ◌↔◌,
}
use nexguard_sentinel.Python.Exec.{
  Result, ok, err, value_error, continue, pure, lift, handled, is_read_error, raise,
}
use nexguard_sentinel.Python.Text.{Text, strip}
use nexguard_sentinel.Disk.{FilePath, Disk}
use nexguard_sentinel.Controller.Backup.{is_missing}
use nexguard_sentinel.Controller.Config.{
  Libraries, gateway_document, read_text, read_source, on_text, check_config, check_config_text,
  Source, contents, unread,
}
use nexguard_sentinel.Controller.Config.Checked.{IsValid, check_config_text-accepts}
use nexguard_sentinel.Gateway.{
  Answer, gateway_config_document, validated, of_mapping, parse_document, load_config,
  config_is_valid, answer, health, is_config_error, is_invalid,
}

module _ (L : Libraries) where
  -- The read of the text returned a text, which is valid.
  abbrev Reads : Result Text → Type 0
  Reads r = (x : Text) × (r ≡ ok x) × IsValid L x

  -- `check_config`, once the read of the text has returned or raised.
  abbrev as_source : Result Text → Disk → Result (Source L) × Disk
  as_source r t = continue r (λ x. pure (contents x)) t

  abbrev source_of : Result Text → Disk → Result (Source L) × Disk
  source_of r t =
      handled (as_source r t).0 (as_source r t).1 is_read_error
        (λ e. pure (unread (if is_missing e then "file_not_found" else "read_error")))

  abbrev controller : Result Text → Disk → Result (Bool × String)
  controller r t =
      (continue (source_of r t).0 (on_text L (check_config_text L)) (source_of r t).1).0

  controller-of :
      (p : FilePath) (s : Disk)
      → (check_config L p s).0 ≡ controller (read_text L p s).0 (read_text L p s).1
  unfolding check_config read_source
  controller-of p s = refl

  Reads-of_controller : (r : Result Text) (t : Disk) → controller r t ≡ ok (true, "ok") → Reads r
  Reads-of_controller (ok x) t h = (x, refl, (check_config_text-accepts L x).0 h)
  Reads-of_controller (err e) t h = elim (Bool-cases (is_read_error e)) [
    | inl y ↦ absurd (ground arith)
    | inr n ↦ absurd (ground arith)
  ]

  controller-of_Reads : (r : Result Text) (t : Disk) → Reads r → controller r t ≡ ok (true, "ok")
  controller-of_Reads (ok x) t (y, e, v) =
      let same : x ≡ y = ground arith in rw same ((check_config_text-accepts L y).1 v)
  controller-of_Reads (err e) t (y, h, v) = absurd (ground arith)

  -- The answer of the simulator, once the read of the text has returned or raised.
  abbrev loaded_of : Result Text → Disk → Result L.Value × Disk
  loaded_of r t =
      handled (continue r (λ x. lift (parse_document L x)) t).0
        (continue r (λ x. lift (parse_document L x)) t).1 is_config_error
        (λ _. raise (value_error "config_invalid"))

  abbrev valid_of : Result L.Value → Disk → Result Bool × Disk
  valid_of d t =
      handled (continue d (λ _. pure true) t).0 (continue d (λ _. pure true) t).1 is_invalid
        (λ _. pure false)

  abbrev answer_of : Result L.Value → Disk → Result Answer
  answer_of d t = (continue (valid_of d t).0 (λ valid. pure (answer L valid)) (valid_of d t).1).0

  abbrev simulator : Result Text → Disk → Result Answer
  simulator r t = answer_of (loaded_of r t).0 (loaded_of r t).1

  simulator-of :
      (p : FilePath) (s : Disk)
      → (health L p s).0 ≡ simulator (read_text L p s).0 (read_text L p s).1
  unfolding health config_is_valid load_config
  simulator-of p s = refl

  abbrev healthy : Result Answer
  healthy = ok (answer L true)

  -- Only a load that returned is answered as healthy.
  returned-of_healthy :
      (d : Result L.Value) (t : Disk) → answer_of d t ≡ healthy → (v : L.Value) × (d ≡ ok v)
  returned-of_healthy (ok v) t h = (v, refl)
  returned-of_healthy (err e) t h = elim (Bool-cases (is_invalid e)) [
    | inl y ↦ absurd (ground arith)
    | inr n ↦ absurd (ground arith)
  ]

  validated-returned :
      (w v : L.Value) (errors : List String) → validated L w errors ≡ ok v → errors ≡ []
  validated-returned w v [] h = refl
  validated-returned w v (e ∷ errors) h = absurd (ground arith)

  IsValid-of_mapping :
      (x : Text) (r : Result L.Value) (v : L.Value)
      → (strip x == []) ≡ false
      → L.safe_load x ≡ r
      → of_mapping L r ≡ ok v
      → IsValid L x
  IsValid-of_mapping x (err e) v b l h = absurd (ground arith)
  IsValid-of_mapping x (ok w) v b l h = elim (Bool-cases (L.is_dict w)) [
    | inr no_dict ↦ absurd (ground arith)
    | inl dict ↦ record {
      not_blank = b;
      value = w;
      is_yaml = l;
      meets = validated-returned w v (L.model_validate gateway_config_document w) (ground arith);
    }
  ]

  IsValid-of_document : (x : Text) (v : L.Value) → parse_document L x ≡ ok v → IsValid L x
  unfolding parse_document
  IsValid-of_document x v h = elim (Bool-cases (strip x == [])) [
    | inl blank ↦ absurd (ground arith)
    | inr b ↦ IsValid-of_mapping x (L.safe_load x) v b refl (ground arith)
  ]

  caught : Result L.Value → Disk → Result L.Value × Disk
  caught d t = handled d t is_config_error (λ _. raise (value_error "config_invalid"))

  caught-returned : (d : Result L.Value) (t : Disk) (v : L.Value) → (caught d t).0 ≡ ok v → d ≡ ok v
  unfolding caught
  caught-returned (ok w) t v h = h
  caught-returned (err e) t v h = elim (Bool-cases (is_config_error e)) [
    | inl y ↦ absurd (ground arith)
    | inr n ↦ absurd (ground arith)
  ]

  Reads-of_simulator : (r : Result Text) (t : Disk) → simulator r t ≡ healthy → Reads r
  unfolding caught
  Reads-of_simulator (ok x) t h =
      let (v, e) = returned-of_healthy (loaded_of (ok x) t).0 (loaded_of (ok x) t).1 h in
      (x, refl, IsValid-of_document x v (caught-returned (parse_document L x) t v e))
  Reads-of_simulator (err e) t h =
      let (v, l) = returned-of_healthy (loaded_of (err e) t).0 (loaded_of (err e) t).1 h in
      let f : err e ≡ ok v = caught-returned (err e) t v l in absurd (ground arith)

  -- pydantic accepts mappings only, as its models do in strict mode.
  module _
      (mappings : (v : L.Value)
        → L.model_validate gateway_document v ≡ []
        → L.is_dict v ≡ true) where
    document-of_valid : (x : Text) → (i : IsValid L x) → parse_document L x ≡ ok i.value
    unfolding parse_document
    document-of_valid x i = rw (i.not_blank, i.is_yaml, mappings i.value i.meets, i.meets) refl

    simulator-of_Reads : (r : Result Text) (t : Disk) → Reads r → simulator r t ≡ healthy
    simulator-of_Reads (ok x) t (y, e, i) =
        let same : x ≡ y = ground arith in rw (same, document-of_valid y i) refl
    simulator-of_Reads (err e) t (y, h, i) = absurd (ground arith)

-- If pydantic accepts mappings only, as its strict models do, then on every disk, with whichever
-- failures, the simulator answers that it is healthy exactly if the controller's check accepts the
-- same configuration.
pub health-agrees :
    (L : Libraries) (p : FilePath) (s : Disk)
    → ((v : L.Value) → L.model_validate gateway_document v ≡ [] → L.is_dict v ≡ true)
    → ((health L p s).0 ≡ ok (answer L true)) ↔ ((check_config L p s).0 ≡ ok (true, "ok"))
health-agrees L p s mappings =
    let r = (read_text L p s).0 in
    let t = (read_text L p s).1 in
    (
      λ h.
          controller-of L p s
          ∙ controller-of_Reads L r t (Reads-of_simulator L r t (sym (simulator-of L p s) ∙ h)),
      λ h.
          simulator-of L p s
          ∙ simulator-of_Reads L mappings r t
              (Reads-of_controller L r t (sym (controller-of L p s) ∙ h)),
    )
