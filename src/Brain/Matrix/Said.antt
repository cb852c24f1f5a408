-- ===== src/Brain/Matrix/Said.antt =====
-- Who has said PASS when the verdict is PASS.
use mathlib.Core.Option
use mathlib.Core.Option.{some-injective}
use ai_ops_runner.Base.{
  Option-cases, ◌≡◌, refl, sym, ap, ◌∙◌, ◌≢◌, ◌⊎◌, inl, inr, Bool, false, Option, none, some, List,
  [], ◌∷◌, arith,
}
use ai_ops_runner.Base.Dict
use ai_ops_runner.Base.Dict.{Dict}
use ai_ops_runner.Base.Json.{Json}
use ai_ops_runner.Base.Text.{Text, codes, text_eq_iff}
use ai_ops_runner.Brain.Checks.{MatrixStatus, pass, fail, Seen}
use ai_ops_runner.Brain.Matrix.{
  Doctor, Matrix, str_of, run_doctor_live, status_of_text, status_in, seen_with, seen_in, bundle_in,
  in_bundle, overridden, with_bundle, live, mocked, run_matrix,
}

-- the payload's status is PASS
unfoldable pub Says : Doctor → Dict Json → Type 0
Says d p = (v : Json) × (Dict.get p "status" ≡ some v) × (str_of d v ≡ codes "PASS")

-- The doctors have answered with a payload that names a bundle, and the bundle's RESULT.json says PASS,
-- or the payload does where there is none.
pub record DoctorsPassed (d : Doctor) : Type 0 where
  payload : Dict Json
  failed : Bool
  answered : run_doctor_live d ≡ some (payload, failed)
  has_bundle : bundle_in d (Dict.get payload "bundle_dir") ≢ []
  says :
      ((d.result_file (bundle_in d (Dict.get payload "bundle_dir")) ≡ none) × Says d payload)
      ⊎ ((q : Dict Json) × (d.result_file (bundle_in d (Dict.get payload "bundle_dir")) ≡ some q)
          × Says d q)

unfoldable pub SaidPass : Doctor → Option (Text × Seen) → Type 0
SaidPass d (some (dir, s)) = s.status ≡ pass
SaidPass d none = DoctorsPassed d

status_in-Says :
    (d : Doctor) (o : Option Json)
    → status_in d o ≡ pass
    → (v : Json) × (o ≡ some v) × (str_of d v ≡ codes "PASS")
unfolding status_in status_of_text
status_in-Says d none h = cc
status_in-Says d (some v) h = (v, refl, ground (arith, h, text_eq_iff (str_of d v) (codes "PASS")))

seen_with_status :
    (st : MatrixStatus) (d : Doctor) (o : Option (List Json)) (s : Seen)
    → seen_with st d o ≡ some s
    → st ≡ s.status
unfolding seen_with
seen_with_status st d none s h = cc
seen_with_status st d (some vs) s h = ap (λ (x : Seen). x.status) (some-injective _ s h)

seen_in-Says :
    (d : Doctor) (p : Dict Json) (s : Seen) → seen_in d p ≡ some s → s.status ≡ pass → Says d p
unfolding seen_in Says
seen_in-Says d p s h up =
    status_in-Says d (Dict.get p "status")
      (seen_with_status (status_in d (Dict.get p "status")) d _ s h ∙ up)

in_bundle_seen :
    (dir : Text) (o : Option Seen) (m : Matrix) → in_bundle dir o ≡ some m → o ≡ some m.seen
unfolding in_bundle
in_bundle_seen dir none m h = cc
in_bundle_seen dir (some s) m h =
    ap (λ (x : Matrix). some x.seen) (some-injective record { seen = s; bundle_dir = dir } m h)

overridden-Says :
    (d : Doctor) (dir : Text) (p : Dict Json) (s : Seen) (o : Option (Dict Json)) (m : Matrix)
    → seen_in d p ≡ some s
    → overridden d dir s o ≡ some m
    → m.seen.status ≡ pass
    → ((o ≡ none) × Says d p) ⊎ ((q : Dict Json) × (o ≡ some q) × Says d q)
unfolding overridden
overridden-Says d dir p s none m e h up =
    inl (refl, seen_in-Says d p m.seen (e ∙ in_bundle_seen dir (some s) m h) up)
overridden-Says d dir p s (some q) m e h up =
    inr (q, refl, seen_in-Says d q m.seen (in_bundle_seen dir (seen_in d q) m h) up)

with_bundle-Says :
    (d : Doctor) (p : Dict Json) (o : Option Seen) (dir : Text) (m : Matrix)
    → seen_in d p ≡ o
    → with_bundle d o dir ≡ some m
    → m.seen.status ≡ pass
    → (dir ≢ [])
      × (((d.result_file dir ≡ none) × Says d p)
          ⊎ ((q : Dict Json) × (d.result_file dir ≡ some q) × Says d q))
unfolding with_bundle
with_bundle-Says d p none dir m e h up = cc
with_bundle-Says d p (some s) [] m e h up = cc
with_bundle-Says d p (some s) (c ∷ dir) m e h up =
    (λ nil. cc, overridden-Says d (c ∷ dir) p s (d.result_file (c ∷ dir)) m e h up)

live-DoctorsPassed :
    (d : Doctor) (o : Option (Dict Json × Bool)) (m : Matrix) (failed : Bool)
    → run_doctor_live d ≡ o
    → live d o ≡ some (m, failed)
    → m.seen.status ≡ pass
    → DoctorsPassed d
unfolding live
live-DoctorsPassed d none m failed e h up = cc
live-DoctorsPassed d (some (p, b)) m failed e h up =
    let dir = bundle_in d (Dict.get p "bundle_dir") in
    elim (Option-cases (with_bundle d (seen_in d p) dir)) [
      | inl none_there ↦ absurd (ground (arith, none_there, h))
      | inr (x, found) ↦
          let same : ◌≡◌ {A = Matrix × Bool} (x, b) (m, failed) =
            some-injective (x, b) (m, failed)
              (sym (ap (Option.map {B = Matrix × Bool} (λ y. (y, b))) found) ∙ h) in
          let said =
            with_bundle-Says d p (seen_in d p) dir x refl found
              (ap (λ (y : Matrix × Bool). y.0.seen.status) same ∙ up) in
          record { payload = p; failed = b; answered = e; has_bundle = said.0; says = said.1 }
    ]

mocked_passed :
    (dir : Text) (st : MatrixStatus) (checks : List Text) (m : Matrix) (failed : Bool)
    → ◌≡◌ {A = Option (Matrix × Bool)} (some (mocked dir st checks, false)) (some (m, failed))
    → m.seen.status ≡ pass
    → st ≡ pass
unfolding mocked
mocked_passed dir pass checks m failed h up = refl
mocked_passed dir fail checks m failed h up =
    ap (λ (y : Matrix × Bool). y.0.seen.status) (some-injective _ (m, failed) h) ∙ up

pub run_matrix-SaidPass :
    (d : Doctor) (mock : Option (Text × Seen)) (m : Matrix) (failed : Bool)
    → run_matrix d mock ≡ some (m, failed)
    → m.seen.status ≡ pass
    → SaidPass d mock
unfolding run_matrix SaidPass
run_matrix-SaidPass d none m failed h up =
    live-DoctorsPassed d (run_doctor_live d) m failed refl h up
run_matrix-SaidPass d (some (dir, s)) m failed h up =
    mocked_passed dir s.status s.failed_checks m failed h up
