-- ===== src/Runner/Allowlist/Cache.antt =====
-- The cache of `load_allowlist` is invisible, as long as digests tell files apart.
use ai_ops_runner.Base.{
  Bool-cases, eq_iff, ◌==◌, string_eq, ◌≡◌, refl, sym, ap, ◌∙◌, inl, inr, Option, none, some,
}
use ai_ops_runner.Base.Text.{Text}
use ai_ops_runner.Runner.Allowlist.{
  Loader, Cache, Jobs, Loaded, loaded, bad_spec, parse_jobs, stored, load_allowlist,
}

-- what is cached is the allowlist of some file with the digest
abbrev pub IsValid : Loader → Cache → Type 0
IsValid l none = Unit {0}
IsValid l (some (digest, jobs)) =
    (raw : Text) × (digest ≡ l.sha256 raw) × (parse_jobs (l.yaml raw) ≡ some jobs)

-- the allowlist that the content of a file stands for
pub read_jobs : Option Jobs → Loaded
read_jobs none = bad_spec
read_jobs (some jobs) = loaded jobs

stored-lem :
    (l : Loader) (raw : Text) (o : Option Jobs) (c : Cache)
    → parse_jobs (l.yaml raw) ≡ o
    → IsValid l c
    → ((stored (l.sha256 raw) o c).0 ≡ read_jobs o) × IsValid l (stored (l.sha256 raw) o c).1
unfolding stored read_jobs
stored-lem l raw none c e v = (refl, v)
stored-lem l raw (some jobs) c e v = (refl, (raw, refl, e))

-- When no other content has the file's digest and the cache is valid, loading the file returns the
-- jobs that it stands for itself, whatever is cached, and leaves a valid cache.
pub load_allowlist-IsValid :
    (l : Loader) (raw : Text) (c : Cache)
    → ((b : Text) → l.sha256 b ≡ l.sha256 raw → b ≡ raw)
    → IsValid l c
    → ((load_allowlist l (some raw) c).0 ≡ read_jobs (parse_jobs (l.yaml raw)))
      × IsValid l (load_allowlist l (some raw) c).1
unfolding load_allowlist read_jobs
load_allowlist-IsValid l raw none distinct v =
    stored-lem l raw (parse_jobs (l.yaml raw)) none refl v
load_allowlist-IsValid l raw (some (digest, jobs)) distinct v =
    elim (Bool-cases (digest == l.sha256 raw)) [
      | inr new ↦ rw new (stored-lem l raw (parse_jobs (l.yaml raw)) (some (digest, jobs)) refl v)
      | inl hit ↦
          let same : v.0 ≡ raw = distinct v.0 (sym v.1 ∙ (eq_iff digest (l.sha256 raw)).0 hit) in
          rw hit
            (sym (ap read_jobs v.2) ∙ ap (λ (t : Text). read_jobs (parse_jobs (l.yaml t))) same, v)
    ]
