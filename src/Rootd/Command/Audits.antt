-- ===== src/Rootd/Command/Audits.antt =====
-- What the audit records of `handle_command` hold, and when there is none.
use ai_ops_runner.Base.{
  if◌then◌else◌, Bool-cases, Option-cases, eq_iff, ◌==◌, string_eq, contains, String, ◌≡◌, refl,
  ◌⊎◌, inl, inr, true, ◌&&◌, none, some, [], ◌∷◌, ◌++◌, arith,
}
use ai_ops_runner.Base.Dict
use ai_ops_runner.Base.Dict.{Dict}
use ai_ops_runner.Base.Json.{Json, as_text}
use ai_ops_runner.Base.Text.{Text}
use ai_ops_runner.Policy.{Policy, validate_rootd_command}
use ai_ops_runner.Rootd.Exec.{Host}
use ai_ops_runner.Rootd.Command.{
  sensitive_fields, redacted, redact_body, Result, Audit, World, choose_run_id, command_args, route,
  truncate, audited, completed, refusal, Reply, handle_command,
}

-- An audit shows a field of the request as it is, unless the field's own name is sensitive: then
-- it shows the mark. What stands below another field, such as `args`, is shown as it is.
pub get-redact_body :
    (request : Dict Json) (k : String)
    → Dict.get (redact_body request) k ≡ (
        if contains sensitive_fields k && Dict.has request k
        then some redacted
        else Dict.get request k)
unfolding redact_body Dict.get
get-redact_body [] k = ground arith
get-redact_body ((j, v) ∷ d) k = elim (Bool-cases (j == k)) [
  | inl same ↦ let e = (eq_iff j k).0 same in rw e (ground (arith, (eq_iff k k).1 refl))
  | inr other ↦ ground (arith, other, get-redact_body d k)
]

-- the audit that `_write_audit` writes
abbrev pub audit_of : String → Dict Json → Result → Text → Text → Audit
audit_of r request res out err = record {
  run_id = r;
  request = redact_body request;
  result = res;
  stdout = truncate 512_000 out;
  stderr = truncate 128_000 err;
}

-- a call that ends with `res` under the text run id `r` has written one audit that says so, which takes
-- the place of what the run id's directory held
abbrev pub AuditedAs : Dict Json → World → String → Result → Reply → Type 0
AuditedAs request w r res reply =
    (a : Audit) × (reply.0.audits ≡ w.audits ++ a ∷ [])
    × (reply.0.directories ≡ Dict.put w.directories r a)
    × (a.result ≡ res)
    × (a.run_id ≡ r)
    × (a.request ≡ redact_body request)

audited-text :
    (v : Json) (request : Dict Json) (res : Result) (out err : Text) (w : World) (r : String)
    → as_text v ≡ some r
    → audited v request res out err w ≡ (
      record w {
        audits = w.audits ++ audit_of r request res out err ∷ [];
        directories = Dict.put w.directories r (audit_of r request res out err);
      },
      some res,
    )
unfolding audited
audited-text v request res out err w r t = ground arith

module _ (h : Host) (p : Policy) (fresh c : String) (request : Dict Json) (w : World) where
  -- With a text as run id, a call that ends with a result has written one audit, of that result
  -- and of the redacted request, which is what the directory of the run id then holds.
  pub handle_command_audits :
      (r : String) (res : Result)
      → as_text (choose_run_id request fresh) ≡ some r
      → (handle_command h p fresh c request w).1 ≡ some res
      → AuditedAs request w r res (handle_command h p fresh c request w)
  unfolding handle_command
  handle_command_audits r res t e =
      let v = choose_run_id request fresh in
      let verdict = validate_rootd_command p c (command_args request) in
      elim (Option-cases (route h c (command_args request))) [
        | inl stuck ↦
            let no = refusal c v verdict in
            let same = audited-text v request no [] [] w r t in
            (
              audit_of r request no [] [],
              ground (arith, same),
              ground (arith, same),
              ground (arith, same),
              refl,
              refl,
            )
        | inr (x, run) ↦ elim (Bool-cases verdict.allowed) [
          | inl passes ↦
              let done = completed c v verdict x in
              let after : World = record w { effects = w.effects ++ x.0 } in
              let same = audited-text v request done x.1.1 x.1.2 after r t in
              (
                audit_of r request done x.1.1 x.1.2,
                ground (arith, same),
                ground (arith, same),
                ground (arith, same),
                refl,
                refl,
              )
          | inr fails ↦
              let no = refusal c v verdict in
              let same = audited-text v request no [] [] w r t in
              (
                audit_of r request no [] [],
                ground (arith, same),
                ground (arith, same),
                ground (arith, same),
                refl,
                refl,
              )
        ]
      ]

  -- the run id is no text, or the command is allowed and its execution raises
  pub IsUnaudited : Type 0
  IsUnaudited =
      (as_text (choose_run_id request fresh) ≡ none)
      ⊎ (((validate_rootd_command p c (command_args request)).allowed ≡ true)
          × (route h c (command_args request) ≡ none))
