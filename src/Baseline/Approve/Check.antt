-- ===== src/Baseline/Approve/Check.antt =====
-- The approval of a baseline in src/kdiag/baseline.py against its verification before a comparison.
use k8s_check.Prelude.{
  ◌∙◌, Option, refuse-fails, and_then-stays, refuse-stays, Result-cases, String, ◌<>◌, Bool, true,
  false, ◌&&◌, ◌||◌, not, ◌≡◌, refl, sym, ap, inl, inr, none, some, List, [], ◌∷◌, ◌++◌, arith,
  if◌then◌else◌, ◌==◌, ==_iff, string_eq, option_eq, nat_eq, is_empty, ok, refuse-ok, refuse-pass,
  and_then-ok, and_then-pass, ok-injective, is_ok, join,
}
use k8s_check.Baseline.Profile.{Profile}
use k8s_check.Baseline.Approve.{
  Platform, Document, bad_digest, validate_profile, validate_candidate, create_candidate,
  document_sha, printable, approval_reasons, approved, approve_candidate, has_blockers,
  verify_approved_baseline,
}

some-equal : (a b : String) → some a ≡ some b → a ≡ b
some-equal a b h = cc

-- What `_validate_candidate` has checked.
record IsCandidate (p : Platform) (d : Document) : Type 0 where
  schema : (d.schema_version == 1) ≡ true
  algorithm : (d.hash_algorithm == some "sha256") ≡ true
  digest : bad_digest p d.profile_sha256 ≡ false
  hash : (some (p.profile_hash d.profile) == d.profile_sha256) ≡ true
  profile : (q : Profile) × (validate_profile p d.profile ≡ ok q)

reasons-empty :
    (xs ys : List String)
    → is_empty (
        (if is_empty xs then [] else ("active critical findings: " <> join ", " xs) ∷ [])
        ++ (if is_empty ys then [] else ("material collection gaps: " <> join ", " ys) ∷ []))
      ≡ not (not (is_empty xs) || not (is_empty ys))
reasons-empty [] [] = refl
reasons-empty [] (y ∷ ys) = refl
reasons-empty (x ∷ xs) ys = refl

reasons-blockers :
    (profile : Profile) → is_empty (approval_reasons profile.quality) ≡ not (has_blockers profile)
reasons-blockers profile =
    reasons-empty profile.quality.active_critical_findings profile.quality.material_gaps

reasons_given :
    (override_unsafe : Bool) (profile : Profile)
    → (override_unsafe && not (has_blockers profile)) ≡ false
    → (override_unsafe
        && is_empty (if override_unsafe then approval_reasons profile.quality else []))
      ≡ false
reasons_given true profile h = ground (arith, h, reasons-blockers profile)
reasons_given false profile h = refl

module _ (p : Platform) where
  candidate_lem : (d c : Document) → validate_candidate p d ≡ ok c → (c ≡ d) × IsCandidate p d
  unfolding validate_candidate
  candidate_lem d c h =
      let r1 = refuse-ok _ _ _ c h in
      let r2 = refuse-ok _ _ _ c r1.1 in
      let r3 = refuse-ok _ _ _ c r2.1 in
      let r4 = and_then-ok _ _ c r3.1 in
      (
        sym (ok-injective d c r4.2),
        record {
          schema = ground (arith, r1.0);
          algorithm = ground (arith, r2.0);
          digest = ground (arith, r2.0);
          hash = ground (arith, r3.0);
          profile = (r4.0, r4.1);
        },
      )

  -- What an approval that succeeds has built, and what it has checked.
  approve_lem :
      (candidate d : Document) (approved_by now : String) (override_unsafe : Bool)
      → approve_candidate p candidate approved_by now override_unsafe ≡ ok d
      → (printable (p.strip approved_by) ≡ true)
        × IsCandidate p candidate
        × ((has_blockers candidate.profile && not override_unsafe) ≡ false)
        × (d ≡ approved p candidate (p.strip approved_by) now override_unsafe)
  unfolding approve_candidate
  approve_lem candidate d approved_by now override_unsafe h =
      let r1 = refuse-ok _ _ _ d h in
      let r2 = and_then-ok _ _ d r1.1 in
      let c = candidate_lem candidate r2.0 r2.1 in
      let r3 = refuse-ok _ _ _ d (rw c.0 at r2.2) in
      (
        ground (arith, r1.0),
        c.1,
        ground (arith, r3.0, reasons-blockers candidate.profile),
        sym (ok-injective _ d r3.1),
      )

  -- A candidate with critical findings or material gaps is not approved unless the override is asked for.
  approve_candidate_blocked :
      (candidate : Document) (approved_by now : String)
      → has_blockers candidate.profile ≡ true
      → is_ok (approve_candidate p candidate approved_by now false) ≡ false
  approve_candidate_blocked candidate approved_by now blocked =
      elim (Result-cases (approve_candidate p candidate approved_by now false)) [
        | inl (m, e) ↦ rw e refl
        | inr (d, e) ↦
            absurd (ground (arith, (approve_lem candidate d approved_by now false e).2, blocked))
      ]

  passes :
      (c : Document) (author now : String) (override_unsafe : Bool)
      → ((d : Document) → p.is_sha256 (p.document_hash d) ≡ true)
      → (now == "") ≡ false
      → (author == "") ≡ false
      → IsCandidate p c
      → (has_blockers c.profile && not override_unsafe) ≡ false
      → (override_unsafe && not (has_blockers c.profile)) ≡ false
      → verify_approved_baseline p true (approved p c author now override_unsafe)
        ≡ ok (approved p c author now override_unsafe)
  unfolding verify_approved_baseline approved document_sha
  passes c author now override_unsafe hex t a k blocked pointless = refuse-pass _ _ _ _ refl (
      refuse-pass _ _ _ _ (ground (arith, k.schema)) (
        refuse-pass _ _ _ _ (ground (arith, k.algorithm)) (
          refuse-pass _ _ _ _ k.digest (
            refuse-pass _ _ _ _ (rw hex refl) (
              refuse-pass _ _ _ _ (ground (arith, k.hash)) (
                and_then-pass _ _ k.profile.0 _ k.profile.1 (
                  refuse-pass _ _ _ _
                    (ap not (
                      (==_iff
                          (document_sha p (record (approved p c author now override_unsafe) {
                            document_sha256 = none;
                          }))
                          _).1
                        refl))
                    (refuse-pass _ _ _ _ (ground (arith, t, a)) (
                      refuse-pass _ _ _ _ blocked (
                        refuse-pass _ _ _ _ (reasons_given override_unsafe c.profile pointless)
                          refl))))))))))

  -- What an approval produces passes the verification, unchanged, if a hash is 64 hexadecimal digits, the clock gives
  -- a time, and the override was not asked for without need.
  pub verify-approve :
      (candidate d : Document) (approved_by now : String) (override_unsafe : Bool)
      → ((e : Document) → p.is_sha256 (p.document_hash e) ≡ true)
      → (now == "") ≡ false
      → (override_unsafe && not (has_blockers candidate.profile)) ≡ false
      → approve_candidate p candidate approved_by now override_unsafe ≡ ok d
      → verify_approved_baseline p true d ≡ ok d
  verify-approve candidate d approved_by now override_unsafe hex time needed h =
      let a = approve_lem candidate d approved_by now override_unsafe h in
      rw a.3 (
        passes candidate (p.strip approved_by) now override_unsafe hex time (ground (arith, a.0))
          a.1 a.2 needed)

  fails :
      (c : Document) (author now : String) (canonical : Bool)
      → has_blockers c.profile ≡ false
      → is_ok (verify_approved_baseline p canonical (approved p c author now true)) ≡ false
  unfolding verify_approved_baseline approved
  fails c author now canonical clean = refuse-stays _ _ _ (
      refuse-stays _ _ _ (
        refuse-stays _ _ _ (
          refuse-stays _ _ _ (
            refuse-stays _ _ _ (
              refuse-stays _ _ _ (
                and_then-stays _ _ (λ q. refuse-stays _ _ _ (
                  refuse-stays _ _ _ (
                    refuse-stays _ _ _ (
                      refuse-fails _ _ _
                        (ground (arith, clean, reasons-blockers c.profile))))))))))))

  -- A candidate without blockers that is approved with the override is refused by every later verification.
  pub verify-approve_override :
      (candidate d : Document) (approved_by now : String) (canonical : Bool)
      → has_blockers candidate.profile ≡ false
      → approve_candidate p candidate approved_by now true ≡ ok d
      → is_ok (verify_approved_baseline p canonical d) ≡ false
  verify-approve_override candidate d approved_by now canonical clean h =
      rw (approve_lem candidate d approved_by now true h).3
        (fails candidate (p.strip approved_by) now canonical clean)

  -- A baseline that passes the verification carries the hash of itself.
  verified-document_sha :
      (canonical : Bool) (d e : Document)
      → verify_approved_baseline p canonical d ≡ ok e
      → some (document_sha p d) ≡ d.document_sha256
  unfolding verify_approved_baseline
  verified-document_sha canonical d e h =
      let r1 = refuse-ok _ _ _ e h in
      let r2 = refuse-ok _ _ _ e r1.1 in
      let r3 = refuse-ok _ _ _ e r2.1 in
      let r4 = refuse-ok _ _ _ e r3.1 in
      let r5 = refuse-ok _ _ _ e r4.1 in
      let r6 = refuse-ok _ _ _ e r5.1 in
      let r7 = and_then-ok _ _ e r6.1 in
      let r8 = refuse-ok _ _ _ e r7.2 in
      (==_iff (some (document_sha p d)) d.document_sha256).0 (ground (arith, r8.0))

  -- A document that states the same hash of itself as a baseline that passes the verification does not pass, if the
  -- two have different hashes without this field.
  pub verify_approved_baseline-tampered :
      (canonical read : Bool) (d e t : Document)
      → verify_approved_baseline p canonical d ≡ ok e
      → t.document_sha256 ≡ d.document_sha256
      → ¬ (
          p.document_hash (record t { document_sha256 = none })
          ≡ p.document_hash (record d { document_sha256 = none }))
      → is_ok (verify_approved_baseline p read t) ≡ false
  unfolding document_sha
  verify_approved_baseline-tampered canonical read d e t h same differs =
      elim (Result-cases (verify_approved_baseline p read t)) [
        | inl (m, r) ↦ rw r refl
        | inr (u, r) ↦ absurd (
            differs (
              some-equal _ _ (
                verified-document_sha read t u r
                ∙ same
                ∙ sym (verified-document_sha canonical d e h))))
      ]

  -- A candidate that is created for a profile passes the checks of a candidate, if the profile passes its own and a
  -- hash is 64 hexadecimal digits.
  validate-create_candidate :
      (profile checked : Profile) (name : String) (collection_id : Option String) (d : Document)
      → p.is_sha256 (p.profile_hash profile) ≡ true
      → validate_profile p profile ≡ ok checked
      → create_candidate p profile name collection_id ≡ ok d
      → validate_candidate p d ≡ ok d
  unfolding create_candidate validate_candidate
  validate-create_candidate profile checked name collection_id d hex valid h =
      let built = sym (ok-injective _ d (refuse-ok _ _ _ d h).1) in
      rw built (
        refuse-pass _ _ _ _ refl (
          refuse-pass _ _ _ _ (rw hex refl) (
            refuse-pass _ _ _ _ (ap not ((==_iff (p.profile_hash profile) _).1 refl))
              (and_then-pass _ _ checked _ valid refl))))
