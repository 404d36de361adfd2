-- ===== src/Ledger/Recorded.antt =====
-- What `hasRecordedArtifact` of src/candidate.ts looks for.
use agentknot.Common.{
  Bool-cases, List, [], arith, get_elem?, inl, inr, refl, some, suc, text_eq_iff, true, ℕ, ◌∷◌, ◌≡◌,
}
use agentknot.Ledger.Requests.{Artifact}
use agentknot.Ledger.Services.{RecordedArtifact, artifact_eq, found, has_recorded_artifact}

-- One of the recorded artifacts is a git patch with this path, digest and base commit.
abbrev pub HasRecorded : List RecordedArtifact → Artifact → Type 0
HasRecorded recorded a =
    (k : ℕ) × (found : RecordedArtifact) × (get_elem? recorded k ≡ some found)
    × (found.kind ≡ "git-patch")
    × (found.identity.path ≡ a.path)
    × (found.identity.sha256 ≡ a.sha256)
    × (found.identity.base_commit ≡ a.base_commit)

pub any-HasRecorded :
    (recorded : List RecordedArtifact) (a : Artifact)
    → has_recorded_artifact recorded a ≡ true
    → HasRecorded recorded a
unfolding has_recorded_artifact artifact_eq
any-HasRecorded [] a has = cc
any-HasRecorded (x ∷ xs) a has = elim (Bool-cases (artifact_eq a x)) [
  | inl same ↦
      (let kind = text_eq_iff x.kind "git-patch" in
        let path = text_eq_iff x.identity.path a.path in
        let digest = text_eq_iff x.identity.sha256 a.sha256 in
        let commit = text_eq_iff x.identity.base_commit a.base_commit in
        (
          0,
          x,
          refl,
          ground (arith, same, kind),
          ground (arith, same, path),
          ground (arith, same, digest),
          ground (arith, same, commit),
        ))
  | inr other ↦
      let (k, found, there, kind, path, digest, commit) =
        any-HasRecorded xs a (ground (arith, other, has)) in
      (suc k, found, there, kind, path, digest, commit)
]
