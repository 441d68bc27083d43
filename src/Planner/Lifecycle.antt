-- ===== src/Planner/Lifecycle.antt =====
-- `proof_lifecycle` of src/joinlint/runtime/planner.py. `now` is the clock.
use joinlint.Prelude.{
  String, ◌≡◌, ◌↔◌, Bool, true, not, Option, none, some, List, if◌then◌else◌, ◌==◌, any, refl, inl,
  inr, All, none_fails_iff, ==_cases, Bool-cases, contains,
}
use joinlint.Domain.{ProofBody, ProofEdge, LifecycleStatus, ProofLifecycleProjection}

-- `freshness_checked_at or datetime.now(UTC).isoformat()`
abbrev checked_at : Option String → String → String
checked_at none now = now
checked_at (some given) now = if given == "" then now else given

abbrev pub lifecycle : LifecycleStatus → Option String → String → ProofLifecycleProjection
lifecycle status reason checked = record {
  status = status;
  reason = reason;
  freshness_checked_at = checked;
}

-- `edge.evidence_id not in available`
abbrev missing : List String → ProofEdge → Bool
missing available e = not (contains e.evidence_id available)

unfoldable pub proof_lifecycle :
    ProofBody → String → String → List String → Option String → String → ProofLifecycleProjection
proof_lifecycle proof current_snapshot_id current_policy_version available freshness now =
    let checked = checked_at freshness now in
    if not (proof.snapshot_id == current_snapshot_id)
    then lifecycle LifecycleStatus.stale (some "SOURCE_SNAPSHOT_CHANGED") checked
    else if not (proof.policy_version == current_policy_version)
    then lifecycle LifecycleStatus.stale (some "POLICY_CHANGED") checked
    else if any (missing available) proof.edges
    then lifecycle LifecycleStatus.unverifiable (some "EVIDENCE_UNAVAILABLE") checked
    else lifecycle LifecycleStatus.current none checked

-- Every edge of the proof rests on evidence that is still there.
abbrev pub EvidenceAvailable : ProofBody → List String → Type 0
EvidenceAvailable proof available =
    All (λ (e : ProofEdge). contains e.evidence_id available ≡ true) proof.edges

-- A proof is current exactly if the snapshot and the policy are the ones it was made with and all
-- its evidence is available; otherwise a changed snapshot or policy makes it stale, and only then
-- missing evidence makes it unverifiable.
pub proof_lifecycle-current :
    (proof : ProofBody) (snapshot_id policy_version : String) (available : List String)
    (freshness : Option String) (now : String)
    → let status =
        (proof_lifecycle proof snapshot_id policy_version available freshness now).status in
      ((status ≡ LifecycleStatus.current) ↔ (
        (proof.snapshot_id ≡ snapshot_id)
        × (proof.policy_version ≡ policy_version)
        × EvidenceAvailable proof available))
      × ((status ≡ LifecycleStatus.stale)
          ↔ ¬ ((proof.snapshot_id ≡ snapshot_id) × (proof.policy_version ≡ policy_version)))
unfolding proof_lifecycle
proof_lifecycle-current proof snapshot_id policy_version available freshness now =
    let edges = none_fails_iff (λ (e : ProofEdge). contains e.evidence_id available) proof.edges in
    elim (==_cases proof.snapshot_id snapshot_id) [
      | inr (n, e) ↦ rw e ((λ q. cc, λ k. absurd (n k.0)), (λ q k. n k.0, λ _. refl))
      | inl (s, e) ↦ rw e (elim (==_cases proof.policy_version policy_version) [
        | inr (n, f) ↦ rw f ((λ q. cc, λ k. absurd (n k.1)), (λ q k. n k.1, λ _. refl))
        | inl (p, f) ↦ rw f (elim (Bool-cases (any (missing available) proof.edges)) [
          | inl m ↦ rw m ((λ q. cc, λ k. cc (edges.1 k.2, m)), (λ q. cc, λ k. absurd (k (s, p))))
          | inr m ↦ rw m ((λ q. (s, p, edges.0 m), λ _. refl), (λ q. cc, λ k. absurd (k (s, p))))
        ])
      ])
    ]
