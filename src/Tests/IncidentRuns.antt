-- ===== src/Tests/IncidentRuns.antt =====
-- Runs of internal/incidents.
use pooly_sentinel.Prelude.{
  ◌≡◌, refl, ℕ, pos, List, ◌∷◌, false, arith, inl, [], ◌++◌, Text, text, text_eq, length, true,
  to_lower, trim_space, contains, join, sym, ◌∙◌,
}
use pooly_sentinel.Effect.{ok, ok_injective}
use pooly_sentinel.Redaction.{redact}
use pooly_sentinel.Incidents.Fingerprint.{
  fingerprint, normalize_parts, check_component, check_fingerprint, normalize_fingerprint_component,
  incident_id_for_fingerprint,
}
use pooly_sentinel.Incidents.Fingerprint.Shape.{IsWellFormed, fingerprint-IsWellFormed}
use pooly_sentinel.Incidents.Fingerprint.Identity.{
  IsColonFree, colon_free, normalize_idem, fingerprint_injective, fingerprint_collides,
  incident_id_for_fingerprint_total,
}
use pooly_sentinel.Incidents.Incident.{Candidate}
use pooly_sentinel.Incidents.Lifecycle.{apply}
use pooly_sentinel.Incidents.Lifecycle.Refinement.{Settles, apply_refines}
use pooly_sentinel.Incidents.Lifecycle.Occurrences.{
  occurrences, apply_all, active_count, occurrences-apply_all,
}
use pooly_sentinel.Tests.Fixtures.{
  no_patterns, zero_digest, always_live, memory_store, memory_reliable, disk_failed,
}

-- What a run of the fingerprints looks through.
running : Unit {0}
unfolding fingerprint normalize_parts normalize_fingerprint_component check_component
    check_fingerprint text text_eq to_lower trim_space contains join redact
running = tt

abbrev ssh_fingerprint : Text
ssh_fingerprint = text "node-1:systemd:ssh.service:failed"

ssh_made :
    fingerprint no_patterns (text "Node-1") (text "systemd") (text "ssh.service") (text "failed")
    ≡ ok ssh_fingerprint
unfolding running
ssh_made = refl

fingerprint-IsFingerprint_example : IsWellFormed no_patterns ssh_fingerprint
fingerprint-IsFingerprint_example =
    fingerprint-IsWellFormed no_patterns (text "Node-1") (text "systemd") (text "ssh.service")
      (text "failed") ssh_made

lower_made : normalize_fingerprint_component no_patterns (text " Node-1") ≡ ok (text "node-1")
unfolding running
lower_made = refl

normalize_idem_example :
    normalize_fingerprint_component no_patterns (text "node-1") ≡ ok (text "node-1")
normalize_idem_example = normalize_idem no_patterns (text " Node-1") lower_made

incident_id_for_fingerprint_total_example :
    (id : Text) × (incident_id_for_fingerprint zero_digest ssh_fingerprint ≡ ok id)
    × (length id ≡ 36)
incident_id_for_fingerprint_total_example =
    incident_id_for_fingerprint_total no_patterns zero_digest (text "Node-1") (text "systemd")
      (text "ssh.service") (text "failed") ssh_made refl

free_of :
    (s t : Text)
    → normalize_fingerprint_component no_patterns s ≡ ok t
    → colon_free t ≡ true
    → IsColonFree no_patterns s
free_of s t made free t' h = rw (ok_injective (sym h ∙ made)) free

fingerprint_injective_example :
    (normalize_fingerprint_component no_patterns (text "Node-1")
      ≡ normalize_fingerprint_component no_patterns (text "NODE-1"))
    × (normalize_fingerprint_component no_patterns (text "systemd")
        ≡ normalize_fingerprint_component no_patterns (text "systemd"))
    × (normalize_fingerprint_component no_patterns (text "ssh.service")
        ≡ normalize_fingerprint_component no_patterns (text "ssh.service"))
    × (normalize_fingerprint_component no_patterns (text "failed")
        ≡ normalize_fingerprint_component no_patterns (text "failed"))
fingerprint_injective_example =
    fingerprint_injective no_patterns (text "Node-1") (text "systemd") (text "ssh.service")
      (text "failed") (text "NODE-1") (text "systemd") (text "ssh.service") (text "failed") ssh_made
      (unfold running in refl)
      (
        free_of (text "Node-1") (text "node-1") (unfold running in refl) (unfold running in refl),
        free_of (text "NODE-1") (text "node-1") (unfold running in refl) (unfold running in refl),
        free_of (text "systemd") (text "systemd") (unfold running in refl) (unfold running in refl),
        free_of (text "systemd") (text "systemd") (unfold running in refl) (unfold running in refl),
        free_of (text "ssh.service") (text "ssh.service") (unfold running in refl)
            (unfold running in refl),
        free_of (text "ssh.service") (text "ssh.service") (unfold running in refl)
            (unfold running in refl),
      )

fingerprint_collides_example :
    fingerprint no_patterns (text "n") (text "t") (text "a" ++ (text ":" ++ text "b")) (text "c")
    ≡ fingerprint no_patterns (text "n") (text "t") (text "a") (text "b" ++ (text ":" ++ text "c"))
fingerprint_collides_example =
    fingerprint_collides no_patterns (text "n") (text "t") (text "a") (text "b") (text "c")
      (unfold running in refl) (unfold running in refl)
      (unfold running in refl, unfold running in refl)
      (unfold running in refl, unfold running in refl)

abbrev three_candidates : List (ℕ × Candidate)
three_candidates =
    (7, disk_failed) ∷ (8, record disk_failed { active = false }) ∷ (9, disk_failed) ∷ []

occurrences-apply_all_example :
    occurrences (
      memory_reliable.view
        (apply_all no_patterns zero_digest always_live memory_store three_candidates [])
        ssh_fingerprint)
    ≡ pos 2
unfolding occurrences active_count memory_reliable
occurrences-apply_all_example =
    occurrences-apply_all no_patterns zero_digest always_live memory_store memory_reliable
      ssh_fingerprint three_candidates [] 0
      (ssh_made, (λ live. inl refl), (ssh_made, (λ live. cc), (ssh_made, (λ live. inl refl), tt)))
      (λ r found. cc) refl (omega arith)

apply_refines_example :
    Settles no_patterns zero_digest always_live memory_store memory_reliable [] ssh_fingerprint
      disk_failed
      (apply no_patterns zero_digest always_live memory_store 7 disk_failed [])
unfolding memory_reliable
apply_refines_example =
    apply_refines no_patterns zero_digest always_live memory_store memory_reliable 7 disk_failed []
      ssh_made (λ live. inl refl) (λ r found. cc)
