-- ===== src/Evidence/Tests.antt =====
-- The summary theorem at an engine with one link.
use woyengi.Base.{raise, range_error, type_error}
use woyengi.Base.Number.{negsuc}
use woyengi.Evidence.{
  VerificationOutcome, VerifierKind, VerificationStatus, create_evidence_link,
  create_verification_outcome,
}
use woyengi.Base.{
  none, text, text_discrete, ok, ◌≡◌, refl, prefixed, required_text, trim, starts_with,
}
use woyengi.Base.Dict.{get, set, member, add}
use woyengi.Base.Number.{pos}
use woyengi.Core.{EvidenceRecord, verified}
use woyengi.Evidence.{
  Engine, EvidenceLink, EvidenceSummary, supports, empty, register_evidence, append_link,
  assert_new, summarize,
}
use woyengi.Evidence.Summarizing.{Reachable, started, stepped, registered, linked}
use woyengi.Evidence.Summaries.{IsSummary, summarize-IsSummary}
use woyengi.Samples.{plain_host, no_provenance, value_or}

abbrev source : EvidenceRecord
source = record {
  id = text "evidence:e";
  source_id = text "source:s";
  locator = text "l";
  transaction_time = record { from = text "1Z"; to = none };
  provenance = no_provenance;
  lifecycle = verified;
}

abbrev link : EvidenceLink
link = record {
  id = text "evidence-link:l";
  evidence_id = text "evidence:e";
  claim_id = text "claim:c";
  stance = supports;
  strength = pos 1;
  from = text "2Z";
  provenance = no_provenance;
}

abbrev with_source : Engine
with_source = value_or empty (register_evidence empty source)

abbrev with_link : Engine
with_link = value_or empty (append_link with_source link)

reaches : Reachable with_link
unfolding register_evidence append_link assert_new empty member add get set text text_discrete
reaches =
    stepped with_source with_link
      (stepped empty with_source started (registered empty with_source source refl))
      (linked with_source with_link link refl)

summarize-IsSummary_example :
    (s : EvidenceSummary) × (summarize with_link (text "claim:c") ≡ ok s)
    × IsSummary with_link (text "claim:c") s
unfolding prefixed required_text trim starts_with text text_discrete
summarize-IsSummary_example =
    summarize-IsSummary with_link (text "claim:c") (text "claim:c") reaches refl

refuses_negative_strength :
    create_evidence_link (record link { strength = negsuc 0 })
    ≡ raise range_error (text "evidence strength must be between 0 and 1")
unfolding create_evidence_link
refuses_negative_strength = refl

abbrev outcome : VerificationOutcome
outcome = record {
  id = text "check:1";
  subject_id = text "evidence:e";
  verifier_id = text "verifier:v";
  verifier_kind = VerifierKind.human;
  method = text "m";
  status = VerificationStatus.verified;
  from = text "3Z";
  provenance = no_provenance;
  details = text "d";
}

refuses_other_id :
    create_verification_outcome outcome
    ≡ raise type_error (text "verification id must start with verification:")
unfolding create_verification_outcome prefixed required_text trim starts_with text text_discrete
refuses_other_id = refl
