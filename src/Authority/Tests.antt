-- ===== src/Authority/Tests.antt =====
-- The ranking theorem at one policy and two candidates.
use woyengi.Base.{raise, range_error, compare_units}
use woyengi.Authority.{define_authority_policy}
use woyengi.Base.{
  List, [], ◌∷◌, Text, text, text_discrete, ok, ◌≡◌, refl, sym, subst, In, inl, inr, first,
  namespaced, required_text, normalize_instant, trim, includes, starts_with,
}
use woyengi.Base.Dict.{get, set}
use woyengi.Base.Number.{pos, number_one, finite}
use woyengi.Base.Sort.{Sorted}
use woyengi.Authority.{
  AuthorityPolicy, AuthorityCandidate, AuthorityAssessment, AuthorityRanking, Question, Engine,
  register, rank, sorted_policies, compare_assessments,
}
use woyengi.Authority.Ranking.{IsGoverned, IsValid}
use woyengi.Authority.Registering.{Built, new, registered, IsNormal, rank_lem}
use woyengi.Samples.{plain_host, plain_host-IsConsistent, value_or}

abbrev policy : AuthorityPolicy
policy = record {
  id = text "authority-policy:p";
  principals = text "principal:a" ∷ [];
  predicate_prefixes = text "state:" ∷ [];
  purposes = text "work" ∷ [];
  conditions = [];
  level = pos 7;
  basis = text "b";
  valid_from = text "1Z";
  expires_at = text "9Z";
}

abbrev engine : Engine
engine = value_or [] (register [] policy)

abbrev question : Question
question = record {
  predicate = text "state:x";
  purpose = text "work";
  context = [];
  at = text "5Z";
}

abbrev candidate : Text → Text → AuthorityCandidate
candidate id principal = record { id = id; principal = principal; confidence = finite (pos 1) }

abbrev candidates : List AuthorityCandidate
candidates =
    candidate (text "claim:x") (text "principal:z")
    ∷ candidate (text "claim:y") (text "principal:a")
    ∷ []

built : Built engine
unfolding register get set text text_discrete
built = registered [] engine policy new refl

normal : IsNormal question question
unfolding namespaced required_text normalize_instant trim includes starts_with text text_discrete
normal = record { predicate = refl; purpose = refl; at = refl; context = refl }

valid : (c : AuthorityCandidate) → In c candidates → (v : AuthorityCandidate) × IsValid c v
unfolding namespaced required_text trim includes starts_with text text_discrete number_one
valid c (inl e) =
    subst (λ x. (v : AuthorityCandidate) × IsValid x v) (sym e)
      (
        candidate (text "claim:x") (text "principal:z"),
        record {
          in_range = refl;
          number = (λ e. cc);
          id = refl;
          principal = refl;
          confidence = refl;
        },
      )
valid c (inr (inl e)) =
    subst (λ x. (v : AuthorityCandidate) × IsValid x v) (sym e)
      (
        candidate (text "claim:y") (text "principal:a"),
        record {
          in_range = refl;
          number = (λ e. cc);
          id = refl;
          principal = refl;
          confidence = refl;
        },
      )
valid c (inr (inr i)) = absurd i

rank_lem_example :
    (r : AuthorityRanking) × (rank engine question candidates ≡ ok r)
    × Sorted compare_assessments r.assessments
    × (r.selected ≡ first r.assessments)
    × ((c : AuthorityCandidate)
        → In c candidates
        → (a : AuthorityAssessment) × In a r.assessments × IsValid c a.candidate)
    × ((a : AuthorityAssessment)
        → In a r.assessments
        → IsGoverned (sorted_policies engine) a.candidate question a.authority)
rank_lem_example =
    rank_lem plain_host-IsConsistent engine question question candidates built normal valid

refuses_empty_interval :
    define_authority_policy (record policy { expires_at = text "1Z" })
    ≡ raise range_error (text "authority policy expiry must follow validFrom")
unfolding define_authority_policy normalize_instant text text_discrete compare_units
refuses_empty_interval = refl
