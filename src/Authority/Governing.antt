-- ===== src/Authority/Governing.antt =====
-- packages/authority/src/index.ts: which policies match a candidate, and which one governs.
use woyengi.Base.{Text, true, false, ◌≡◌, refl, arith, In, starts_with, any, text_le, text_lt}
use woyengi.Base.Dict.{member}
use woyengi.Permissions.Engine.{holds, note, is_empty, condition_failures}
use woyengi.Permissions.Engine.Passing.{
  note-empty, is_empty-nil, condition_failures-none, none-condition_failures,
}
use woyengi.Authority.{AuthorityPolicy, AuthorityCandidate, Question, failures_of, evaluate_policy}

-- The policy covers the candidate and the question.
pub record Covers (p : AuthorityPolicy) (c : AuthorityCandidate) (q : Question) : Type 0 where
  pub principal : member c.principal p.principals ≡ true
  pub predicate : any (λ prefix. starts_with q.predicate prefix) p.predicate_prefixes ≡ true
  pub purpose : member q.purpose p.purposes ≡ true
  pub begun : text_lt q.at p.valid_from ≡ false
  pub unexpired : text_le p.expires_at q.at ≡ false
  pub conditions : (e : Text × Text) → In e p.conditions → holds q.context e.0 e.1 ≡ true

module _ (p : AuthorityPolicy) (c : AuthorityCandidate) (q : Question) where
  -- A policy matches exactly if it covers the candidate and the question.
  pub matched-Covers : (evaluate_policy p c q).matched ≡ true → Covers p c q
  unfolding evaluate_policy failures_of
  matched-Covers h =
      let (a, h1) = note-empty _ _ _ h in
      let (b, h2) = note-empty _ _ _ h1 in
      let (d, h3) = note-empty _ _ _ h2 in
      let (t, h4) = note-empty _ _ _ h3 in
      record {
        principal = ground arith;
        predicate = ground arith;
        purpose = ground arith;
        begun = ground arith;
        unexpired = ground arith;
        conditions =
            condition_failures-none q.context p.conditions
              (is_empty-nil (condition_failures q.context p.conditions) h4);
      }

  pub Covers-matched : Covers p c q → (evaluate_policy p c q).matched ≡ true
  unfolding evaluate_policy failures_of note is_empty
  Covers-matched v =
      rw
        (
          v.principal,
          v.predicate,
          v.purpose,
          v.begun,
          v.unexpired,
          none-condition_failures q.context p.conditions v.conditions,
        )
        refl
