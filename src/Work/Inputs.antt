-- ===== src/Work/Inputs.antt =====
-- packages/work/src/index.ts: the validation of ids, participants and roles.
use woyengi.Base.{
  ℕ, List, [], ◌∷◌, ◌++◌, map, Text, text, Bool, false, not, ◌&&◌, ◌||◌, Result, ok, plain_error,
  type_error, ◌>>=◌, ◌>>◌, throw_if, map_result, same, any, all, ltb, leb, length, ◌==◌, Host,
  prefixed, compare_units,
}
use woyengi.Base.Dict.{add_all}
use woyengi.Base.Sort.{sort}
use woyengi.Work.Records.{Participant, WorkRoleBindings}

abbrev max_safe_integer : ℕ
max_safe_integer = 9007199254740991

-- `value.slice(prefix.length)`
abbrev pub slice_behind : Text → Text → Text
slice_behind [] value = value
slice_behind (p ∷ prefix) [] = []
slice_behind (p ∷ prefix) (c ∷ value) = slice_behind prefix value

abbrev is_alphanumeric : ℕ → Bool
is_alphanumeric c =
    (leb b'a' c && leb c b'z') || (leb b'A' c && leb c b'Z') || (leb b'0' c && leb c b'9')

-- `/^[a-zA-Z0-9][a-zA-Z0-9._:-]*$/`
is_opaque : Text → Bool
is_opaque [] = false
is_opaque (c ∷ cs) =
    is_alphanumeric c
    && all (λ d. is_alphanumeric d || d == b'.' || d == b'_' || d == b':' || d == b'-') cs

unfoldable pub prefixed_id : Text → Text → Text → Result Text
unfolding is_opaque
prefixed_id name value prefix = do
  normalized ← prefixed name value prefix
  throw_if (not (is_opaque (slice_behind prefix normalized))) type_error
      (name ++ text " must contain an opaque namespace-qualified identifier")
  ok normalized

abbrev pub work_instance_id : Text → Result Text
work_instance_id value = prefixed_id (text "work instance id") value (text "work-instance:")

abbrev pub work_episode_id : Text → Result Text
work_episode_id value = prefixed_id (text "work episode id") value (text "work-episode:")

abbrev pub activity_id : Text → Result Text
activity_id value = prefixed_id (text "activity id") value (text "activity:")

abbrev pub assignment_id : Text → Result Text
assignment_id value = prefixed_id (text "assignment id") value (text "assignment:")

abbrev pub work_outcome_id : Text → Result Text
work_outcome_id value = prefixed_id (text "work outcome id") value (text "work-outcome:")

abbrev pub operation_id : Text → Result Text
operation_id value = prefixed_id (text "work operation id") value (text "work-operation:")

abbrev pub workspace_id : Text → Result Text
workspace_id value = prefixed_id (text "workspace id") value (text "workspace:")

abbrev pub principal_id : Text → Result Text
principal_id value = prefixed_id (text "principal id") value (text "principal:")

abbrev pub explicit_instant : Text
explicit_instant = text "timestamp requires an explicit UTC offset: "

unfoldable pub version : ℕ → Result ℕ
version value = do
  throw_if (ltb max_safe_integer value || ltb value 1) type_error
      (text "expected version must be a positive integer")
  ok value

unfoldable pub normalize_participant : Participant → Result Participant
normalize_participant value = do
  id ← principal_id value.principal_id
  ok (record { principal_id = id; kind = value.kind })

abbrev pub has_duplicates : List Text → Bool
has_duplicates ids = not (length (add_all [] ids) == length ids)

principal_ids : Text → List Text → Result (List Text)
principal_ids name values = do
  ids ← map_result principal_id values
  throw_if (has_duplicates ids) plain_error (name ++ text " must not contain duplicates")
  ok (sort compare_units ids)

abbrev pub is_participant : List Participant → Text → Bool
is_participant values id = any (λ (p : Participant). same p.principal_id id) values

unfoldable pub assert_participant : List Participant → Text → Result (Unit {0})
assert_participant values id =
    throw_if (not (is_participant values id)) plain_error
      (text "principal is not a work participant: " ++ id)

unfoldable pub normalize_roles : WorkRoleBindings → List Participant → Result WorkRoleBindings
unfolding principal_ids
normalize_roles input participants = do
  owners ← principal_ids (text "work owners") input.work_owners
  authorities ← principal_ids (text "decision authorities") input.decision_authorities
  reviewers ← principal_ids (text "reviewers") input.reviewers
  approvers ← principal_ids (text "approvers") input.approvers
  throw_if (length owners == 0 || length authorities == 0) type_error
      (text "work owners and decision authorities must not be empty")
  checked ←
      map_result (assert_participant participants)
        (owners ++ (authorities ++ (reviewers ++ approvers)))
  ok (record {
    work_owners = owners;
    decision_authorities = authorities;
    reviewers = reviewers;
    approvers = approvers;
  })

unfoldable pub normalize_participants : ⦃h : Host⦄ → List Participant → Result (List Participant)
normalize_participants ⦃h⦄ values = do
  throw_if (length values == 0) type_error (text "work participants must not be empty")
  normalized ← map_result normalize_participant values
  let participants =
      sort (λ left right. h.locale_compare left.principal_id right.principal_id) normalized
  throw_if (has_duplicates (map (λ p. p.principal_id) participants)) plain_error
      (text "work participants must not contain duplicate principals")
  ok participants
