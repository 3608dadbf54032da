-- ===== src/Effects/Engines.antt =====
-- packages/effects/src/index.ts: the executions that an engine holds, by the manifest's id, and
-- how they are found.
use woyengi.Base.{
  Option, none, some, Text, text, ◌++◌, Result, ok, raise, plain_error, ◌>>=◌, >>=-eq-ok, prefixed,
  ◌≡◌, ap, subst, ok-injective,
}
use woyengi.Base.Dict.{Dict, get}
use woyengi.Effects.Records.{ExecutionAggregate}

abbrev pub Engine : Type 0
Engine = Dict ExecutionAggregate

abbrev manifest_key : Text → Result Text
manifest_key id = prefixed (text "execution manifest id") id (text "execution-manifest:")

abbrev found : Text → Option ExecutionAggregate → Result (Text × ExecutionAggregate)
found id none = raise plain_error (text "execution manifest does not exist: " ++ id)
found id (some a) = ok (id, a)

-- `#aggregate`, with the key of the aggregate.
unfoldable pub find_aggregate : Engine → Text → Result (Text × ExecutionAggregate)
find_aggregate engine manifest_id = do id ← manifest_key manifest_id; found id (get id engine)

-- `execution`: the aggregate is the snapshot.
unfoldable pub execution : Engine → Text → Result (Option ExecutionAggregate)
execution engine manifest_id = do id ← manifest_key manifest_id; ok (get id engine)

found-ok :
    (id : Text) (o : Option ExecutionAggregate) (i : Text) (a : ExecutionAggregate)
    → found id o ≡ ok (i, a)
    → (o ≡ some a) × (id ≡ i)
found-ok id none i a h = absurd (cc)
found-ok id (some b) i a h = (cc, cc)

pub find_aggregate-execution :
    (engine : Engine) (m id : Text) (a : ExecutionAggregate)
    → find_aggregate engine m ≡ ok (id, a)
    → execution engine m ≡ ok (some a)
unfolding find_aggregate execution
find_aggregate-execution engine m id a h =
    let (k, e, f) = >>=-eq-ok (manifest_key m) _ h in
    rw e (ap ok (found-ok k (get k engine) id a f).0)

pub find_aggregate-get :
    (engine : Engine) (m id : Text) (a : ExecutionAggregate)
    → find_aggregate engine m ≡ ok (id, a)
    → get id engine ≡ some a
unfolding find_aggregate
find_aggregate-get engine m id a h =
    let (k, _, f) = >>=-eq-ok (manifest_key m) _ h in
    let (g, e) = found-ok k (get k engine) id a f in subst (λ i. get i engine ≡ some a) e g

pub execution-get :
    (engine : Engine) (m : Text) (a : ExecutionAggregate)
    → execution engine m ≡ ok (some a)
    → (id : Text) × (get id engine ≡ some a)
unfolding execution
execution-get engine m a h = let (k, _, f) = >>=-eq-ok (manifest_key m) _ h in (k, ok-injective f)
