-- ===== src/Storage/Idempotency.antt =====
-- packages/storage/src/index.ts: `LocalIdempotencyStore`. The file is the list that its JSON text
-- holds; what the write did is an argument, as in the ledger. Puts run one after another.
pub mod Putting
pub mod Tests
use woyengi.Base.{
  ℕ, Option, none, some, List, [], ◌∷◌, ◌++◌, Text, text, Bool, true, false, not, ◌&&◌, ◌||◌,
  Result, ok, raise, plain_error, type_error, ◌>>=◌, ◌>>◌, throw_if, same, leb, length, ◌==◌, all,
  starts_with, Ordering, Host, required_text, normalize_instant, requires_offset,
}
use woyengi.Base.Dict.{Dict, get, has, set, values}
use woyengi.Base.Sort.{sort}
use woyengi.Core.{StateValue}
use woyengi.Storage.LocalLedger.{WriteOutcome, written, write_failed}

pub record IdempotencyEntry : Type 0 where
  pub key : Text
  pub fingerprint : Text
  pub result : StateValue
  pub recorded_at : Text

abbrev pub Store : Type 0
Store = Dict IdempotencyEntry

abbrev pub StoreFile : Type 0
StoreFile = List IdempotencyEntry

is_hex_digit : ℕ → Bool
is_hex_digit c = (leb b'0' c && leb c b'9') || (leb b'a' c && leb c b'f')

-- `/^sha256:[a-f0-9]{64}$/`
is_digest : Text → Bool
unfolding is_hex_digit
is_digest (s ∷ h ∷ a ∷ two ∷ five ∷ six ∷ colon ∷ digest) =
    same (s ∷ h ∷ a ∷ two ∷ five ∷ six ∷ colon ∷ []) (text "sha256:")
    && length digest == 64
    && all is_hex_digit digest
is_digest _ = false

-- `IdempotencyConflictError`, by its message.
abbrev pub conflict : Text
conflict = text "idempotency key was already used with a different request: "

module _ ⦃h : Host⦄ where
  -- `toLowerCase`; on the hexadecimal digits it is the host's lower case.
  pub normalize_hash : Text → Result Text
  unfolding is_digest
  normalize_hash value =
      let normalized = h.to_lower value in
      do
        throw_if (not (is_digest normalized)) type_error
            (text "content hash must be a sha256 digest")
        ok normalized

  pub normalize_entry : IdempotencyEntry → Result IdempotencyEntry
  unfolding normalize_hash
  normalize_entry value = do
    key ← required_text (text "idempotency key") value.key
    fingerprint ← normalize_hash value.fingerprint
    recorded_at ← normalize_instant requires_offset value.recorded_at
    ok (record {
      key = key;
      fingerprint = fingerprint;
      result = value.result;
      recorded_at = recorded_at;
    })

  -- The constructor, on the entries of the file.
  pub load : Store → StoreFile → Result Store
  load s [] = ok s
  load s (entry ∷ rest) = do
    normalized ← normalize_entry entry
    throw_if (has normalized.key s) plain_error
        (text "duplicate idempotency key: " ++ normalized.key)
    load (set normalized.key normalized s) rest

  pub lookup : Store → Text → Result (Option IdempotencyEntry)
  lookup s key = do k ← required_text (text "idempotency key") key; ok (get k s)

  -- What `put` leaves in memory and on disk, and the entry that it returns.
  pub record Stored : Type 0 where
    pub store : Store
    pub file : StoreFile
    pub entry : IdempotencyEntry

  save : Store → WriteOutcome → IdempotencyEntry → Result Stored
  save s (write_failed c message) entry = raise c message
  save s written entry = ok (record {
    store = set entry.key entry s;
    file =
        sort (λ (left right : IdempotencyEntry). h.locale_compare left.key right.key)
          (values s ++ entry ∷ []);
    entry = entry;
  })

  put_normalized :
      Store → StoreFile → WriteOutcome → IdempotencyEntry → Option IdempotencyEntry → Result Stored
  unfolding save
  put_normalized s file outcome entry none = save s outcome entry
  put_normalized s file outcome entry (some existing) = do
    throw_if (not (same existing.fingerprint entry.fingerprint)) plain_error (conflict ++ entry.key)
    ok (record { store = s; file = file; entry = existing })

  pub put : Store → StoreFile → WriteOutcome → IdempotencyEntry → Result Stored
  unfolding put_normalized
  put s file outcome entry = do
    normalized ← normalize_entry entry
    put_normalized s file outcome normalized (get normalized.key s)
