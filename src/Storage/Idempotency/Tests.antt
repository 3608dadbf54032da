-- ===== src/Storage/Idempotency/Tests.antt =====
-- The theorem on repeated puts, at one key.
use woyengi.Storage.Idempotency.{lookup, load}
use woyengi.Base.{
  some, [], ◌∷◌, ◌++◌, Text, text, text_discrete, ok, raise, plain_error, ◌≡◌, refl, same,
  if◌then◌else◌, required_text, normalize_instant, all, trim,
}
use woyengi.Base.Dict.{get, set}
use woyengi.Base.Sort.{sort, insert, insert_all}
use woyengi.Core.{null}
use woyengi.Storage.LocalLedger.{written, write_failed}
use woyengi.Storage.Idempotency.{
  IdempotencyEntry, Stored, put, normalize_entry, normalize_hash, conflict, put_normalized, save,
  is_digest, is_hex_digit,
}
use woyengi.Storage.Idempotency.Putting.{put-put}
use woyengi.Samples.{plain_host}

abbrev digest : Text
digest = text "sha256:0123456789abcdef0123456789abcdef0123456789abcdef0123456789abcdef"

abbrev entry : IdempotencyEntry
entry = record { key = text "k"; fingerprint = digest; result = null; recorded_at = text "1Z" }

abbrev stored : Stored
stored = record { store = (text "k", entry) ∷ []; file = entry ∷ []; entry = entry }

puts : put [] [] written entry ≡ ok stored
unfolding put put_normalized save normalize_entry normalize_hash is_digest is_hex_digit
    required_text normalize_instant trim text text_discrete all get set sort insert insert_all
puts = refl

normal : normalize_entry entry ≡ ok entry
unfolding normalize_entry normalize_hash is_digest is_hex_digit required_text normalize_instant trim
    text text_discrete all
normal = refl

put-put_example : put stored.store stored.file (write_failed plain_error []) entry ≡ (
    if same stored.entry.fingerprint entry.fingerprint
    then ok (record { store = stored.store; file = stored.file; entry = stored.entry })
    else raise plain_error (conflict ++ entry.key))
put-put_example =
    put-put [] [] written (write_failed plain_error []) entry entry entry entry stored puts normal
      normal refl

finds :
    (load [] (entry ∷ []) ≡ ok stored.store) × (lookup stored.store (text " k ") ≡ ok (some entry))
unfolding load lookup normalize_entry normalize_hash is_digest is_hex_digit required_text
    normalize_instant trim text text_discrete all get set
finds = (refl, refl)
