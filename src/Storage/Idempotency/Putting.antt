-- ===== src/Storage/Idempotency/Putting.antt =====
-- packages/storage/src/index.ts: `put` is idempotent, and refuses another request under its key.
use woyengi.Base.{
  Option, none, some, ok, raise, plain_error, ◌≡◌, refl, arith, Host, same, if◌then◌else◌,
  >>=-eq-ok, ◌++◌, not, throw_if->>-eq-ok,
}
use woyengi.Base.Dict.{get, set, get-set_self}
use woyengi.Storage.LocalLedger.{WriteOutcome, written, write_failed}
use woyengi.Storage.Idempotency.{
  IdempotencyEntry, Store, StoreFile, Stored, normalize_entry, put_normalized, put, save, conflict,
}

module _ ⦃h : Host⦄ where
  holds_entry :
      (s : Store) (file : StoreFile) (o : WriteOutcome) (n : IdempotencyEntry)
      (found : Option IdempotencyEntry) (st : Stored)
      → get n.key s ≡ found
      → put_normalized s file o n found ≡ ok st
      → get n.key st.store ≡ some st.entry
  unfolding put_normalized save
  holds_entry s file written n none st g e =
      let q : st.store ≡ set n.key n s = cc in
      let r : st.entry ≡ n = cc in rw (q, r) (get-set_self n.key n s)
  holds_entry s file (write_failed c m) n none st g e = cc
  holds_entry s file o n (some existing) st g e =
      let (_, k) = throw_if->>-eq-ok (not (same existing.fingerprint n.fingerprint)) _ _ _ e in
      let q : st ≡ record { store = s; file = file; entry = existing } = cc in rw q g

  -- After a put that returned, a put under the same key returns the entry that the first one
  -- returned where the fingerprint is that entry's, and raises the conflict otherwise; the store and
  -- the file stay as they are, whatever the disk does and whatever the new result is.
  pub put-put :
      (s : Store) (file : StoreFile) (o o' : WriteOutcome) (first second n n' : IdempotencyEntry)
      (st : Stored)
      → put s file o first ≡ ok st
      → normalize_entry first ≡ ok n
      → normalize_entry second ≡ ok n'
      → n'.key ≡ n.key
      → put st.store st.file o' second ≡ (
          if same st.entry.fingerprint n'.fingerprint
          then ok (record { store = st.store; file = st.file; entry = st.entry })
          else raise plain_error (conflict ++ n'.key))
  unfolding put put_normalized
  put-put s file o o' first second n n' st e f g k =
      let (m, a, b) = >>=-eq-ok (normalize_entry first) _ e in
      let same_entry : m ≡ n = cc in
      let held = holds_entry s file o n (get n.key s) st refl (rw same_entry at b) in
      let found : get n'.key st.store ≡ some st.entry = rw k held in rw (g, found) (ground arith)
