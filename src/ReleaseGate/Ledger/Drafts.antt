-- ===== src/ReleaseGate/Ledger/Drafts.antt =====
-- ledger.py: what `_append` and `_transition` check and compute before they open the database.
use Prim.Native.String.{count}
use shipcheck.Base.{
  suc, String, ◌==◌, Bool, not, ◌&&◌, ◌||◌, List, [], ◌∷◌, ltb, if◌then◌else◌, ok, ◌>>=◌, ◌>>◌,
  raise_if,
}
use shipcheck.Base.Texts.{is_empty}
use shipcheck.Json.{Value, Fields, str, obj, dict}
use shipcheck.Json.Compare.{same_value}
use shipcheck.ReleaseGate.Errors.{validation, security, Checked}
use shipcheck.ReleaseGate.Services.{Services, object_digest}
use shipcheck.ReleaseGate.Ledger.State.{Entry, tail_sequence, tail_hash}
use shipcheck.ReleaseGate.Ledger.Moves.{Move, Request, move_type, is_sha256}

-- a new entry before it has its place in the ledger
pub record Draft (Bytes : Type 0) : Type 0 where
  pub entry_type : String
  pub key_digest : String
  pub request_digest : String
  pub payload_json : Bytes
  pub payload_digest : String
  pub created_at : String

-- the entry behind the tail, with its hash
abbrev pub placed : {Bytes : Type 0} → Draft Bytes → List (Entry Bytes) → String → Entry Bytes
placed d es hash = record {
  sequence = suc (tail_sequence es);
  key_digest = d.key_digest;
  request_digest = d.request_digest;
  entry_type = d.entry_type;
  payload_json = d.payload_json;
  payload_digest = d.payload_digest;
  previous_hash = tail_hash es;
  entry_hash = hash;
  created_at = d.created_at;
}

-- the test of an entry with the same idempotency key
abbrev pub is_replay : {Bytes : Type 0} → Bool → Draft Bytes → Entry Bytes → Bool
is_replay context_idempotent d old =
    (old.request_digest == d.request_digest)
    && (old.entry_type == d.entry_type)
    && (context_idempotent || (old.payload_digest == d.payload_digest))

-- `idempotency_key` with 1 to 128 characters
abbrev pub is_bad_key : String → Bool
is_bad_key key = is_empty key || ltb 128 (count key)

abbrev transition_material : Move → String → Value
transition_material move payload_digest = dict (
    ("entry_type", str (move_type move))
    ∷ ("payload_digest", str payload_digest)
    ∷ ("context", dict [])
    ∷ [])

-- the digest of the request: its type, its context and, unless the context decides, its payload
abbrev request_material : String → Fields → Bool → String → Value
request_material entry_type context context_idempotent payload_digest =
    let material = ("entry_type", str entry_type) ∷ ("context", obj context) ∷ [] in
    let whole =
      ("entry_type", str entry_type)
      ∷ ("context", obj context)
      ∷ ("payload_digest", str payload_digest)
      ∷ [] in
    dict (if context_idempotent then material else whole)

module _ (S : Services) where
  -- `redact(payload) != payload`
  abbrev is_secret : Fields → Bool
  is_secret payload = not (same_value (S.redact (obj payload)) (obj payload))

  unfoldable pub append_draft :
      String → Fields → String → Fields → Bool → String → Checked (Draft S.Bytes)
  append_draft entry_type payload key request context_idempotent now = do
    raise_if (is_empty entry_type || ltb 64 (count entry_type))
        (validation "entry_type must be a non-empty string of at most 64 characters")
    raise_if (is_bad_key key) (validation "idempotency_key must be 1 to 128 characters")
    key_digest ← object_digest S (dict (("idempotency_key", str key) ∷ []))
    raise_if (is_secret payload) (security "secret-shaped values are forbidden in ledger payloads")
    payload_bytes ← S.canonical_json (obj payload)
    raise_if (ltb 1048576 (S.byte_count payload_bytes)) (validation "ledger payload exceeds 1 MiB")
    request_digest ←
        object_digest S
          (request_material entry_type request context_idempotent (S.sha256_hex payload_bytes))
    ok (record {
      entry_type = entry_type;
      key_digest = key_digest;
      request_digest = request_digest;
      payload_json = payload_bytes;
      payload_digest = S.sha256_hex payload_bytes;
      created_at = now;
    })

  unfoldable pub transition_draft : Request → String → Checked (Draft S.Bytes)
  transition_draft r now = do
    raise_if (is_bad_key r.key) (validation "idempotency_key must be 1 to 128 characters")
    key_digest ← object_digest S (dict (("idempotency_key", str r.key) ∷ []))
    raise_if (not (is_sha256 r.candidate))
        (validation "candidate_digest must be a lowercase SHA-256 digest")
    raise_if (not (is_sha256 r.decision))
        (validation "decision_digest must be a lowercase SHA-256 digest")
    raise_if (ltb r.token 1) (validation "expected_fencing_token must be a positive integer")
    raise_if (is_secret r.payload)
        (security "secret-shaped values are forbidden in ledger transitions")
    payload_bytes ← S.canonical_json (obj r.payload)
    raise_if (ltb 1048576 (S.byte_count payload_bytes))
        (validation "ledger transition payload exceeds 1 MiB")
    request_digest ← object_digest S (transition_material r.move (S.sha256_hex payload_bytes))
    ok (record {
      entry_type = move_type r.move;
      key_digest = key_digest;
      request_digest = request_digest;
      payload_json = payload_bytes;
      payload_digest = S.sha256_hex payload_bytes;
      created_at = now;
    })
