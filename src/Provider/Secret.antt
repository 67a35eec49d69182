-- ===== src/Provider/Secret.antt =====
-- internal/llm/provider/secret.go: the sealing of secrets. Go's `crypto` is `Aead` and the arguments
-- of `new_aesgcm_sealer`; `draw n` is `io.ReadFull` of `n` random bytes and `done` is `ctx.Err()`.
pub mod Opened
use Prim.Native.String.{slice}
use gigi_dc.Prelude.{
  ℕ, String, ◌==◌, not, Option, none, some, List, failure, Error, Result, ok, err, refuse_if, ◌>>=◌,
  ◌>>◌, trim, is_empty, is_blank, is_nil, eqb, length, if◌then◌else◌,
}

abbrev pub Bytes : Type 0
Bytes = List ℕ

-- `cipher.AEAD`: the arguments of `Seal` and `Open` are the nonce, the text and the additional data.
pub record Aead : Type 0 where
  pub nonce_size : ℕ
  pub seal_bytes : Bytes → Bytes → Bytes → Bytes
  pub open_bytes : Bytes → Bytes → Bytes → Result Bytes

pub record SealedSecret : Type 0 where
  pub ciphertext : Bytes
  pub nonce : Bytes
  pub key_id : String

pub record AesgcmSealer : Type 0 where
  pub gcm : Aead
  pub key_id : String

unfoldable pub new_aesgcm_sealer :
    {Block : Type 0}
    → (Bytes → Result Block)
    → (Block → Result Aead)
    → Bytes
    → String
    → Result AesgcmSealer
new_aesgcm_sealer new_cipher new_gcm key key_id = do
  refuse_if (not (eqb (length key) 32)) "aes-gcm key must be 32 bytes"
  refuse_if (is_blank key_id) "key id is required"
  block ← new_cipher key
  gcm ← new_gcm block
  ok (record { gcm = gcm; key_id = trim key_id })

abbrev pub check_context : Option Error → Result (Unit {0})
check_context none = ok tt
check_context (some e) = err e

unfoldable pub seal :
    Option Error → (ℕ → Result Bytes) → AesgcmSealer → Bytes → Bytes → Result SealedSecret
seal done draw s plaintext aad = do
  check_context done
  refuse_if (is_nil plaintext) "plaintext is required"
  nonce ← draw s.gcm.nonce_size
  ok (record {
    ciphertext = s.gcm.seal_bytes nonce plaintext aad;
    nonce = nonce;
    key_id = s.key_id;
  })

unfoldable pub open_sealed : Option Error → AesgcmSealer → SealedSecret → Bytes → Result Bytes
open_sealed done s sealed aad = do
  check_context done
  refuse_if (not (sealed.key_id == s.key_id)) "sealed secret key id mismatch"
  refuse_if (not (eqb (length sealed.nonce) s.gcm.nonce_size)) "sealed secret nonce is invalid"
  refuse_if (is_nil sealed.ciphertext) "sealed secret ciphertext is required"
  s.gcm.open_bytes sealed.nonce sealed.ciphertext aad

-- `Fingerprint`: `hex_sum` is the hexadecimal text of the SHA-256 sum.
unfoldable pub fingerprint : (String → String) → String → Result String
fingerprint hex_sum secret = do
  refuse_if (is_blank secret) "secret is required"
  ok (slice (hex_sum secret) 0 16)
