-- ===== src/Provider/Secret/Opened.antt =====
-- internal/llm/provider/secret.go: a secret that is sealed and opened again.
use gigi_dc.Prelude.{
  some, trim, is_blank, ℕ, String, ◌≡◌, refl, eq_iff, false, none, Result, ok, ◌>>=◌, is_nil,
  length, arith,
}
use gigi_dc.Config.{Config, load, decoded_llm_secret_key}
use gigi_dc.Config.Usable.{decoded_llm_secret_key-length, load-named_key}
use gigi_dc.Provider.Secret.{Bytes, Aead, AesgcmSealer, new_aesgcm_sealer, seal, open_sealed}

-- What `cipher.AEAD` documents: opening what was sealed with the same nonce and data gives it back,
-- and what is sealed of a text is no shorter than the text.
abbrev pub IsAead : Aead → Type 0
IsAead g =
    (nonce plaintext aad : Bytes)
    → (g.open_bytes nonce (g.seal_bytes nonce plaintext aad) aad ≡ ok plaintext)
      × (is_nil plaintext ≡ false → is_nil (g.seal_bytes nonce plaintext aad) ≡ false)

pub seal_then_open :
    (s : AesgcmSealer) (draw : ℕ → Result Bytes) (nonce plaintext aad : Bytes)
    → IsAead s.gcm
    → draw s.gcm.nonce_size ≡ ok nonce
    → length nonce ≡ s.gcm.nonce_size
    → is_nil plaintext ≡ false
    → (seal none draw s plaintext aad >>= λ sealed. open_sealed none s sealed aad) ≡ ok plaintext
unfolding seal open_sealed
seal_then_open s draw nonce plaintext aad g drawn size full =
    rw (full, drawn)
      (ground (
        arith,
        size,
        eq_iff s.key_id s.key_id,
        (g nonce plaintext aad).1 full,
        (g nonce plaintext aad).0,
      ))

new_aesgcm_sealer-ok :
    {Block : Type 0} (new_cipher : Bytes → Result Block) (new_gcm : Block → Result Aead)
    (key : Bytes) (block : Block) (gcm : Aead) (key_id : String)
    → length key ≡ 32
    → is_blank key_id ≡ false
    → new_cipher key ≡ ok block
    → new_gcm block ≡ ok gcm
    → new_aesgcm_sealer new_cipher new_gcm key key_id
      ≡ ok (record { gcm = gcm; key_id = trim key_id })
unfolding new_aesgcm_sealer
new_aesgcm_sealer-ok new_cipher new_gcm key block gcm key_id size named c g =
    rw (size, named, c, g) refl

-- With the key of a configuration that loads a sealer is made, seals each text that is not empty and gives it back when it opens what it sealed, where the random bytes are read and the library makes an AEAD cipher of a key of 32 bytes.
pub configured_seal_then_open :
    {Block : Type 0} (getenv to_lower : String → String) (decode : String → Result Bytes)
    (new_cipher : Bytes → Result Block) (new_gcm : Block → Result Aead) (draw : ℕ → Result Bytes)
    (c : Config) (key : Bytes) (block : Block) (gcm : Aead) (nonce plaintext aad : Bytes)
    → load getenv to_lower ≡ ok c
    → decoded_llm_secret_key decode c ≡ ok (some key)
    → new_cipher key ≡ ok block
    → new_gcm block ≡ ok gcm
    → IsAead gcm
    → draw gcm.nonce_size ≡ ok nonce
    → length nonce ≡ gcm.nonce_size
    → is_nil plaintext ≡ false
    → (do
      s ← new_aesgcm_sealer new_cipher new_gcm key c.llm_secret_key_id
      sealed ← seal none draw s plaintext aad
      open_sealed none s sealed aad)
      ≡ ok plaintext
configured_seal_then_open getenv to_lower decode new_cipher new_gcm draw c key block gcm nonce
      plaintext aad loaded decoded cipher made g drawn size full =
    rw
      (new_aesgcm_sealer-ok new_cipher new_gcm key block gcm c.llm_secret_key_id
        (decoded_llm_secret_key-length decode c key decoded)
        (load-named_key getenv to_lower c loaded) cipher made)
      (seal_then_open (record { gcm = gcm; key_id = trim c.llm_secret_key_id }) draw nonce plaintext
        aad g drawn size full)
