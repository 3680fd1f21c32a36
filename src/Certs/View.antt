-- ===== src/Certs/View.antt =====
-- krabitls/src/traits/cert.rs, the parsed view of a certificate, and `ServerPubkey` of
-- krabitls/src/traits/verify_strategy.rs, with every algorithm compiled in.
use krabitls_rs.Base.{ℕ, List, Option}

pub data RsaCertSigAlg : Type 0 where
  pkcs1v15_sha256 pss_sha256 : RsaCertSigAlg

pub data CertView : Type 0 where
  ed25519 :
      (tbs signature pubkey : List ℕ) (san : Option (List ℕ)) (validity_der : List ℕ) → CertView
  rsa :
      (tbs signature : List ℕ) (outer_sig_alg : Option RsaCertSigAlg) (modulus : List ℕ)
      (exponent : ℕ) (san : Option (List ℕ)) (validity_der : List ℕ)
      → CertView
  mldsa : (tbs signature pubkey : List ℕ) (san : Option (List ℕ)) (validity_der : List ℕ) → CertView
  ecdsa_p256 :
      (tbs signature pubkey : List ℕ) (outer_sig_alg : Option RsaCertSigAlg) (san : Option (List ℕ))
      (validity_der : List ℕ)
      → CertView
  ecdsa_p384 :
      (tbs signature pubkey : List ℕ) (outer_sig_alg : Option RsaCertSigAlg) (san : Option (List ℕ))
      (validity_der : List ℕ)
      → CertView

pub data ServerPubkey : Type 0 where
  ed25519 : List ℕ → ServerPubkey
  rsa : (modulus : List ℕ) (exponent : ℕ) → ServerPubkey
  mldsa ecdsa_p256 ecdsa_p384 : List ℕ → ServerPubkey
