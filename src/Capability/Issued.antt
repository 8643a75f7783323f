-- ===== src/Capability/Issued.antt =====
-- `CapabilityToken.verify` of what `CapabilityToken.issue` returned.
use mathlib.Core.Path.{subst}
use testudo.Prelude.{
  ℕ, zero, suc, ◌+◌, ◌≤◌, ◌<◌, String, ◌≡◌, refl, sym, ap, ◌∙◌, true, false, not, [], ◌∷◌, Option,
  none, some, ℤ, ok, ◌==◌, Comparable-string, raise_if-eq-ok, bind-ok, ok-injective, Result-cases,
  inl, inr,
}
use testudo.Prelude.Text.{starts_with}
use testudo.Value.{Value}
use testudo.Capability.{Reason, Raised, Token, base_payload, with_signer, to_dict}
use testudo.Capability.Verify.{
  Bytes, Library, Signer, Keys, canonical, from_payload, is_ascii, check_times, verify,
}
use testudo.Capability.Issue.{
  Grant, unsigned_token, sign_payload, issue_signed, issue, lasting, positive, is_complete,
  is_digest,
}
use testudo.Capability.RoundTrip.{from_payload-token, check_times-ok, verify-hmac, verify-signer}

-- What the round trip needs of a signer.
pub record Honest (s : Signer) : Type 0 where
  pub accepts : (bytes : Bytes) → s.verify bytes (s.sign bytes) ≡ true
  pub no_hmac : (s.algorithm == "HS256") ≡ false
  pub has_algorithm : (s.algorithm == "") ≡ false
  pub has_key_id : (s.key_id == "") ≡ false

module _ (lib : Library) (times : (t : ℕ) → lib.parse_time (lib.format_time t) ≡ some t)
    (digits : (key bytes : Bytes) → is_ascii (lib.hmac key bytes) ≡ true) where
  fresh_times :
      (g : Grant) (token_id nonce : String) (issued lifetime now : ℕ) (t : Token)
      (sig algorithm key_id : String)
      → issued ≤ now
      → now < issued + lifetime
      → record (unsigned_token lib g token_id nonce issued lifetime) {
        signature = sig;
        signature_algorithm = algorithm;
        key_id = key_id;
      }
        ≡ t
      → check_times lib now t ≡ ok t
  fresh_times g token_id nonce issued lifetime now t sig algorithm key_id begun live same =
      check_times-ok lib t issued (issued + lifetime) now
        (ap (λ (u : Token). lib.parse_time u.issued_at) (sym same) ∙ times issued)
        (ap (λ (u : Token). lib.parse_time u.expires_at) (sym same) ∙ times (issued + lifetime))
        begun live

  issue_signed-verify :
      (key : Option Bytes) (signer : Option Signer)
      (honest : (s : Signer) → signer ≡ some s → Honest s) (g : Grant) (token_id nonce : String)
      (issued lifetime now : ℕ) (t : Token)
      → issue_signed lib
          (record { signing_key = key; signer = signer })
          g
          token_id
          nonce
          issued
          lifetime
        ≡ ok t
      → issued ≤ now
      → now < issued + lifetime
      → verify lib (record { signing_key = key; signer = signer }) now (to_dict t) ≡ ok t
  unfolding issue_signed sign_payload
  issue_signed-verify none none honest g token_id nonce issued lifetime now t h begun live = cc
  issue_signed-verify (some key) (some s) honest g token_id nonce issued lifetime now t h begun
        live =
      cc
  issue_signed-verify (some []) none honest g token_id nonce issued lifetime now t h begun live = cc
  issue_signed-verify (some (b ∷ key)) none honest g token_id nonce issued lifetime now t h begun
        live =
      let u = unsigned_token lib g token_id nonce issued lifetime in
      elim (Result-cases (canonical lib (base_payload u))) [
        | inl raised ↦ cc (rw raised.1 at h)
        | inr (bytes, encoded) ↦
            let mac = lib.hmac (b ∷ key) bytes in
            let accepted : from_payload lib (base_payload u) mac (some "HS256") (some "prototype")
                ≡ ok t =
              rw encoded at h in
            let same = from_payload-token lib [] u t mac "HS256" "prototype" refl refl accepted in
            verify-hmac lib (b ∷ key) bytes u now encoded (digits (b ∷ key) bytes) t (sym same)
              accepted
              (fresh_times g token_id nonce issued lifetime now t mac "HS256" "prototype" begun live
                same)
      ]
  issue_signed-verify none (some s) honest g token_id nonce issued lifetime now t h begun live =
      let u = unsigned_token lib g token_id nonce issued lifetime in
      let d = with_signer (base_payload u) s.algorithm s.key_id in
      let trusted = honest s refl in
      elim (Result-cases (canonical lib d)) [
        | inl raised ↦ cc (rw raised.1 at h)
        | inr (bytes, encoded) ↦
            let sig = s.sign bytes in
            let accepted : from_payload lib d sig (some s.algorithm) (some s.key_id) ≡ ok t =
              rw encoded at h in
            let same =
              from_payload-token lib
                (("signature_alg", Value.str s.algorithm) ∷ ("key_id", Value.str s.key_id) ∷ []) u t
                sig s.algorithm s.key_id trusted.has_algorithm trusted.has_key_id accepted in
            verify-signer lib s bytes u now encoded (trusted.accepts bytes) trusted.no_hmac
              trusted.has_algorithm trusted.has_key_id t (sym same) accepted
              (fresh_times g token_id nonce issued lifetime now t sig s.algorithm s.key_id begun
                live same)
      ]

  lasting-ok : (lifetime n : ℕ) → lasting (positive (ℤ.pos lifetime)) ≡ ok n → lifetime ≡ n
  lasting-ok zero n h = cc
  lasting-ok (suc m) n h = ok-injective h

  -- A token that `issue` returned passes `verify` with the same keys from the time of its issue until
  -- its lifetime has passed, and comes back unchanged.
  pub verify-issue :
      (keys : Keys) (honest : (s : Signer) → keys.signer ≡ some s → Honest s) (g : Grant)
      (token_id nonce : String) (issued lifetime now : ℕ) (t : Token)
      → issue lib keys g token_id nonce issued (ℤ.pos lifetime) ≡ ok t
      → issued ≤ now
      → now < issued + lifetime
      → verify lib keys now (to_dict t) ≡ ok t
  unfolding issue
  verify-issue keys honest g token_id nonce issued lifetime now t h begun live =
      let (one_key, h1) = raise_if-eq-ok _ _ _ h in
      let (n, lasts, h2) = bind-ok (lasting (positive (ℤ.pos lifetime))) _ t h1 in
      let (complete, h3) =
        raise_if-eq-ok (not (is_complete g)) (Raised.capability_error Reason.scope_required) _ h2 in
      let (agent, h4) =
        raise_if-eq-ok (not (starts_with g.branch "agent/"))
          (Raised.capability_error Reason.not_agent_branch) _ h3 in
      let (digest, h5) =
        raise_if-eq-ok (not (is_digest g.base_sha)) (Raised.capability_error Reason.bad_base_sha) _
          h4 in
      let same : lifetime ≡ n = lasting-ok lifetime n lasts in
      issue_signed-verify keys.signing_key keys.signer honest g token_id nonce issued lifetime now t
        (subst (λ k. issue_signed lib keys g token_id nonce issued k ≡ ok t) (sym same) h5) begun
        live
